-- ===== src/Shell/Segments.antt =====
-- bash-command-parser.ts: `parseCommandSegments`.
use reins.Base.{List, [], ◌∷◌, ◌++◌, Text, if◌then◌else◌, any, span}
use reins.Shell.Split.{Part, split_on_operators}
use reins.Shell.Command.{is_space, is_word, extract_command}

pub data Kind : Type 0 where
  command args operator : Kind

pub record Segment : Type 0 where
  pub kind : Kind
  pub text : Text

-- `if (text) segments.push(…)`.
abbrev pub pushed : Kind → Text → List Segment
pushed kind [] = []
pushed kind (c ∷ cs) = record { kind = kind; text = c ∷ cs } ∷ []

-- A part that is no operator. `trimStart` leaves what `span` finds behind the white space.
unfoldable pub fragment : Text → List Segment
fragment part =
    let (leading, trimmed) = span is_space part in
    let found = extract_command trimmed in
    pushed args leading
    ++ (pushed args found.prefix ++ (pushed command found.cmd ++ pushed args found.rest))

unfoldable pub segments_of : Part → List Segment
segments_of part =
    if part.is_operator
    then record { kind = operator; text = part.text } ∷ []
    else fragment part.text

unfoldable pub segments : List Part → List Segment
segments [] = []
segments (p ∷ ps) = segments_of p ++ segments ps

-- `command || "…"`; the ellipsis is the code unit 0x2026.
abbrev pub or_ellipsis : Text → Text
or_ellipsis [] = 0x2026 ∷ []
or_ellipsis (c ∷ cs) = c ∷ cs

unfoldable pub parse_command_segments : Text → List Segment
parse_command_segments input =
    if any is_word input
    then segments (split_on_operators input)
    else record { kind = args; text = or_ellipsis input } ∷ []
