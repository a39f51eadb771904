-- ===== src/Diff/Unified.antt =====
-- diff-parser.ts: `parseUnifiedDiff`. Numbers are exact.
use reins.Base.{
  ℕ, not, Option, none, some, List, [], ◌∷◌, ◌++◌, Text, text, starts_with, drop, any, ◌==◌,
  if◌then◌else◌, span,
}
use reins.Shell.Command.{is_space}
use reins.Patch.Hunks.{is_terminator, read_header, Hunk}

pub data Prefix : Type 0 where
  plus minus space : Prefix

pub record ParsedLine : Type 0 where
  pub prefix : Prefix
  pub text : Text

pub record ParsedHunk : Type 0 where
  pub header : Text
  pub old_start : ℕ
  pub new_start : ℕ
  pub lines : List ParsedLine

pub record ParsedFile : Type 0 where
  pub path : Text
  pub hunks : List ParsedHunk

-- The files before the current one, the current file without its current hunk, and that hunk.
pub record State : Type 0 where
  pub files : List ParsedFile
  pub current_file : Option ParsedFile
  pub current_hunk : Option ParsedHunk

-- `split("\n")`, with `line` the piece so far.
unfoldable pub split_lines : Text → Text → List Text
split_lines line [] = line ∷ []
split_lines line (c ∷ cs) =
    let closed = line ∷ split_lines [] cs in
    let longer = split_lines (line ++ c ∷ []) cs in if c == 10 then closed else longer

-- `(.*?) b\/(.*)`: what stands behind the first ` b/`, up to a line terminator.
unfoldable pub behind_b : Text → Option Text
behind_b [] = none
behind_b (c ∷ cs) =
    let later = behind_b cs in
    if starts_with (c ∷ cs) (text " b/")
    then some (span (λ d. not (is_terminator d)) (drop 3 (c ∷ cs))).0
    else if is_terminator c
    then none
    else later

-- The path that `diff --git a\/(.*?) b\/(.*)` matches, at the first place where it does.
unfoldable pub git_path : Text → Option Text
git_path [] = none
git_path (c ∷ cs) =
    let later = git_path cs in
    let here = behind_b (drop 13 (c ∷ cs)) in
    if starts_with (c ∷ cs) (text "diff --git a/")
    then elim here [ none ↦ later | some path ↦ some path ]
    else later

-- The first place where the header of a hunk matches.
unfoldable pub find_header : Text → Option Hunk
find_header [] = none
find_header (c ∷ cs) =
    let later = find_header cs in elim (read_header (c ∷ cs)) [ none ↦ later | some h ↦ some h ]

abbrev pub ignored : List Text
ignored =
    text "index "
    ∷ text "---"
    ∷ text "+++"
    ∷ text "new file mode"
    ∷ text "deleted file mode"
    ∷ text "old mode"
    ∷ text "new mode"
    ∷ text "rename from"
    ∷ text "rename to"
    ∷ text "similarity index"
    ∷ text "Binary files"
    ∷ []

abbrev pub with_hunk : ParsedFile → Option ParsedHunk → ParsedFile
with_hunk f none = f
with_hunk f (some h) = record f { hunks = f.hunks ++ h ∷ [] }

-- The files so far, the current one included.
unfoldable pub all_files : State → List ParsedFile
all_files st = elim st.current_file [
  | none ↦ st.files
  | some f ↦ st.files ++ with_hunk f st.current_hunk ∷ []
]

unfoldable pub new_file : State → Text → State
new_file st line = record {
  files = all_files st;
  current_file =
      some (record { path = elim (git_path line) [ none ↦ line | some p ↦ p ]; hunks = [] });
  current_hunk = none;
}

unfoldable pub new_hunk : State → Text → State
new_hunk st line = elim st.current_file [
  | none ↦ st
  | some f ↦ record st {
    current_file = some (with_hunk f st.current_hunk);
    current_hunk = some (elim (find_header line) [
      | none ↦ record { header = line; old_start = 0; new_start = 0; lines = [] }
      | some h ↦ record {
        header = line;
        old_start = h.old_start;
        new_start = h.new_start;
        lines = [];
      }
    ]);
  }
]

abbrev pub prefix_of : ℕ → Option Prefix
prefix_of c =
    if c == b'+'
    then some plus
    else if c == b'-'
    then some minus
    else if c == b' '
    then some space
    else none

unfoldable pub hunk_line : ParsedHunk → Text → ParsedHunk
hunk_line h [] = h
hunk_line h (c ∷ cs) = elim (prefix_of c) [
  | none ↦ h
  | some p ↦ record h { lines = h.lines ++ record { prefix = p; text = cs } ∷ [] }
]

-- The body of the loop.
unfoldable pub read_line : State → Text → State
read_line st line =
    if starts_with line (text "diff --git")
    then new_file st line
    else if any (starts_with line) ignored
    then st
    else if starts_with line (text "@@")
    then new_hunk st line
    else elim st.current_hunk [
      | none ↦ st
      | some h ↦ record st { current_hunk = some (hunk_line h line) }
    ]

unfoldable pub read_lines : State → List Text → State
read_lines st [] = st
read_lines st (l ∷ ls) = read_lines (read_line st l) ls

unfoldable pub start : State
start = record { files = []; current_file = none; current_hunk = none }

-- `parseUnifiedDiff`.
unfoldable pub parse_unified_diff : Text → List ParsedFile
parse_unified_diff raw =
    if any (λ c. not (is_space c)) raw
    then all_files (read_lines start (split_lines [] raw))
    else []
