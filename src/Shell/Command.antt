-- ===== src/Shell/Command.antt =====
-- bash-command-parser.ts: `extractCommand`. Each regular expression is the scan that it stands for;
-- none of them can match in two ways.
use reins.Base.{
  ℕ, zero, suc, Bool, not, ◌&&◌, ◌||◌, Option, none, some, List, [], ◌∷◌, ◌++◌, Text, text, text_eq,
  leb, ◌==◌, if◌then◌else◌, length, span, any,
}

-- `\s`, which is also what `trim` takes off.
abbrev pub is_space : ℕ → Bool
is_space c =
    (leb 9 c && leb c 13)
    || c == 32
    || c == 160
    || c == 0x1680
    || (leb 0x2000 c && leb c 0x200a)
    || c == 0x2028
    || c == 0x2029
    || c == 0x202f
    || c == 0x205f
    || c == 0x3000
    || c == 0xfeff

abbrev pub is_word : ℕ → Bool
is_word c = not (is_space c)

abbrev pub is_name_start : ℕ → Bool
is_name_start c = (leb b'A' c && leb c b'Z') || (leb b'a' c && leb c b'z') || c == b'_'

abbrev pub is_name : ℕ → Bool
is_name c = is_name_start c || (leb b'0' c && leb c b'9')

-- White space after `front`, which must be there.
unfoldable pub with_white : Text → Text → Text → Option (Text × Text)
with_white front [] behind = none
with_white front (w ∷ ws) behind = some (front ++ w ∷ ws, behind)

unfoldable pub before_space : Text → Text → Option (Text × Text)
before_space front rest = let (white, behind) = span is_space rest in with_white front white behind

-- The match after the name: `=[^\s]*\s+`.
unfoldable pub assignment : Text → Text → Option (Text × Text)
assignment name [] = none
assignment name (c ∷ rest) =
    let (value, behind) = span is_word rest in
    if c == b'=' then before_space (name ++ c ∷ value) behind else none

-- `/^([A-Za-z_][A-Za-z0-9_]*=[^\s]*\s+)/`: the match, and the text behind it.
unfoldable pub env_match : Text → Option (Text × Text)
env_match [] = none
env_match (c ∷ rest) =
    let (name, behind) = span is_name rest in
    if is_name_start c then assignment (c ∷ name) behind else none

-- `PREFIX_WORDS`.
abbrev pub prefix_words : List Text
prefix_words =
    text "sudo" ∷ text "env" ∷ text "nohup" ∷ text "time" ∷ text "nice" ∷ text "exec" ∷ []

-- `/^(\S+)(\s+)(.*)/s` with a prefix word in front: the words up to the third group, and that group.
unfoldable pub prefix_match : Text → Option (Text × Text)
prefix_match remaining =
    let (word, behind) = span is_word remaining in
    if any (text_eq word) prefix_words then before_space word behind else none

-- One of the two loops; a round takes at least one code unit, so the fuel of the text is enough.
unfoldable pub skip : (Text → Option (Text × Text)) → ℕ → Text → Text → Text × Text
skip match zero prefix remaining = (prefix, remaining)
skip match (suc fuel) prefix remaining = elim (match remaining) [
  | none ↦ (prefix, remaining)
  | some (matched, behind) ↦ skip match fuel (prefix ++ matched) behind
]

pub record Extracted : Type 0 where
  pub prefix : Text
  pub cmd : Text
  pub rest : Text

-- `extractCommand`. The last match, `/^(\S+)(.*)/s`, fails where no word is in front.
unfoldable pub extract_command : Text → Extracted
extract_command command =
    let (assigned, unassigned) = skip env_match (length command) [] command in
    let (prefix, remaining) = skip prefix_match (length unassigned) assigned unassigned in
    let (cmd, rest) = span is_word remaining in record { prefix = prefix; cmd = cmd; rest = rest }
