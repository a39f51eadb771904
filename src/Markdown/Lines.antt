-- ===== src/Markdown/Lines.antt =====
-- streaming-markdown.ts: what a line is. Each regular expression is the scan that it stands for; none of
-- them can match in two ways.
use reins.Base.{
  ℕ, ◌+◌, Bool, true, false, not, ◌&&◌, ◌||◌, Option, none, some, [], ◌∷◌, Text, text, starts_with,
  length, drop, span, any, ◌==◌, leb, ltb, if◌then◌else◌,
}
use reins.Shell.Command.{is_space}

-- `OpenFence`.
pub record Fence : Type 0 where
  pub char : ℕ
  pub length_of : ℕ
  pub indent : ℕ

-- `trimStart`.
abbrev pub trim_start : Text → Text
trim_start line = (span is_space line).1

-- `leadingWhitespace`.
abbrev pub leading_whitespace : Text → ℕ
leading_whitespace line = length (span is_space line).0

abbrev pub includes : Text → Text → Bool
includes [] part = starts_with [] part
includes (c ∷ t) part = starts_with (c ∷ t) part || includes t part

-- What `.` does not match.
abbrev pub is_terminator : ℕ → Bool
is_terminator c = c == 10 || c == 13 || c == 0x2028 || c == 0x2029

abbrev pub is_letter : ℕ → Bool
is_letter c = (leb b'a' c && leb c b'z') || (leb b'A' c && leb c b'Z')

abbrev pub is_digit : ℕ → Bool
is_digit c = leb b'0' c && leb c b'9'

-- The marker of a fence and the text behind it: the first group of `FENCE_OPEN` and `FENCE_CLOSE`.
abbrev pub fence_marker : Text → Option (ℕ × ℕ × Text)
fence_marker [] = none
fence_marker (c ∷ t) =
    let (marker, behind) = span (λ d. d == c) (c ∷ t) in
    if (c == b'`' || c == b'~') && leb 3 (length marker)
    then some (c, length marker, behind)
    else none

-- `openFence`.
abbrev pub open_fence : Text → Option Fence
open_fence line = elim (fence_marker (trim_start line)) [
  | none ↦ none
  | some (c, n, info) ↦
      if any is_terminator info || (c == b'`' && any (λ d. d == b'`') info)
      then none
      else some (record { char = c; length_of = n; indent = leading_whitespace line })
]

-- `closesFence`.
abbrev pub closes_fence : Text → Fence → Bool
closes_fence line fence = elim (fence_marker (trim_start line)) [
  | none ↦ false
  | some (c, n, behind) ↦
      not (ltb (fence.indent + 3) (leading_whitespace line))
      && not (any (λ d. not (is_space d)) behind)
      && c == fence.char
      && leb fence.length_of n
]

abbrev is_label : Text → Bool
is_label t =
    let (label, behind) = span (λ c. not (c == b']')) t in
    not (length label == 0) && starts_with behind (text "]:")

-- `REFERENCE_DEFINITION`.
abbrev pub is_reference_definition : Text → Bool
is_reference_definition line =
    let (spaces, behind) = span (λ c. c == 32) line in
    leb (length spaces) 3 && starts_with behind (text "[") && is_label (drop 1 behind)

-- The lookahead of `HTML_BLOCK_START`: the scheme of an autolink.
abbrev is_scheme : Text → Bool
is_scheme [] = false
is_scheme (c ∷ t) =
    is_letter c
    && starts_with
        (span (λ d. is_letter d || is_digit d || d == b'+' || d == b'.' || d == b'-') t).1
        (text ":")

-- `HTML_BLOCK_START`.
abbrev pub is_html_block_start : Text → Bool
is_html_block_start [] = false
is_html_block_start (c ∷ []) = false
is_html_block_start (c ∷ d ∷ t) =
    c == b'<' && not (is_scheme (d ∷ t)) && (is_letter d || d == b'!' || d == b'?' || d == b'/')

-- `replace(BLOCKQUOTE_PREFIX, "")`, with whether a `>` is just before.
abbrev pub without_quotes : Bool → Text → Text
without_quotes behind [] = []
without_quotes behind (c ∷ t) =
    let more = without_quotes true t in
    let spaced = without_quotes false t in
    if c == b'>' then more else if behind && is_space c then spaced else c ∷ t

abbrev ends_marker : Text → Bool
ends_marker [] = true
ends_marker (c ∷ t) = is_space c

abbrev is_point : Text → Bool
is_point [] = false
is_point (c ∷ t) = (c == b'.' || c == b')') && ends_marker t

-- `LIST_MARKER`.
abbrev pub is_list_marker : Text → Bool
is_list_marker [] = false
is_list_marker (c ∷ t) =
    let (digits, behind) = span is_digit (c ∷ t) in
    ((c == b'-' || c == b'*' || c == b'+') && ends_marker t)
    || (leb 1 (length digits) && leb (length digits) 9 && is_point behind)
