-- ===== src/Patch/Hunks.antt =====
-- patch.ts: `parseHunks` and `rangeIndex`. A line is given without its newline.
use reins.Base.{
  ◌>>=◌, ◌≡◌, refl, ◌⊎◌, inl, inr, ℕ, ◌+◌, ◌-◌, ◌*◌, Bool, true, false, not, ◌&&◌, ◌||◌, Option,
  none, some, List, [], ◌∷◌, ◌++◌, Text, text, text_eq, leb, ◌==◌, if◌then◌else◌, length, span,
  starts_with, drop, count, any,
}

pub data Kind : Type 0 where
  context addition deletion : Kind

pub record PatchLine : Type 0 where
  pub kind : Kind
  pub text : Text
  pub old_newline : Bool
  pub new_newline : Bool

pub record Hunk : Type 0 where
  pub old_start : ℕ
  pub old_count : ℕ
  pub new_start : ℕ
  pub new_count : ℕ
  pub lines : List PatchLine

pub data Error : Type 0 where
  stray_marker no_hunks bad_counts bad_range bad_content incomplete : Error

pub data Result (A : Type 0) : Type 0 where
  ok : A → Result A
  err : Error → Result A

pub Result-cases :
    {A : Type 0} (r : Result A) → ((e : Error) × (r ≡ err e)) ⊎ ((a : A) × (r ≡ ok a))
Result-cases (ok a) = inr (a, refl)
Result-cases (err e) = inl (e, refl)

-- What `.` does not match.
abbrev pub is_terminator : ℕ → Bool
is_terminator c = c == 10 || c == 13 || c == 0x2028 || c == 0x2029

-- The matches of `/.*(?:\n|$)/g`, without their newlines and without the empty one at the end. A
-- match begins behind the last other terminator of its line, since none can span one.
unfoldable pub physical_from : Text → Text → List Text
physical_from [] [] = []
physical_from (d ∷ ds) [] = (d ∷ ds) ∷ []
physical_from line (c ∷ cs) =
    let closed = line ∷ physical_from [] cs in
    let rest = physical_from (if is_terminator c then [] else line ++ c ∷ []) cs in
    if c == 10 then closed else rest

abbrev pub is_digit : ℕ → Bool
is_digit c = leb b'0' c && leb c b'9'

-- `Number` of digits. The numbers of a patch are taken to be exact.
abbrev pub number_from : ℕ → Text → ℕ
number_from n [] = n
number_from n (d ∷ ds) = number_from (n * 10 + (d - b'0')) ds

-- `(\d+)`: the number, and the text behind it.
unfoldable pub read_number : Text → Option (ℕ × Text)
read_number t =
    let (digits, rest) = span is_digit t in
    if length digits == 0 then none else some (number_from 0 digits, rest)

-- `(?:,(\d+))?`, which reads as 1 where it is not there.
unfoldable pub read_count : Text → ℕ × Text
read_count t =
    if starts_with t (text ",")
    then elim (read_number (drop 1 t)) [ none ↦ (1, t) | some found ↦ found ]
    else (1, t)

unfoldable pub expect : Text → Text → Option Text
expect word t = if starts_with t word then some (drop (length word) t) else none

-- `HUNK_HEADER`.
unfoldable pub read_header : Text → Option Hunk
read_header line = do
  rest ← expect (text "@@ -") line
  (old_start, rest) ← read_number rest
  let old = read_count rest
  rest ← expect (text " +") old.1
  (new_start, rest) ← read_number rest
  let new = read_count rest
  _ ← expect (text " @@") new.1
  some (record {
    old_start = old_start;
    old_count = old.0;
    new_start = new_start;
    new_count = new.0;
    lines = [];
  })

abbrev pub kind_of : ℕ → Option Kind
kind_of c =
    if c == b' '
    then some context
    else if c == b'+'
    then some addition
    else if c == b'-'
    then some deletion
    else none

abbrev pub is_addition : Kind → Bool
is_addition addition = true
is_addition _ = false

abbrev pub is_deletion : Kind → Bool
is_deletion deletion = true
is_deletion _ = false

-- The flags that a no-newline marker clears on the line before it.
abbrev pub without_newline : PatchLine → PatchLine
without_newline l = record l {
  old_newline = if is_addition l.kind then l.old_newline else false;
  new_newline = if is_deletion l.kind then l.new_newline else false;
}

-- The marker changes the last line, `previous`; there is none at the start of a hunk.
unfoldable pub mark_last : List PatchLine → Option (List PatchLine)
mark_last [] = none
mark_last (l ∷ []) = some (without_newline l ∷ [])
mark_last (l ∷ m ∷ ls) = elim (mark_last (m ∷ ls)) [ none ↦ none | some rest ↦ some (l ∷ rest) ]

abbrev pub marker : Text
marker = text "\\ No newline at end of file"

-- A line within the hunk `current`.
unfoldable pub read_line : Hunk → Text → Result Hunk
read_line current [] = ok current
read_line current (prefix ∷ body) =
    if text_eq (prefix ∷ body) marker
    then elim (mark_last current.lines) [
      | none ↦ err stray_marker
      | some lines ↦ ok (record current { lines = lines })
    ]
    else elim (kind_of prefix) [
      | none ↦ ok current
      | some kind ↦ ok (record current {
        lines =
            current.lines
            ++ record { kind = kind; text = body; old_newline = true; new_newline = true } ∷ [];
      })
    ]

-- The hunks closed so far and the current one, over the lines.
unfoldable pub read_hunks : List Hunk → Option Hunk → List Text → Result (List Hunk)
read_hunks closed none [] = ok closed
read_hunks closed (some current) [] = ok (closed ++ current ∷ [])
read_hunks closed none (line ∷ lines) = read_hunks closed (read_header line) lines
read_hunks closed (some current) (line ∷ lines) = elim (read_header line) [
  | some next ↦ read_hunks (closed ++ current ∷ []) (some next) lines
  | none ↦ elim (read_line current line) [
    | err e ↦ err e
    | ok grown ↦ read_hunks closed (some grown) lines
  ]
]

unfoldable pub has_counts : Hunk → Bool
has_counts h =
    count (λ l. not (is_addition l.kind)) h.lines == h.old_count
    && count (λ l. not (is_deletion l.kind)) h.lines == h.new_count

unfoldable pub check_hunks : Bool → List Hunk → Result (List Hunk)
check_hunks allow_empty hunks =
    if length hunks == 0 && not allow_empty
    then err no_hunks
    else if any (λ h. not (has_counts h)) hunks
    then err bad_counts
    else ok hunks

-- `parseHunks`.
unfoldable pub parse_hunks : Bool → Text → Result (List Hunk)
parse_hunks allow_empty patch = elim (read_hunks [] none (physical_from [] patch)) [
  | err e ↦ err e
  | ok hunks ↦ check_hunks allow_empty hunks
]

-- `rangeIndex`. It is -1 for a start of 0 with a count above 0, which no file has.
abbrev pub range_index : ℕ → ℕ → Option ℕ
range_index start count =
    if count == 0 then some start else if start == 0 then none else some (start - 1)
