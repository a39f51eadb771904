-- ===== src/Diff/Numstat.antt =====
-- diff-parser.ts: `parseNumstat`. Numbers are exact integers.
use reins.Base.{
  ℕ, zero, suc, ◌+◌, ◌-◌, ◌*◌, Bool, ◌&&◌, Option, none, some, List, [], ◌∷◌, Text, text, text_eq,
  split_at, span, take, drop, length, leb, ◌==◌, if◌then◌else◌,
}
use reins.Shell.Command.{is_space}

pub data ℤ : Type 0 where
  pos : ℕ → ℤ
  negsuc : ℕ → ℤ

-- `DiffFileSummary`; a path is `none` when the output ends before it.
pub record Summary : Type 0 where
  pub path : Option Text
  pub old_path : Option Text
  pub additions : ℤ
  pub removals : ℤ

abbrev negated : ℕ → ℤ
negated zero = pos zero
negated (suc n) = negsuc n

abbrev pub is_digit : ℕ → Bool
is_digit c = leb b'0' c && leb c b'9'

-- The digits that a text begins with, after `n`.
abbrev pub digits : ℕ → Text → ℕ
digits n [] = n
digits n (c ∷ t) = let more = digits (n * 10 + (c - b'0')) t in if is_digit c then more else n

abbrev signed : Text → ℤ
signed [] = pos 0
signed (c ∷ t) =
    if c == b'-'
    then negated (digits 0 t)
    else if c == b'+'
    then pos (digits 0 t)
    else pos (digits 0 (c ∷ t))

-- `count`: `parseInt`, and 0 for what is no number.
abbrev pub count_of : Text → ℤ
count_of value = if text_eq value (text "-") then pos 0 else signed (span is_space value).1

-- `indexOf` of a tab from `n` on; `none` for -1.
abbrev pub index_of : ℕ → Text → Option ℕ
index_of n [] = none
index_of zero (c ∷ t) =
    let later : Option ℕ = index_of zero t in
    if c == 9 then some 0 else elim later [ none ↦ none | some i ↦ some (suc i) ]
index_of (suc n) (c ∷ t) = elim (index_of n t) [ none ↦ none | some i ↦ some (suc i) ]

-- The place behind a tab: that of -1 is the begin.
abbrev pub after : Option ℕ → ℕ
after none = 0
after (some i) = suc i

-- `slice(begin, tab)`, where -1 is the last character.
abbrev pub slice_to : ℕ → Option ℕ → Text → Text
slice_to begin none t = drop begin (take (length t - 1) t)
slice_to begin (some end) t = drop begin (take end t)

abbrev pub nth : ℕ → List Text → Option Text
nth n [] = none
nth zero (t ∷ ts) = some t
nth (suc n) (t ∷ ts) = nth n ts

-- The body of the loop on a field: what it adds, of the fields behind it, and how many of them it skips.
abbrev pub read_field : Text → List Text → Summary × ℕ
read_field field fields =
    let first_tab = index_of 0 field in
    let second_tab = index_of (after first_tab) field in
    let additions = count_of (slice_to 0 first_tab field) in
    let removals = count_of (slice_to (after first_tab) second_tab field) in
    let path = drop (after second_tab) field in
    if length path == 0
    then (
      record {
        path = nth 1 fields;
        old_path = nth 0 fields;
        additions = additions;
        removals = removals;
      },
      2,
    )
    else (
      record { path = some path; old_path = none; additions = additions; removals = removals },
      0,
    )

-- The loop, which skips the next fields.
unfoldable pub read_fields : ℕ → List Text → List Summary
read_fields skip [] = []
read_fields (suc skip) (f ∷ fields) = read_fields skip fields
read_fields zero (f ∷ fields) =
    let (summary, skipped) = read_field f fields in
    let next = read_fields skipped fields in
    let rest = read_fields 0 fields in if length f == 0 then rest else summary ∷ next

-- `parseNumstat`.
unfoldable pub parse_numstat : Text → List Summary
parse_numstat raw = read_fields 0 (split_at 0 [] raw)
