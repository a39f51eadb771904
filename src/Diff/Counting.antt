-- ===== src/Diff/Counting.antt =====
-- diff-parser.ts: the numbers and the counts that `parsePatch` gives.
use reins.Base.{
  ℕ, suc, ◌+◌, ◌≡◌, refl, Bool, true, false, Option, none, some, List, [], ◌∷◌, Text, count, arith,
  map, All,
}
use reins.Diff.Unified.{ParsedLine, ParsedHunk, ParsedFile, parse_unified_diff}
use reins.Diff.Numbering.{
  context, add, remove, DiffLine, DiffHunk, DiffFile, number_lines, number_hunk, is_plus, is_minus,
  tally, number_file, parse_patch,
}

-- The numbers that are there, in order.
abbrev pub present : List (Option ℕ) → List ℕ
present [] = []
present (none ∷ ns) = present ns
present (some n ∷ ns) = n ∷ present ns

abbrev pub old_numbers : List DiffLine → List (Option ℕ)
old_numbers [] = []
old_numbers (l ∷ ls) = l.old_line ∷ old_numbers ls

abbrev pub new_numbers : List DiffLine → List (Option ℕ)
new_numbers [] = []
new_numbers (l ∷ ls) = l.new_line ∷ new_numbers ls

-- Each number is one more than the one before; the first is `n`.
abbrev pub Rises : ℕ → List ℕ → Type 0
Rises n [] = Unit
Rises n (x ∷ xs) = (x ≡ n) × Rises (suc n) xs

number_lines-Rises :
    (old new : ℕ) (ls : List ParsedLine)
    → Rises old (present (old_numbers (number_lines old new ls)))
      × Rises new (present (new_numbers (number_lines old new ls)))
unfolding number_lines
number_lines-Rises old new [] = (tt, tt)
number_lines-Rises old new (l ∷ ls) = ground (
  arith,
  number_lines-Rises old (suc new) ls,
  number_lines-Rises (suc old) new ls,
  number_lines-Rises (suc old) (suc new) ls,
)

-- In a hunk the lines of the old file are numbered one by one from the old start of its header, and
-- those of the new file from the new start.
pub number_hunk-Rises :
    (h : ParsedHunk)
    → Rises h.old_start (present (old_numbers (number_hunk h).lines))
      × Rises h.new_start (present (new_numbers (number_hunk h).lines))
unfolding number_hunk
number_hunk-Rises h = number_lines-Rises h.old_start h.new_start h.lines

abbrev pub is_add : DiffLine → Bool
is_add l = elim l.line_type [ context ↦ false | add ↦ true | remove ↦ false ]

abbrev pub is_remove : DiffLine → Bool
is_remove l = elim l.line_type [ context ↦ false | add ↦ false | remove ↦ true ]

-- How many lines of the hunks pass a test.
abbrev pub shown : (DiffLine → Bool) → List DiffHunk → ℕ
shown p [] = 0
shown p (h ∷ hs) = count p h.lines + shown p hs

count-number_lines :
    (old new : ℕ) (ls : List ParsedLine)
    → (count is_add (number_lines old new ls) ≡ count is_plus ls)
      × (count is_remove (number_lines old new ls) ≡ count is_minus ls)
unfolding number_lines
count-number_lines old new [] = (refl, refl)
count-number_lines old new (l ∷ ls) = ground (
  arith,
  count-number_lines old (suc new) ls,
  count-number_lines (suc old) new ls,
  count-number_lines (suc old) (suc new) ls,
)

shown-number_hunk :
    (hs : List ParsedHunk)
    → (shown is_add (map number_hunk hs) ≡ tally is_plus hs)
      × (shown is_remove (map number_hunk hs) ≡ tally is_minus hs)
unfolding number_hunk
shown-number_hunk [] = (refl, refl)
shown-number_hunk (h ∷ hs) =
    ground (arith, count-number_lines h.old_start h.new_start h.lines, shown-number_hunk hs)

abbrev pub IsCounted : DiffFile → Type 0
IsCounted f = (f.additions ≡ shown is_add f.hunks) × (f.removals ≡ shown is_remove f.hunks)

number_files-IsCounted : (fs : List ParsedFile) → All IsCounted (map number_file fs)
unfolding number_file
number_files-IsCounted [] = tt
number_files-IsCounted (f ∷ fs) =
    (ground (arith, shown-number_hunk f.hunks), number_files-IsCounted fs)

-- In every file of a parsed diff, the counts of additions and removals are the numbers of added and
-- removed lines that its hunks show.
pub parse_patch-IsCounted : (raw : Text) → All IsCounted (parse_patch raw)
unfolding parse_patch
parse_patch-IsCounted raw = number_files-IsCounted (parse_unified_diff raw)
