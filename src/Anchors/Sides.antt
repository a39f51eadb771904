-- ===== src/Anchors/Sides.antt =====
-- review-diff-anchor.ts: which lines a side of a file has, apart from the code.
use reins.Base.{
  ℕ, suc, ◌≡◌, refl, ap, ◌∙◌, subst, Bool, true, false, none, some, Bool-cases, inl, inr, List, [],
  ◌∷◌, ◌++◌, any, map, keep, ◌==◌, arith,
}
use reins.Diff.Unified.{Prefix, plus, minus, space, ParsedLine, ParsedHunk, ParsedFile}
use reins.Diff.Numbering.{number_lines, number_hunk, number_file}
use reins.Review.Model.{Side, old, new, LineKind, addition, deletion}
use reins.Anchors.Select.{NumberedLine, hunk_lines, diff_lines, find_line}

abbrev kind_of : Prefix → LineKind
kind_of plus = addition
kind_of minus = deletion
kind_of space = LineKind.context

-- The old side has the lines that are removed or kept, the new side those that are added or kept.
abbrev is_on : Side → ParsedLine → Bool
is_on old l = elim l.prefix [ plus ↦ false | minus ↦ true | space ↦ true ]
is_on new l = elim l.prefix [ plus ↦ true | minus ↦ false | space ↦ true ]

abbrev start_of : Side → ℕ → ℕ → ℕ
start_of old a b = a
start_of new a b = b

-- The lines with the numbers from `n` on.
abbrev enumerate : ℕ → List ParsedLine → List NumberedLine
enumerate n [] = []
enumerate n (l ∷ ls) =
    record { kind = kind_of l.prefix; text = l.text; line = n } ∷ enumerate (suc n) ls

-- The lines of a side: those of each hunk, counted from the start in its header.
abbrev pub lines_on : Side → List ParsedHunk → List NumberedLine
lines_on side [] = []
lines_on side (h ∷ hunks) =
    enumerate (start_of side h.old_start h.new_start) (keep (is_on side) h.lines)
    ++ lines_on side hunks

hunk_lines-enumerate :
    (side : Side) (a b : ℕ) (ls : List ParsedLine)
    → hunk_lines side (number_lines a b ls) ≡ enumerate (start_of side a b) (keep (is_on side) ls)
unfolding number_lines
hunk_lines-enumerate side a b [] = refl
hunk_lines-enumerate old a b (l ∷ ls) = ground (
  arith,
  hunk_lines-enumerate old a (suc b) ls,
  hunk_lines-enumerate old (suc a) b ls,
  hunk_lines-enumerate old (suc a) (suc b) ls,
)
hunk_lines-enumerate new a b (l ∷ ls) = ground (
  arith,
  hunk_lines-enumerate new a (suc b) ls,
  hunk_lines-enumerate new (suc a) b ls,
  hunk_lines-enumerate new (suc a) (suc b) ls,
)

diff_lines-lines_on :
    (side : Side) (hunks : List ParsedHunk)
    → diff_lines side (map number_hunk hunks) ≡ lines_on side hunks
unfolding diff_lines number_hunk
diff_lines-lines_on side [] = refl
diff_lines-lines_on side (h ∷ hunks) =
    ap (λ t. t ++ diff_lines side (map number_hunk hunks))
      (hunk_lines-enumerate side h.old_start h.new_start h.lines)
    ∙ ap (λ t. enumerate (start_of side h.old_start h.new_start) (keep (is_on side) h.lines) ++ t)
        (diff_lines-lines_on side hunks)

abbrev pub has_line : ℕ → List NumberedLine → Bool
has_line n ls = any (λ l. l.line == n) ls

-- The first line with a number.
abbrev pub IsLine : ℕ → NumberedLine → List NumberedLine → Type 0
IsLine n l ls =
    (front : List NumberedLine) × (back : List NumberedLine) × (ls ≡ front ++ l ∷ back)
    × ((l.line == n) ≡ true)
    × (has_line n front ≡ false)

find_line-here :
    (n : ℕ) (x l : NumberedLine) (ls : List NumberedLine)
    → (x.line == n) ≡ true
    → find_line n (x ∷ ls) ≡ some l
    → x ≡ l
unfolding find_line
find_line-here n x l ls e h = ground (arith, e, h)

pub find_line-IsLine :
    (n : ℕ) (l : NumberedLine) (ls : List NumberedLine) → find_line n ls ≡ some l → IsLine n l ls
unfolding find_line
find_line-IsLine n l [] h = absurd (ground (arith, h))
find_line-IsLine n l (x ∷ ls) h = elim (Bool-cases (x.line == n)) [
  | inl e ↦
      let same = find_line-here n x l ls e h in
      ([], ls, ap (λ y. y ∷ ls) same, subst (λ y. (y.line == n) ≡ true) same e, refl)
  | inr e ↦
      let (front, back, same, at, before) = find_line-IsLine n l ls (ground (arith, e, h)) in
      (x ∷ front, back, ap (◌∷◌ x) same, at, ground (arith, e, before))
]

pub find_line-none :
    (n : ℕ) (ls : List NumberedLine) → find_line n ls ≡ none → has_line n ls ≡ false
unfolding find_line
find_line-none n [] h = refl
find_line-none n (x ∷ ls) h = ground (arith, h, find_line-none n ls)

pub number_file-lines :
    (side : Side) (f : ParsedFile) → diff_lines side (number_file f).hunks ≡ lines_on side f.hunks
unfolding number_file
number_file-lines side f = diff_lines-lines_on side f.hunks
