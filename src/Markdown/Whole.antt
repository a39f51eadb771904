-- ===== src/Markdown/Whole.antt =====
-- streaming-markdown.ts: the scan of a whole text, and one that starts again at a boundary.
use reins.Base.{
  ℕ, suc, ◌≡◌, ◌⊎◌, inl, inr, refl, sym, subst, Bool, true, false, not, some, Option-cases, [], ◌∷◌,
  ◌++◌, Text, starts_with, length, drop, drop-append_length, arith,
}
use reins.Markdown.Scan.{Scanned, fresh, read_line, scan_lines, scan_settled_markdown}
use reins.Markdown.Restart.{Place, begin, after, longer_place, next_place, scan_lines-append}

-- Equal, or neither can be split.
abbrev pub Agree : Scanned → Scanned → Type 0
Agree a b = (a ≡ b) ⊎ ((a.splittable ≡ false) × (b.splittable ≡ false))

-- The scan does not read where it began, but to give it back when the text cannot be split.
scan_lines-from :
    (m n : ℕ) (p : Place) (t : Text)
    → Agree
        (scan_lines m p.scanner p.position p.part t)
        (scan_lines n p.scanner p.position p.part t)
unfolding scan_lines
scan_lines-from m n p [] = ground arith
scan_lines-from m n p (c ∷ t) = elim (Option-cases (read_line p.scanner p.part (suc p.position))) [
  | inl q ↦ ground (arith, q, scan_lines-from m n (longer_place p c) t)
  | inr (s, q) ↦
      ground
        (arith, q, scan_lines-from m n (next_place p s) t, scan_lines-from m n (longer_place p c) t)
]

-- A text that begins with another is that and the rest.
pub starts_with-append : (t s : Text) → starts_with t s ≡ true → t ≡ s ++ drop (length s) t
starts_with-append t [] h = refl
starts_with-append [] (c ∷ s) h = absurd (ground (arith, h))
starts_with-append (d ∷ t) (c ∷ s) h = ground (arith, h, starts_with-append t s)

-- The scan of a whole text, and the one that starts again behind a settled part.
pub restart :
    (t v : Text) (s : Text)
    → t ≡ s ++ v
    → after (begin 0) s ≡ some (begin (length s))
    → Agree (scan_settled_markdown t 0) (scan_settled_markdown t (length s))
unfolding scan_settled_markdown
restart t v s e h =
    subst
      (λ u.
        Agree (scan_lines 0 (fresh 0) 0 [] u)
          (scan_lines (length s) (fresh (length s)) (length s) [] (drop (length s) u)))
      (sym e)
      (rw (scan_lines-append 0 (begin 0) s v, h, drop-append_length s v)
        (scan_lines-from 0 (length s) (begin (length s)) v))

abbrev pub is_unsplittable : Text → Bool
is_unsplittable t = not (scan_settled_markdown t 0).splittable
