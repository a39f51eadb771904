-- ===== src/Anchors/Pieces.antt =====
-- review-diff-anchor.ts: the patches of the files in a patch.
use reins.Base.{
  ℕ, ◌≡◌, refl, subst, Bool, true, false, ◌&&◌, some, Option-cases, Bool-cases, inl, inr, List, [],
  ◌∷◌, All, any, Text, text, text_eq, text_eq→eq, starts_with, if_ind, arith,
}
use reins.Patch.Hunks.{is_terminator}
use reins.Diff.Numbering.{DiffFile, parse_patch}
use reins.Anchors.Select.{pieces_from, first_of, find_piece}

-- The text before a piece goes on as long as no line ends.
front-starts_with :
    (t word : Text)
    → starts_with t word ≡ true
    → any is_terminator word ≡ false
    → starts_with (pieces_from false t).0 word ≡ true
unfolding pieces_from
front-starts_with t [] h k = refl
front-starts_with [] (w ∷ word) h k = absurd (ground (arith, h))
front-starts_with (c ∷ t) (w ∷ word) h k = ground (arith, h, k, front-starts_with t word)

front-starts_with_line :
    (c : ℕ) (t : Text) (w : ℕ) (word : Text)
    → starts_with (c ∷ t) (w ∷ word) ≡ true
    → any is_terminator (w ∷ word) ≡ false
    → starts_with (c ∷ (pieces_from (is_terminator c) t).0) (w ∷ word) ≡ true
front-starts_with_line c t w word h k = ground (arith, h, k, front-starts_with t word)

abbrev pub IsPatch : Text → Type 0
IsPatch p = starts_with p (text "diff --git ") ≡ true

and_right : (a b : Bool) → (a && b) ≡ true → b ≡ true
and_right a b h = ground (arith, h)

-- Every piece begins with the word.
pub pieces_from-IsPatch : (at_start : Bool) (t : Text) → All IsPatch (pieces_from at_start t).1
unfolding pieces_from
pieces_from-IsPatch at_start [] = tt
pieces_from-IsPatch at_start (c ∷ t) =
    if_ind {A = Text × List Text} (λ r. All IsPatch r.1)
      (at_start && starts_with (c ∷ t) (text "diff --git "))
      (λ yes. (
        front-starts_with_line c t b'd' (text "iff --git ") (and_right at_start _ yes) refl,
        pieces_from-IsPatch (is_terminator c) t,
      ))
      (λ no. pieces_from-IsPatch (is_terminator c) t)

found_of :
    (q path : Text) (pieces : List Text) (p : Text) (d diff : DiffFile)
    → first_of (parse_patch q) ≡ some d
    → text_eq d.path path ≡ true
    → find_piece path (q ∷ pieces) ≡ some (p, diff)
    → Path (Text × DiffFile) (q, d) (p, diff)
unfolding find_piece
found_of q path pieces p d diff e y h = ground (arith, e, y, h)

pub find_piece-IsPatch :
    (path : Text) (pieces : List Text) (p : Text) (diff : DiffFile)
    → All IsPatch pieces
    → find_piece path pieces ≡ some (p, diff)
    → IsPatch p × (first_of (parse_patch p) ≡ some diff) × (diff.path ≡ path)
unfolding find_piece
find_piece-IsPatch path [] p diff a h = absurd (ground (arith, h))
find_piece-IsPatch path (q ∷ pieces) p diff a h = elim (Option-cases (first_of (parse_patch q))) [
  | inl e ↦ find_piece-IsPatch path pieces p diff a.1 (ground (arith, e, h))
  | inr (d, e) ↦ elim (Bool-cases (text_eq d.path path)) [
    | inr n ↦ find_piece-IsPatch path pieces p diff a.1 (ground (arith, e, n, h))
    | inl y ↦
        subst (λ r. IsPatch r.0 × (first_of (parse_patch r.0) ≡ some r.1) × (r.1.path ≡ path))
          (found_of q path pieces p d diff e y h) (a.0, e, text_eq→eq d.path path y)
  ]
]
