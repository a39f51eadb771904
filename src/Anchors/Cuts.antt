-- ===== src/Anchors/Cuts.antt =====
-- review-diff-anchor.ts: how a patch is cut into the patches of its files, apart from the code.
use reins.Base.{
  ℕ, ◌≡◌, refl, sym, ap, ◌∙◌, subst, Bool, true, false, ◌&&◌, ◌||◌, Bool-cases, inl, inr, List, [],
  ◌∷◌, ◌++◌, All, flatten, Text, text, starts_with, if_ind, arith,
}
use reins.Patch.Hunks.{is_terminator}
use reins.Anchors.Select.{pieces_from}
use reins.Anchors.Pieces.{IsPatch, pieces_from-IsPatch}

-- Whether a file begins in a text; `at_start` says that a line begins with it.
abbrev begins_file : (at_start : Bool) → Text → Bool
begins_file at_start [] = false
begins_file at_start (c ∷ t) =
    (at_start && starts_with (c ∷ t) (text "diff --git ")) || begins_file (is_terminator c) t

-- A file begins where the text does, and no other one does in it.
abbrev pub IsFilePatch : Text → Type 0
IsFilePatch [] = ⊥
IsFilePatch (c ∷ t) = IsPatch (c ∷ t) × (begins_file (is_terminator c) t ≡ false)

-- The patch of each file, and the text in front of them.
pub record IsCut (patch front : Text) (pieces : List Text) : Type 0 where
  pub whole : front ++ flatten pieces ≡ patch
  pub front_of : begins_file true front ≡ false
  pub files : All IsFilePatch pieces

starts_with-append :
    (a b word : Text) → starts_with a word ≡ true → starts_with (a ++ b) word ≡ true
starts_with-append a b [] h = refl
starts_with-append [] b (w ∷ word) h = absurd (ground (arith, h))
starts_with-append (c ∷ a) b (w ∷ word) h = ground (arith, h, starts_with-append a b word)

pieces_from-whole :
    (at_start : Bool) (t : Text)
    → (pieces_from at_start t).0 ++ flatten (pieces_from at_start t).1 ≡ t
unfolding pieces_from flatten
pieces_from-whole at_start [] = refl
pieces_from-whole at_start (c ∷ t) =
    if_ind {A = Text × List Text} (λ r. r.0 ++ flatten r.1 ≡ c ∷ t)
      (at_start && starts_with (c ∷ t) (text "diff --git "))
      (λ _. ap (◌∷◌ c) (pieces_from-whole (is_terminator c) t))
      (λ _. ap (◌∷◌ c) (pieces_from-whole (is_terminator c) t))

not_begins :
    (at_start : Bool) (c : ℕ) (front behind t : Text)
    → (at_start && starts_with (c ∷ t) (text "diff --git ")) ≡ false
    → front ++ behind ≡ t
    → begins_file (is_terminator c) front ≡ false
    → begins_file at_start (c ∷ front) ≡ false
not_begins at_start c front behind t h e k =
    let long = starts_with-append (c ∷ front) behind (text "diff --git ") in
    elim (Bool-cases (starts_with (c ∷ front) (text "diff --git "))) [
      | inr other ↦
          ap (λ b. (at_start && b) || begins_file (is_terminator c) front) other ∙ ground (arith, k)
      | inl here ↦
          let same : starts_with (c ∷ t) (text "diff --git ") ≡ true =
            subst (λ u. starts_with (c ∷ u) (text "diff --git ") ≡ true) e (long here) in
          ap (λ b. (at_start && b) || begins_file (is_terminator c) front) (here ∙ sym same)
          ∙ ap (λ b. b || begins_file (is_terminator c) front) h
          ∙ k
    ]

pieces_from-front :
    (at_start : Bool) (t : Text) → begins_file at_start (pieces_from at_start t).0 ≡ false
unfolding pieces_from
pieces_from-front at_start [] = refl
pieces_from-front at_start (c ∷ t) =
    if_ind {A = Text × List Text} (λ r. begins_file at_start r.0 ≡ false)
      (at_start && starts_with (c ∷ t) (text "diff --git ")) (λ _. refl)
      (λ no.
        not_begins at_start c (pieces_from (is_terminator c) t).0
          (flatten (pieces_from (is_terminator c) t).1) t no (pieces_from-whole (is_terminator c) t)
          (pieces_from-front (is_terminator c) t))

All-IsFilePatch : (at_start : Bool) (t : Text) → All IsFilePatch (pieces_from at_start t).1
unfolding pieces_from
All-IsFilePatch at_start [] = tt
All-IsFilePatch at_start (c ∷ t) =
    if_ind {A = Text × List Text} (λ r. All IsPatch r.1 → All IsFilePatch r.1)
      (at_start && starts_with (c ∷ t) (text "diff --git "))
      (λ _ all.
        ((all.0, pieces_from-front (is_terminator c) t), All-IsFilePatch (is_terminator c) t))
      (λ _ all. All-IsFilePatch (is_terminator c) t) (pieces_from-IsPatch at_start (c ∷ t))

pub pieces_from-IsCut :
    (patch : Text) → IsCut patch (pieces_from true patch).0 (pieces_from true patch).1
pieces_from-IsCut patch = record {
  whole = pieces_from-whole true patch;
  front_of = pieces_from-front true patch;
  files = All-IsFilePatch true patch;
}
