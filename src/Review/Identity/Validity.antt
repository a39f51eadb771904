-- ===== src/Review/Identity/Validity.antt =====
-- code-review.ts: an invariant of reviews: ids and source keys stand once, anchors are valid, annotations hold entries.
use reins.Base.{
  ℕ, ◌+◌, ◌≤◌, ◌<◌, ◌≡◌, Bool, none, List, [], ◌∷◌, ◌++◌, Text, text_eq, arith, length, count, All,
}
use reins.Review.Model.{Entry, Annotation, has_key}
use reins.Review.Operations.{anchor_error}

-- How many entries of a review pass a test.
abbrev pub total : (Entry → Bool) → List Annotation → ℕ
total p [] = 0
total p (a ∷ xs) = count p a.entries + total p xs

abbrev pub with_id : Text → Entry → Bool
with_id id e = text_eq e.id id

abbrev pub with_key : Text → Entry → Bool
with_key key e = has_key key e.source_key

abbrev pub annotation_with : Text → Annotation → Bool
annotation_with id a = text_eq a.id id

abbrev pub IsSound : Annotation → Type 0
IsSound a = (anchor_error a.anchor ≡ none) × (0 < length a.entries)

pub record IsValid (xs : List Annotation) : Type 0 where
  pub entry_ids : (id : Text) → total (with_id id) xs ≤ 1
  pub source_keys : (key : Text) → total (with_key key) xs ≤ 1
  pub annotation_ids : (id : Text) → count (annotation_with id) xs ≤ 1
  pub sound : All IsSound xs

pub total-append :
    (p : Entry → Bool) (xs ys : List Annotation) → total p (xs ++ ys) ≡ total p xs + total p ys
total-append p [] ys = omega arith
total-append p (a ∷ xs) ys = omega (arith, total-append p xs ys)
