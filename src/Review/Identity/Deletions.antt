-- ===== src/Review/Identity/Deletions.antt =====
-- code-review.ts: `deleteComment` keeps a review valid.
use reins.Base.{
  ◌≤◌, ◌≡◌, Bool, not, some, List, [], ◌∷◌, Text, text_eq, arith, count, count-keep-le, All,
  Option-cases, inl, inr,
}
use reins.Review.Model.{Entry, Annotation, Review}
use reins.Review.Operations.{without_entry, drop_entry, delete_comment, after}
use reins.Review.Identity.Validity.{total, with_id, with_key, annotation_with, IsSound, IsValid}

-- A deletion takes entries out, and an annotation that is left empty.
module _ (id : Text) where
  total-drop_entry :
      (p : Entry → Bool) (xs ys : List Annotation)
      → drop_entry id xs ≡ some ys
      → total p ys ≤ total p xs
  unfolding drop_entry without_entry
  total-drop_entry p [] ys h = cc
  total-drop_entry p (a ∷ xs) ys h = elim (Option-cases (drop_entry id xs)) [
    | inl e ↦ ground (arith, count-keep-le p (λ (e : Entry). not (text_eq e.id id)) a.entries)
    | inr (zs, e) ↦ ground (
      arith,
      count-keep-le p (λ (e : Entry). not (text_eq e.id id)) a.entries,
      total-drop_entry p xs zs e,
    )
  ]

  count-drop_entry :
      (k : Text) (xs ys : List Annotation)
      → drop_entry id xs ≡ some ys
      → count (annotation_with k) ys ≤ count (annotation_with k) xs
  unfolding drop_entry without_entry
  count-drop_entry k [] ys h = cc
  count-drop_entry k (a ∷ xs) ys h = elim (Option-cases (drop_entry id xs)) [
    | inl e ↦ ground arith
    | inr (zs, e) ↦ ground (arith, count-drop_entry k xs zs e)
  ]

  drop_entry-IsSound :
      (xs ys : List Annotation) → drop_entry id xs ≡ some ys → All IsSound xs → All IsSound ys
  unfolding drop_entry without_entry
  drop_entry-IsSound [] ys h s = cc
  drop_entry-IsSound (a ∷ xs) ys h s = elim (Option-cases (drop_entry id xs)) [
    | inl e ↦ ground arith
    | inr (zs, e) ↦ ground (arith, drop_entry-IsSound xs zs e s.1)
  ]

pub delete_comment-IsValid :
    (r : Review) (id : Text)
    → IsValid r.annotations
    → IsValid (after r (delete_comment r id)).annotations
unfolding delete_comment
delete_comment-IsValid r id v = elim (Option-cases (drop_entry id r.annotations)) [
  | inl e ↦ rw (e, delete_comment) v
  | inr (ys, e) ↦
      rw (e, delete_comment)
        (record {
          entry_ids =
              λ k. omega (arith, total-drop_entry id (with_id k) r.annotations ys e, v.entry_ids k);
          source_keys = λ k.
              omega (arith, total-drop_entry id (with_key k) r.annotations ys e, v.source_keys k);
          annotation_ids =
              λ k. omega (arith, count-drop_entry id k r.annotations ys e, v.annotation_ids k);
          sound = drop_entry-IsSound id r.annotations ys e v.sound;
        })
]
