-- ===== src/Review/Identity/Imports.antt =====
-- code-review.ts: `upsertAnnotation` keeps a review valid.
use reins.Base.{
  ◌≡◌, refl, List, [], ◌∷◌, Text, arith, length, count, All, Option-cases, Bool-cases, inl, inr,
}
use reins.Review.Model.{Entry, Annotation, NewAnnotation, Review}
use reins.Review.Operations.{
  refresh_entries, refresh, has_source_key, upsert_under, upsert_annotation, after,
}
use reins.Review.Identity.Validity.{total, with_id, with_key, annotation_with, IsSound, IsValid}
use reins.Review.Identity.Additions.{add_annotation-IsValid}

-- A refreshed entry keeps its id and its source key.
module _ (key : Text) (input : Entry) where
  count-refresh_id :
      (id : Text) (es : List Entry)
      → count (with_id id) (refresh_entries key input es) ≡ count (with_id id) es
  unfolding refresh_entries
  count-refresh_id id [] = refl
  count-refresh_id id (e ∷ es) = ground (arith, count-refresh_id id es)

  count-refresh_key :
      (k : Text) (es : List Entry)
      → count (with_key k) (refresh_entries key input es) ≡ count (with_key k) es
  unfolding refresh_entries
  count-refresh_key k [] = refl
  count-refresh_key k (e ∷ es) = ground (arith, count-refresh_key k es)

  length-refresh_entries : (es : List Entry) → length (refresh_entries key input es) ≡ length es
  unfolding refresh_entries
  length-refresh_entries [] = refl
  length-refresh_entries (e ∷ es) = ground (arith, length-refresh_entries es)

  total-refresh_id :
      (id : Text) (xs : List Annotation)
      → total (with_id id) (refresh key input xs) ≡ total (with_id id) xs
  unfolding refresh
  total-refresh_id id [] = refl
  total-refresh_id id (a ∷ xs) =
      ground (arith, count-refresh_id id a.entries, total-refresh_id id xs)

  total-refresh_key :
      (k : Text) (xs : List Annotation)
      → total (with_key k) (refresh key input xs) ≡ total (with_key k) xs
  unfolding refresh
  total-refresh_key k [] = refl
  total-refresh_key k (a ∷ xs) =
      ground (arith, count-refresh_key k a.entries, total-refresh_key k xs)

  count-refresh :
      (id : Text) (xs : List Annotation)
      → count (annotation_with id) (refresh key input xs) ≡ count (annotation_with id) xs
  unfolding refresh
  count-refresh id [] = refl
  count-refresh id (a ∷ xs) = ground (arith, count-refresh id xs)

  refresh-IsSound : (xs : List Annotation) → All IsSound xs → All IsSound (refresh key input xs)
  unfolding refresh
  refresh-IsSound [] h = tt
  refresh-IsSound (a ∷ xs) h =
      ground (arith, length-refresh_entries a.entries, refresh-IsSound xs h.1)

  refresh-IsValid : (xs : List Annotation) → IsValid xs → IsValid (refresh key input xs)
  refresh-IsValid xs v = record {
    entry_ids = λ id. rw (total-refresh_id id xs) (v.entry_ids id);
    source_keys = λ k. rw (total-refresh_key k xs) (v.source_keys k);
    annotation_ids = λ id. rw (count-refresh id xs) (v.annotation_ids id);
    sound = refresh-IsSound xs v.sound;
  }

pub upsert_annotation-IsValid :
    (r : Review) (input : NewAnnotation)
    → IsValid r.annotations
    → IsValid (after r (upsert_annotation r input)).annotations
unfolding upsert_annotation upsert_under
upsert_annotation-IsValid r input v = elim (Option-cases input.entry.source_key) [
  | inl e ↦ rw (e, upsert_annotation) v
  | inr (key, e) ↦
      rw (e, upsert_annotation)
        (elim (Bool-cases (has_source_key key r.annotations)) [
          | inl there ↦ rw there (refresh-IsValid key input.entry r.annotations v)
          | inr new ↦ rw new (add_annotation-IsValid r input v)
        ])
]
