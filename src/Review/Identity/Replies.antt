-- ===== src/Review/Identity/Replies.antt =====
-- code-review.ts: `addReply` keeps a review valid.
use reins.Base.{
  ◌+◌, ◌≡◌, Bool, none, some, List, [], ◌∷◌, Text, text_eq, arith, count, count-append, All,
  length-append, Option-cases, Bool-cases, inl, inr,
}
use reins.Review.Model.{Entry, Annotation, Review}
use reins.Review.Operations.{find_identity_collision, push_reply, add_reply, after}
use reins.Review.Identity.Validity.{total, with_id, with_key, annotation_with, IsSound, IsValid}
use reins.Review.Identity.Additions.{free_ids, free_source_keys, one_more_id, one_more_key}

-- A reply adds one entry to one annotation.
module _ (id : Text) (entry : Entry) where
  total-push_reply :
      (p : Entry → Bool) (xs ys : List Annotation)
      → push_reply id entry xs ≡ some ys
      → total p ys ≡ total p xs + count p (entry ∷ [])
  unfolding push_reply
  total-push_reply p [] ys h = cc
  total-push_reply p (a ∷ xs) ys h = elim (Bool-cases (text_eq a.id id)) [
    | inl here ↦ ground (arith, count-append p a.entries (entry ∷ []))
    | inr later ↦ elim (Option-cases (push_reply id entry xs)) [
      | inl e ↦ ground arith
      | inr (zs, e) ↦ ground (arith, total-push_reply p xs zs e)
    ]
  ]

  count-push_reply :
      (k : Text) (xs ys : List Annotation)
      → push_reply id entry xs ≡ some ys
      → count (annotation_with k) ys ≡ count (annotation_with k) xs
  unfolding push_reply
  count-push_reply k [] ys h = cc
  count-push_reply k (a ∷ xs) ys h = elim (Option-cases (push_reply id entry xs)) [
    | inl e ↦ ground arith
    | inr (zs, e) ↦ ground (arith, count-push_reply k xs zs e)
  ]

  push_reply-IsSound :
      (xs ys : List Annotation) → push_reply id entry xs ≡ some ys → All IsSound xs → All IsSound ys
  unfolding push_reply
  push_reply-IsSound [] ys h s = cc
  push_reply-IsSound (a ∷ xs) ys h s = elim (Option-cases (push_reply id entry xs)) [
    | inl e ↦ ground (arith, length-append a.entries (entry ∷ []))
    | inr (zs, e) ↦
        ground (arith, length-append a.entries (entry ∷ []), push_reply-IsSound xs zs e s.1)
  ]

pub add_reply-IsValid :
    (r : Review) (id : Text) (entry : Entry)
    → IsValid r.annotations
    → IsValid (after r (add_reply r id entry)).annotations
unfolding add_reply
add_reply-IsValid r id entry v =
    elim (Option-cases (find_identity_collision none entry r.annotations)) [
      | inr (hit, e) ↦ rw (e, add_reply) v
      | inl free ↦ elim (Option-cases (push_reply id entry r.annotations)) [
        | inl e ↦ rw (free, e, add_reply) v
        | inr (ys, e) ↦
            rw (free, e, add_reply)
              (record {
                entry_ids = λ k. rw (total-push_reply id entry (with_id k) r.annotations ys e) (
                    one_more_id entry (total (with_id k) r.annotations) k (v.entry_ids k)
                      (λ q. rw (← q) (free_ids entry none r.annotations free)));
                source_keys = λ k. rw (total-push_reply id entry (with_key k) r.annotations ys e) (
                    one_more_key entry (total (with_key k) r.annotations) k (v.source_keys k)
                      (λ q. free_source_keys entry none k r.annotations q free));
                annotation_ids =
                    λ k. rw (count-push_reply id entry k r.annotations ys e) (v.annotation_ids k);
                sound = push_reply-IsSound id entry r.annotations ys e v.sound;
              })
      ]
    ]
