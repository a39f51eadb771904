-- ===== src/Review/Identity/Additions.antt =====
-- code-review.ts: `addAnnotation` keeps a review valid.
use reins.Base.{
  ℕ, ◌+◌, ◌≤◌, ◌≡◌, refl, false, Option, none, some, List, [], ◌∷◌, ◌++◌, Text, text_eq, text_eq→eq,
  arith, any, count, count-append, All-append, Option-cases, Bool-cases, inl, inr, ◌∙◌, ap,
}
use reins.Review.Model.{Entry, Annotation, NewAnnotation, Review}
use reins.Review.Operations.{anchor_error, collides, find_identity_collision, add_annotation, after}
use reins.Review.Identity.Validity.{
  total, with_id, with_key, annotation_with, IsSound, IsValid, total-append,
}

-- No annotation collides: the counts under the new identity are 0.
module _ (entry : Entry) where
  pub free_entries :
      (es : List Entry) → any (collides entry) es ≡ false → count (with_id entry.id) es ≡ 0
  free_entries [] h = refl
  free_entries (e ∷ es) h = ground (arith, free_entries es)

  free_keys :
      (key : Text) (es : List Entry)
      → entry.source_key ≡ some key
      → any (collides entry) es ≡ false
      → count (with_key key) es ≡ 0
  free_keys key [] k h = refl
  free_keys key (e ∷ es) k h = ground (arith, free_keys key es k)

  pub free_ids :
      (id : Option Text) (xs : List Annotation)
      → find_identity_collision id entry xs ≡ none
      → total (with_id entry.id) xs ≡ 0
  unfolding find_identity_collision
  free_ids id [] h = refl
  free_ids id (a ∷ xs) h = ground (arith, free_entries a.entries, free_ids id xs)

  pub free_source_keys :
      (id : Option Text) (key : Text) (xs : List Annotation)
      → entry.source_key ≡ some key
      → find_identity_collision id entry xs ≡ none
      → total (with_key key) xs ≡ 0
  unfolding find_identity_collision
  free_source_keys id key [] k h = refl
  free_source_keys id key (a ∷ xs) k h =
      ground (arith, free_keys key a.entries k, free_source_keys id key xs k)

  free_annotation_ids :
      (id : Text) (xs : List Annotation)
      → find_identity_collision (some id) entry xs ≡ none
      → count (annotation_with id) xs ≡ 0
  unfolding find_identity_collision
  free_annotation_ids id [] h = refl
  free_annotation_ids id (a ∷ xs) h = ground (arith, free_annotation_ids id xs)

  -- One more entry keeps the ids and the source keys unique, if its identity is free.
  pub one_more_id :
      (n : ℕ) (id : Text)
      → n ≤ 1
      → (entry.id ≡ id → n ≡ 0)
      → n + count (with_id id) (entry ∷ []) ≤ 1
  one_more_id n id h f = elim (Bool-cases (text_eq entry.id id)) [
    | inl same ↦ rw same (omega (arith, f (text_eq→eq entry.id id same)))
    | inr other ↦ rw other (omega arith)
  ]

  pub one_more_key :
      (n : ℕ) (key : Text)
      → n ≤ 1
      → (entry.source_key ≡ some key → n ≡ 0)
      → n + count (with_key key) (entry ∷ []) ≤ 1
  one_more_key n key h f = elim (Option-cases entry.source_key) [
    | inl none_there ↦ rw none_there (omega arith)
    | inr (k, e) ↦ elim (Bool-cases (text_eq k key)) [
      | inl same ↦ rw (e, same) (omega (arith, f (e ∙ ap some (text_eq→eq k key same))))
      | inr other ↦ rw (e, other) (omega arith)
    ]
  ]

added :
    (xs : List Annotation) (input : NewAnnotation)
    → anchor_error input.anchor ≡ none
    → find_identity_collision (some input.id) input.entry xs ≡ none
    → IsValid xs
    → IsValid
        (xs ++ record { id = input.id; anchor = input.anchor; entries = input.entry ∷ [] } ∷ [])
added xs input fine free v =
    let new : Annotation = record {
      id = input.id;
      anchor = input.anchor;
      entries = input.entry ∷ [];
    } in
    record {
      entry_ids = λ id. rw (total-append (with_id id) xs (new ∷ [])) (
          omega (
            arith,
            one_more_id input.entry (total (with_id id) xs) id (v.entry_ids id)
                (λ e. rw (← e) (free_ids input.entry (some input.id) xs free)),
          ));
      source_keys = λ key. rw (total-append (with_key key) xs (new ∷ [])) (
          omega (
            arith,
            one_more_key input.entry (total (with_key key) xs) key (v.source_keys key)
                (λ e. free_source_keys input.entry (some input.id) key xs e free),
          ));
      annotation_ids = λ id.
          rw (count-append (annotation_with id) xs (new ∷ []))
            (elim (Bool-cases (text_eq input.id id)) [
              | inl same ↦
                  rw (same, ← text_eq→eq input.id id same)
                    (omega (arith, free_annotation_ids input.entry input.id xs free))
              | inr other ↦ rw other (omega (arith, v.annotation_ids id))
            ]);
      sound = All-append IsSound xs (new ∷ []) v.sound ((fine, omega arith), tt);
    }

pub add_annotation-IsValid :
    (r : Review) (input : NewAnnotation)
    → IsValid r.annotations
    → IsValid (after r (add_annotation r input)).annotations
unfolding add_annotation
add_annotation-IsValid r input v = elim (Option-cases (anchor_error input.anchor)) [
  | inr (message, e) ↦ rw (e, add_annotation) v
  | inl fine ↦
      elim (Option-cases (find_identity_collision (some input.id) input.entry r.annotations)) [
        | inr (hit, e) ↦ rw (fine, e, add_annotation) v
        | inl free ↦ rw (fine, free, add_annotation) (added r.annotations input fine free v)
      ]
]
