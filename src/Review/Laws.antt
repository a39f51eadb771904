-- ===== src/Review/Laws.antt =====
-- code-review.ts: a deletion undoes an addition or a reply, and an import may be repeated.
use reins.Base.{
  ◌≡◌, refl, true, false, not, none, some, List, [], ◌∷◌, ◌++◌, Text, text_eq, text_eq_refl, arith,
  any, keep, count, All, Option-cases, Bool-cases, inl, inr,
}
use reins.Review.Model.{Anchor, Entry, Annotation, NewAnnotation, Review, ok}
use reins.Review.Operations.{
  find_identity_collision, add_annotation, refresh_entries, refresh, has_source_key, upsert_under,
  upsert_annotation, push_reply, add_reply, without_entry, drop_entry, delete_comment,
}
use reins.Review.Identity.Validity.{total, with_id, with_key, IsSound, IsValid}
use reins.Review.Identity.Additions.{free_ids}

keep_none :
    (id : Text) (es : List Entry)
    → count (with_id id) es ≡ 0
    → keep (λ e. not (text_eq e.id id)) es ≡ es
keep_none id [] h = refl
keep_none id (e ∷ es) h = ground (arith, keep_none id es)

any-of_count :
    (id : Text) (es : List Entry) → count (with_id id) es ≡ 0 → any (with_id id) es ≡ false
any-of_count id [] h = refl
any-of_count id (e ∷ es) h = ground (arith, any-of_count id es)

any-append_entry : (e : Entry) (es : List Entry) → any (with_id e.id) (es ++ e ∷ []) ≡ true
any-append_entry e [] = ground (arith, text_eq_refl e.id)
any-append_entry e (x ∷ es) = ground (arith, any-append_entry e es)

keep-append_entry :
    (e : Entry) (es : List Entry)
    → count (with_id e.id) es ≡ 0
    → keep (λ x. not (text_eq x.id e.id)) (es ++ e ∷ []) ≡ es
keep-append_entry e [] h = ground (arith, text_eq_refl e.id)
keep-append_entry e (x ∷ es) h = ground (arith, keep-append_entry e es)

drop_entry-added :
    (xs : List Annotation) (id : Text) (anchor : Anchor) (e : Entry)
    → total (with_id e.id) xs ≡ 0
    → drop_entry e.id (xs ++ record { id = id; anchor = anchor; entries = e ∷ [] } ∷ []) ≡ some xs
unfolding drop_entry without_entry
drop_entry-added [] id anchor e h = ground (arith, text_eq_refl e.id)
drop_entry-added (a ∷ xs) id anchor e h =
    ground (arith, any-of_count e.id a.entries, drop_entry-added xs id anchor e)

-- Deleting the comment of an annotation that was just added gives back the review as it was.
pub delete_comment-add_annotation :
    (r s : Review) (input : NewAnnotation)
    → add_annotation r input ≡ ok s
    → delete_comment s input.entry.id ≡ ok r
unfolding add_annotation delete_comment
delete_comment-add_annotation r s input h =
    elim (Option-cases (find_identity_collision (some input.id) input.entry r.annotations)) [
      | inr (hit, e) ↦ absurd (ground arith)
      | inl free ↦ ground (
        arith,
        drop_entry-added r.annotations input.id input.anchor input.entry,
        free_ids input.entry (some input.id) r.annotations free,
      )
    ]

drop_entry-push_reply :
    (id : Text) (e : Entry) (xs ys : List Annotation)
    → total (with_id e.id) xs ≡ 0
    → All IsSound xs
    → push_reply id e xs ≡ some ys
    → drop_entry e.id ys ≡ some xs
unfolding push_reply drop_entry without_entry
drop_entry-push_reply id e [] ys h s p = cc
drop_entry-push_reply id e (a ∷ xs) ys h s p = elim (Option-cases (push_reply id e xs)) [
  | inl q ↦ ground (arith, any-append_entry e a.entries, keep-append_entry e a.entries)
  | inr (zs, q) ↦ ground (
    arith,
    any-append_entry e a.entries,
    keep-append_entry e a.entries,
    any-of_count e.id a.entries,
    drop_entry-push_reply id e xs zs,
  )
]

-- On a review whose annotations are sound, deleting a reply that was just added gives back the review
-- as it was.
pub delete_comment-add_reply :
    (r s : Review) (id : Text) (e : Entry)
    → IsValid r.annotations
    → add_reply r id e ≡ ok s
    → delete_comment s e.id ≡ ok r
unfolding add_reply delete_comment
delete_comment-add_reply r s id e v h =
    elim (Option-cases (find_identity_collision none e r.annotations)) [
      | inr (hit, q) ↦ absurd (ground arith)
      | inl free ↦ elim (Option-cases (push_reply id e r.annotations)) [
        | inl q ↦ absurd (ground arith)
        | inr (ys, q) ↦ ground (
          arith,
          drop_entry-push_reply id e r.annotations ys (free_ids e none r.annotations free) v.sound
              q,
        )
      ]
    ]

refresh_entries_twice :
    (key : Text) (input : Entry) (es : List Entry)
    → refresh_entries key input (refresh_entries key input es) ≡ refresh_entries key input es
unfolding refresh_entries
refresh_entries_twice key input [] = refl
refresh_entries_twice key input (e ∷ es) = ground (arith, refresh_entries_twice key input es)

any-refresh_entries :
    (key : Text) (input : Entry) (es : List Entry)
    → any (with_key key) (refresh_entries key input es) ≡ any (with_key key) es
unfolding refresh_entries
any-refresh_entries key input [] = refl
any-refresh_entries key input (e ∷ es) = ground (arith, any-refresh_entries key input es)

refresh_twice :
    (key : Text) (input : Entry) (xs : List Annotation)
    → refresh key input (refresh key input xs) ≡ refresh key input xs
unfolding refresh
refresh_twice key input [] = refl
refresh_twice key input (a ∷ xs) = ground (
  arith,
  any-refresh_entries key input a.entries,
  refresh_entries_twice key input a.entries,
  refresh_twice key input xs,
)

has_source_key-refresh :
    (key : Text) (input : Entry) (xs : List Annotation)
    → has_source_key key (refresh key input xs) ≡ has_source_key key xs
unfolding has_source_key refresh
has_source_key-refresh key input [] = refl
has_source_key-refresh key input (a ∷ xs) =
    ground (arith, any-refresh_entries key input a.entries, has_source_key-refresh key input xs)

module _ (key : Text) (id : Text) (anchor : Anchor) (e : Entry)
    (keyed : e.source_key ≡ some key) where
  abbrev added : Annotation
  added = record { id = id; anchor = anchor; entries = e ∷ [] }

  has_source_key-added : (xs : List Annotation) → has_source_key key (xs ++ added ∷ []) ≡ true
  unfolding has_source_key
  has_source_key-added [] = rw keyed (ground (arith, text_eq_refl key))
  has_source_key-added (a ∷ xs) = ground (arith, has_source_key-added xs)

  refresh-added :
      (xs : List Annotation)
      → has_source_key key xs ≡ false
      → refresh key e (xs ++ added ∷ []) ≡ xs ++ added ∷ []
  unfolding has_source_key refresh refresh_entries
  refresh-added [] h = ground (arith, keyed, text_eq_refl key)
  refresh-added (a ∷ xs) h = ground (arith, refresh-added xs)

upsert_under_twice :
    (key : Text) (r s : Review) (input : NewAnnotation)
    → input.entry.source_key ≡ some key
    → upsert_under key r input ≡ ok s
    → upsert_under key s input ≡ ok s
unfolding upsert_under
upsert_under_twice key r s input keyed h = elim (Bool-cases (has_source_key key r.annotations)) [
  | inl there ↦ ground (
    arith,
    has_source_key-refresh key input.entry r.annotations,
    refresh_twice key input.entry r.annotations,
  )
  | inr new ↦
      unfold add_annotation in
      ground (
        arith,
        has_source_key-added key input.id input.anchor input.entry keyed r.annotations,
        refresh-added key input.id input.anchor input.entry keyed r.annotations new,
      )
]

-- An import that succeeded may be repeated: it succeeds again and changes nothing more.
pub upsert_annotation_twice :
    (r s : Review) (input : NewAnnotation)
    → upsert_annotation r input ≡ ok s
    → upsert_annotation s input ≡ ok s
unfolding upsert_annotation
upsert_annotation_twice r s input h = elim (Option-cases input.entry.source_key) [
  | inl e ↦ absurd (ground arith)
  | inr (key, e) ↦
      rw (e, upsert_annotation)
        (upsert_under_twice key r s input e (rw (e, upsert_annotation) at h))
]
