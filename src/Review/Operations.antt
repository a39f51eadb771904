-- ===== src/Review/Operations.antt =====
-- code-review.ts: the methods of `CodeReview`. Each returns the review that it leaves, or its error;
-- a method that throws has changed nothing.
use reins.Base.{
  ℕ, Bool, false, ◌||◌, not, Option, none, some, List, [], ◌∷◌, ◌++◌, Text, text, text_eq,
  starts_with, ltb, ◌==◌, if◌then◌else◌, length, any, keep, find,
}
use reins.Review.Model.{
  Anchor, Entry, Annotation, NewAnnotation, Review, invalid, not_found, conflict, Result, ok, err,
  has_key, shares_key,
}

abbrev pub is_break : ℕ → Bool
is_break c = c == 10 || c == 13

-- `ensureValidAnchor`: the error, if any.
unfoldable pub anchor_error : Anchor → Option Text
anchor_error anchor =
    if ltb anchor.start_line 1 || length anchor.lines == 0
    then some (text "Review annotation diff selection is invalid")
    else if any (λ line. any is_break line.text) anchor.lines
    then some (text "Review annotation diff line text is invalid")
    else if not (starts_with anchor.file_patch (text "diff --git "))
    then some (text "Review annotation file patch is invalid")
    else none

-- Whether an entry takes the id or the source key of `entry`.
abbrev pub collides : Entry → Entry → Bool
collides entry existing =
    text_eq existing.id entry.id || shares_key entry.source_key existing.source_key

abbrev takes_id : Option Text → Annotation → Bool
takes_id none annotation = false
takes_id (some id) annotation = text_eq annotation.id id

-- `findIdentityCollision`.
unfoldable pub find_identity_collision : Option Text → Entry → List Annotation → Option Annotation
find_identity_collision id entry =
    find (λ annotation. takes_id id annotation || any (collides entry) annotation.entries)

-- `addAnnotation`.
unfoldable pub add_annotation : Review → NewAnnotation → Result Review
add_annotation r input = elim (anchor_error input.anchor) [
  | some message ↦ err invalid message
  | none ↦ elim (find_identity_collision (some input.id) input.entry r.annotations) [
    | some _ ↦ err conflict (text "Review annotation or entry identity is already in use")
    | none ↦ ok (record r {
      annotations =
          r.annotations
          ++ record { id = input.id; anchor = input.anchor; entries = input.entry ∷ [] } ∷ [];
    })
  ]
]

-- The first entry with the source key, over all annotations in order, with a change made to it.
unfoldable pub refresh_entries : Text → Entry → List Entry → List Entry
refresh_entries key input [] = []
refresh_entries key input (e ∷ es) =
    if has_key key e.source_key
    then record e { author = input.author; body = input.body; source_url = input.source_url } ∷ es
    else e ∷ refresh_entries key input es

unfoldable pub refresh : Text → Entry → List Annotation → List Annotation
refresh key input [] = []
refresh key input (a ∷ xs) =
    if any (λ e. has_key key e.source_key) a.entries
    then record a { entries = refresh_entries key input a.entries } ∷ xs
    else a ∷ refresh key input xs

-- Whether `findEntryBySourceKey` finds an entry.
unfoldable pub has_source_key : Text → List Annotation → Bool
has_source_key key = any (λ a. any (λ e. has_key key e.source_key) a.entries)

-- The rest of `upsertAnnotation`, for an entry with a source key.
unfoldable pub upsert_under : Text → Review → NewAnnotation → Result Review
upsert_under key r input =
    if has_source_key key r.annotations
    then ok (record r { annotations = refresh key input.entry r.annotations })
    else add_annotation r input

-- `upsertAnnotation`.
unfoldable pub upsert_annotation : Review → NewAnnotation → Result Review
upsert_annotation r input = elim input.entry.source_key [
  | none ↦ err invalid (text "Review annotation upsert requires sourceKey")
  | some key ↦ upsert_under key r input
]

-- The push of a reply on the first annotation with the id.
unfoldable pub push_reply : Text → Entry → List Annotation → Option (List Annotation)
push_reply id entry [] = none
push_reply id entry (a ∷ xs) =
    if text_eq a.id id
    then some (record a { entries = a.entries ++ entry ∷ [] } ∷ xs)
    else elim (push_reply id entry xs) [ none ↦ none | some rest ↦ some (a ∷ rest) ]

-- `addReply`.
unfoldable pub add_reply : Review → Text → Entry → Result Review
add_reply r id entry = elim (find_identity_collision none entry r.annotations) [
  | some _ ↦ err conflict (text "Review entry identity is already in use")
  | none ↦ elim (push_reply id entry r.annotations) [
    | none ↦ err not_found (text "Review annotation not found: " ++ id)
    | some annotations ↦ ok (record r { annotations = annotations })
  ]
]

-- What is left of an annotation whose entry is deleted, in front of the ones after it.
unfoldable pub without_entry : Text → Annotation → List Annotation → List Annotation
without_entry id a xs =
    let entries = keep (λ e. not (text_eq e.id id)) a.entries in
    if length entries == 0 then xs else record a { entries = entries } ∷ xs

unfoldable pub drop_entry : Text → List Annotation → Option (List Annotation)
drop_entry id [] = none
drop_entry id (a ∷ xs) =
    if any (λ e. text_eq e.id id) a.entries
    then some (without_entry id a xs)
    else elim (drop_entry id xs) [ none ↦ none | some rest ↦ some (a ∷ rest) ]

-- `deleteComment`.
unfoldable pub delete_comment : Review → Text → Result Review
delete_comment r id = elim (drop_entry id r.annotations) [
  | none ↦ err not_found (text "Review comment not found: " ++ id)
  | some annotations ↦ ok (record r { annotations = annotations })
]

pub data Command : Type 0 where
  adds upserts : NewAnnotation → Command
  replies : Text → Entry → Command
  deletes : Text → Command

unfoldable pub perform : Review → Command → Result Review
perform r (adds input) = add_annotation r input
perform r (upserts input) = upsert_annotation r input
perform r (replies id entry) = add_reply r id entry
perform r (deletes id) = delete_comment r id

-- A command that throws leaves the review as it was.
abbrev pub after : Review → Result Review → Review
after r (ok next) = next
after r (err _ _) = r

unfoldable pub perform_all : Review → List Command → Review
perform_all r [] = r
perform_all r (c ∷ cs) = perform_all (after r (perform r c)) cs
