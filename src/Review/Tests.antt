-- ===== src/Review/Tests.antt =====
-- code-review.ts: a review of one file, commented and imported into.
use reins.Base.{◌≡◌, refl, Option, none, some, [], ◌∷◌, Text, text, arith}
use reins.Review.Model.{new, context, Anchor, Entry, NewAnnotation, Review, conflict, ok, err}
use reins.Review.Operations.{
  anchor_error, find_identity_collision, add_annotation, refresh_entries, refresh, has_source_key,
  upsert_under, upsert_annotation, push_reply, add_reply, without_entry, drop_entry, delete_comment,
  adds, upserts, perform, perform_all,
}
use reins.Review.Identity.Validity.{IsValid}
use reins.Review.Identity.Histories.{perform_all-IsValid}
use reins.Review.Laws.{delete_comment-add_annotation, upsert_annotation_twice}

review : Unit {0}
unfolding anchor_error find_identity_collision add_annotation refresh_entries refresh has_source_key
    upsert_under upsert_annotation push_reply add_reply without_entry drop_entry delete_comment
    perform perform_all
review = tt

abbrev anchor : Anchor
anchor = record {
  path = text "a.ts";
  old_path = none;
  side = new;
  start_line = 3;
  lines = record { kind = context; text = text "x" } ∷ [];
  file_fingerprint = none;
  file_patch = text "diff --git a/a.ts b/a.ts";
  base_revision = none;
  head_revision = none;
}

abbrev entry : Text → Option Text → Entry
entry id key = record {
  id = id;
  author = text "ann";
  body = text "why?";
  created_at = text "now";
  source_key = key;
  source_url = none;
}

abbrev comment : NewAnnotation
comment = record { id = text "n1"; anchor = anchor; entry = entry (text "e1") none }

abbrev import : NewAnnotation
import = record { id = text "n2"; anchor = anchor; entry = entry (text "e2") (some (text "gh:1")) }

abbrev empty : Review
empty = record {
  id = text "r";
  project_id = 1;
  task_id = none;
  revision = 0;
  created_at = text "now";
  updated_at = text "now";
  annotations = [];
}

abbrev commented : Review
commented = record empty {
  annotations =
      record { id = text "n1"; anchor = anchor; entries = entry (text "e1") none ∷ [] } ∷ [];
}

adds_once : add_annotation empty comment ≡ ok commented
unfolding review
adds_once = refl

rejects_twice :
    add_annotation commented comment
    ≡ err conflict (text "Review annotation or entry identity is already in use")
unfolding review
rejects_twice = refl

delete_comment-add_annotation_example : delete_comment commented (text "e1") ≡ ok empty
delete_comment-add_annotation_example =
    delete_comment-add_annotation empty commented comment adds_once

empty-IsValid : IsValid []
empty-IsValid = record {
  entry_ids = λ id. omega arith;
  source_keys = λ key. omega arith;
  annotation_ids = λ id. omega arith;
  sound = tt;
}

perform_all-IsValid_example :
    IsValid (perform_all empty (adds comment ∷ upserts import ∷ adds comment ∷ [])).annotations
perform_all-IsValid_example =
    perform_all-IsValid empty (adds comment ∷ upserts import ∷ adds comment ∷ []) empty-IsValid

commented-IsValid : IsValid commented.annotations
unfolding review
commented-IsValid = perform_all-IsValid empty (adds comment ∷ []) empty-IsValid

abbrev replied : Review
replied = record empty {
  annotations =
      record {
        id = text "n1";
        anchor = anchor;
        entries = entry (text "e1") none ∷ entry (text "e3") none ∷ [];
      }
      ∷ [];
}

replies_once : add_reply commented (text "n1") (entry (text "e3") none) ≡ ok replied
unfolding review
replies_once = refl

abbrev imported : Review
imported = record empty {
  annotations =
      record {
        id = text "n2";
        anchor = anchor;
        entries = entry (text "e2") (some (text "gh:1")) ∷ [];
      }
      ∷ [];
}

imports_once : upsert_annotation empty import ≡ ok imported
unfolding review
imports_once = refl

upsert_annotation_twice_example : upsert_annotation imported import ≡ ok imported
upsert_annotation_twice_example = upsert_annotation_twice empty imported import imports_once
