-- ===== src/Review/Model.antt =====
-- code-review.ts: the data of a review. Optional and nullable fields are `Option`.
use reins.Base.{ℕ, Bool, false, Option, none, some, List, Text, text_eq}

pub data Side : Type 0 where
  old new : Side

pub data LineKind : Type 0 where
  context addition deletion : LineKind

pub record DiffLine : Type 0 where
  pub kind : LineKind
  pub text : Text

pub record Anchor : Type 0 where
  pub path : Text
  pub old_path : Option Text
  pub side : Side
  pub start_line : ℕ
  pub lines : List DiffLine
  pub file_fingerprint : Option Text
  pub file_patch : Text
  pub base_revision : Option Text
  pub head_revision : Option Text

pub record Entry : Type 0 where
  pub id : Text
  pub author : Text
  pub body : Text
  pub created_at : Text
  pub source_key : Option Text
  pub source_url : Option Text

pub record Annotation : Type 0 where
  pub id : Text
  pub anchor : Anchor
  pub entries : List Entry

pub record NewAnnotation : Type 0 where
  pub id : Text
  pub anchor : Anchor
  pub entry : Entry

pub record Review : Type 0 where
  pub id : Text
  pub project_id : ℕ
  pub task_id : Option ℕ
  pub revision : ℕ
  pub created_at : Text
  pub updated_at : Text
  pub annotations : List Annotation

pub data ErrorKind : Type 0 where
  invalid not_found conflict : ErrorKind

-- `CodeReviewError`, or the value.
pub data Result (A : Type 0) : Type 0 where
  ok : A → Result A
  err : ErrorKind → Text → Result A

-- `entry.sourceKey === key` for a key that is there.
abbrev pub has_key : Text → Option Text → Bool
has_key key none = false
has_key key (some k) = text_eq k key

-- `entry.sourceKey != null && existing.sourceKey === entry.sourceKey`.
abbrev pub shares_key : Option Text → Option Text → Bool
shares_key none existing = false
shares_key (some key) existing = has_key key existing
