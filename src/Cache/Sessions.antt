-- ===== src/Cache/Sessions.antt =====
-- session-cache.ts: a cached session, and what is written to one. Ids and times are their texts.
use reins.Base.{
  ℕ, Bool, true, false, not, ◌&&◌, Option, none, some, Text, text_eq, ◌==◌, if◌then◌else◌,
}

pub data Activity : Type 0 where
  running finished : Activity

pub record Placement : Type 0 where
  pub available : Bool
  pub removed : Bool
  pub node_id : Text
  pub node_name : Text
  pub path : Text

-- `CachedSession`. A pending operation is its kind. The state of a session is an object, compared by
-- its identity.
pub record Session : Type 0 where
  pub id : Text
  pub project_id : Option ℕ
  pub task_id : Option ℕ
  pub parent_session_id : Option Text
  pub name : Option Text
  pub created_at : Option Text
  pub updated_at : Option Text
  pub first_message : Option Text
  pub message_count : Option ℕ
  pub activity_state : Option Activity
  pub placement : Option Placement
  pub pinned_at : Option Text
  pub archived_at : Option Text
  pub source_extension : Option Text
  pub background : Bool
  pub pending_operation : Option Text
  pub runtime_type : Option Text
  pub state : Option ℕ

-- `SessionPatch`: a field that is absent or `undefined` is `none`, one that is `null` is `some none`.
pub record Patch : Type 0 where
  pub project_id : Option (Option ℕ)
  pub task_id : Option (Option ℕ)
  pub parent_session_id : Option (Option Text)
  pub name : Option (Option Text)
  pub created_at : Option (Option Text)
  pub updated_at : Option (Option Text)
  pub first_message : Option (Option Text)
  pub message_count : Option (Option ℕ)
  pub activity_state : Option (Option Activity)
  pub placement : Option (Option Placement)
  pub pinned_at : Option (Option Text)
  pub archived_at : Option (Option Text)
  pub source_extension : Option (Option Text)
  pub background : Option Bool
  pub pending_operation : Option (Option Text)
  pub runtime_type : Option (Option Text)
  pub state : Option (Option ℕ)

-- `emptyCachedSession`.
abbrev pub empty_session : Text → Session
empty_session session_id = record {
  id = session_id;
  project_id = none;
  task_id = none;
  parent_session_id = none;
  name = none;
  created_at = none;
  updated_at = none;
  first_message = none;
  message_count = none;
  activity_state = none;
  placement = none;
  pinned_at = none;
  archived_at = none;
  source_extension = none;
  background = false;
  pending_operation = none;
  runtime_type = none;
  state = none;
}

abbrev pub written : {A : Type 0} → A → Option A → A
written old none = old
written old (some value) = value

-- The object of `set`: the session before, the fields of `withoutUndefined`, and the id.
unfoldable pub patched : Session → Patch → Text → Session
patched s p session_id = record {
  id = session_id;
  project_id = written s.project_id p.project_id;
  task_id = written s.task_id p.task_id;
  parent_session_id = written s.parent_session_id p.parent_session_id;
  name = written s.name p.name;
  created_at = written s.created_at p.created_at;
  updated_at = written s.updated_at p.updated_at;
  first_message = written s.first_message p.first_message;
  message_count = written s.message_count p.message_count;
  activity_state = written s.activity_state p.activity_state;
  placement = written s.placement p.placement;
  pinned_at = written s.pinned_at p.pinned_at;
  archived_at = written s.archived_at p.archived_at;
  source_extension = written s.source_extension p.source_extension;
  background = written s.background p.background;
  pending_operation = written s.pending_operation p.pending_operation;
  runtime_type = written s.runtime_type p.runtime_type;
  state = written s.state p.state;
}

abbrev pub option_eq : {A : Type 0} → (A → A → Bool) → Option A → Option A → Bool
option_eq eq none none = true
option_eq eq (some a) (some b) = eq a b
option_eq eq _ _ = false

abbrev pub bool_eq : Bool → Bool → Bool
bool_eq a b = if a then b else not b

abbrev pub activity_eq : Activity → Activity → Bool
activity_eq running running = true
activity_eq finished finished = true
activity_eq _ _ = false

abbrev pub both_placements : Placement → Placement → Bool
both_placements a b =
    bool_eq a.available b.available
    && bool_eq a.removed b.removed
    && text_eq a.node_id b.node_id
    && text_eq a.node_name b.node_name
    && text_eq a.path b.path

-- `placementEquals`.
abbrev pub placement_equals : Option Placement → Option Placement → Bool
placement_equals a b = option_eq both_placements a b

-- `sessionEquals`.
unfoldable pub session_equals : Session → Session → Bool
session_equals a b =
    option_eq ◌==◌ a.project_id b.project_id
    && option_eq ◌==◌ a.task_id b.task_id
    && option_eq text_eq a.parent_session_id b.parent_session_id
    && option_eq text_eq a.name b.name
    && option_eq text_eq a.created_at b.created_at
    && option_eq text_eq a.updated_at b.updated_at
    && option_eq text_eq a.first_message b.first_message
    && option_eq ◌==◌ a.message_count b.message_count
    && option_eq activity_eq a.activity_state b.activity_state
    && placement_equals a.placement b.placement
    && option_eq text_eq a.pinned_at b.pinned_at
    && option_eq text_eq a.archived_at b.archived_at
    && option_eq text_eq a.source_extension b.source_extension
    && bool_eq a.background b.background
    && option_eq text_eq a.pending_operation b.pending_operation
    && option_eq text_eq a.runtime_type b.runtime_type
    && option_eq ◌==◌ a.state b.state
