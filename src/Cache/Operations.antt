-- ===== src/Cache/Operations.antt =====
-- session-cache.ts: `SessionCache`. The requests of `loadDetail` are outside, but what it caches is here.
use reins.Base.{
  ◌>>=◌, ℕ, Bool, not, Option, none, some, List, [], ◌∷◌, ◌++◌, Text, text_eq, keep, if◌then◌else◌,
}
use reins.Cache.Sessions.{
  Activity, Placement, Session, Patch, empty_session, patched, session_equals,
}

-- `get`, on the entries in their order.
unfoldable pub get : Text → List Session → Option Session
get session_id [] = none
get session_id (s ∷ entries) = if text_eq s.id session_id then some s else get session_id entries

-- `_entries.set`: an entry stays where it is, a new one comes last.
unfoldable pub put : Session → List Session → List Session
put s [] = s ∷ []
put s (e ∷ entries) = if text_eq e.id s.id then s ∷ entries else e ∷ put s entries

-- `_entries.delete`.
unfoldable pub delete : Text → List Session → List Session
delete session_id entries = keep (λ s. not (text_eq s.id session_id)) entries

-- `entries`.
unfoldable pub entries_of : List Session → List Session
entries_of entries = keep (λ s. not s.background) entries

-- The entry, or what `set` takes for it when there is none.
unfoldable pub shown : List Session → Text → Session
shown entries session_id = elim (get session_id entries) [
  | none ↦ empty_session session_id
  | some s ↦ s
]

-- `set`: the entries, and the sessions that the listeners are notified of.
unfoldable pub set : Text → Patch → List Session → List Session × List Text
set session_id data_of entries =
    let previous = shown entries session_id in
    let next = patched previous data_of session_id in
    (put next entries, if session_equals previous next then [] else session_id ∷ [])

-- `setMany`.
unfoldable pub set_many : List (Text × Patch) → List Session → List Session × List Text
set_many [] entries = (entries, [])
set_many ((session_id, data_of) ∷ sessions) entries =
    let (one, notified) = set session_id data_of entries in
    let (all, later) = set_many sessions one in (all, notified ++ later)

-- `removeMany`: the entries, and the sessions that it returns and notifies of.
unfoldable pub remove_many : List Text → List Session → List Session × List Text
remove_many [] entries = (entries, [])
remove_many (session_id ∷ session_ids) entries =
    let (kept, unknown) = remove_many session_ids entries in
    let (left, removed) = remove_many session_ids (delete session_id entries) in
    elim (get session_id entries) [ none ↦ (kept, unknown) | some s ↦ (left, session_id ∷ removed) ]

-- `SessionDetailView`, as far as the cache keeps it.
pub record Detail : Type 0 where
  pub id : Text
  pub project_id : Option ℕ
  pub task_id : Option ℕ
  pub parent_session_id : Option Text
  pub name : Option Text
  pub created_at : Text
  pub updated_at : Text
  pub runtime_type : Option Text
  pub activity_state : Option Activity
  pub placement : Placement
  pub pinned_at : Option Text
  pub archived_at : Option Text
  pub source_extension : Option Text
  pub background : Bool
  pub pending_operation : Option Text
  pub message_count : ℕ
  pub state : ℕ

abbrev detail_of : Session → Text → Text → ℕ → ℕ → Placement → Detail
detail_of s created updated count state_of place = record {
  id = s.id;
  project_id = s.project_id;
  task_id = s.task_id;
  parent_session_id = s.parent_session_id;
  name = s.name;
  created_at = created;
  updated_at = updated;
  runtime_type = s.runtime_type;
  activity_state = s.activity_state;
  placement = place;
  pinned_at = s.pinned_at;
  archived_at = s.archived_at;
  source_extension = s.source_extension;
  background = s.background;
  pending_operation = s.pending_operation;
  message_count = count;
  state = state_of;
}

abbrev pub whole : Session → Option Detail
whole s = do
  created ← s.created_at
  updated ← s.updated_at
  count ← s.message_count
  state_of ← s.state
  place ← s.placement
  some (detail_of s created updated count state_of place)

-- `getDetail`.
unfoldable pub get_detail : Text → List Session → Option Detail
get_detail session_id entries = elim (get session_id entries) [ none ↦ none | some s ↦ whole s ]

-- What `_loadDetail` writes: the fields of the answer, without a type of the runtime that is undefined.
abbrev pub patch_of : Detail → Patch
patch_of d = record {
  project_id = some d.project_id;
  task_id = some d.task_id;
  parent_session_id = some d.parent_session_id;
  name = some d.name;
  created_at = some (some d.created_at);
  updated_at = some (some d.updated_at);
  first_message = none;
  message_count = some (some d.message_count);
  activity_state = some d.activity_state;
  placement = some (some d.placement);
  pinned_at = some d.pinned_at;
  archived_at = some d.archived_at;
  source_extension = some d.source_extension;
  background = some d.background;
  pending_operation = some d.pending_operation;
  runtime_type = elim d.runtime_type [ none ↦ none | some t ↦ some (some t) ];
  state = some (some d.state);
}
