-- ===== src/Cache/Tests.antt =====
-- session-cache.ts: a session that is loaded, written again and removed.
use reins.Base.{◌≡◌, refl, true, false, none, some, List, [], ◌∷◌, Text, text}
use reins.Cache.Sessions.{Session, empty_session, patched, session_equals}
use reins.Cache.Operations.{
  get, put, delete, entries_of, shown, set, set_many, remove_many, Detail, get_detail, patch_of,
}
use reins.Cache.Mirror.{Operation, sets, sets_many, removes_many, step, run_all, run_all-shown}

run_cache : Unit {0}
unfolding patched session_equals get put delete entries_of shown set set_many remove_many get_detail
    step run_all
run_cache = tt

abbrev detail : Detail
detail = record {
  id = text "a";
  project_id = some 1;
  task_id = none;
  parent_session_id = none;
  name = some (text "A");
  created_at = text "1";
  updated_at = text "2";
  runtime_type = none;
  activity_state = none;
  placement = record {
    available = true;
    removed = false;
    node_id = text "n";
    node_name = text "N";
    path = text "/";
  };
  pinned_at = none;
  archived_at = none;
  source_extension = none;
  background = true;
  pending_operation = none;
  message_count = 0;
  state = 7;
}

abbrev loaded : List Session
loaded = (set (text "a") (patch_of detail) []).0

-- The same answer notifies nobody.
silent_again : (set (text "a") (patch_of detail) loaded).1 ≡ []
unfolding patched session_equals get put shown set
silent_again = refl

background_hidden : entries_of loaded ≡ []
unfolding patched session_equals get put shown set entries_of
background_hidden = refl

removed_known : (remove_many (text "b" ∷ text "a" ∷ []) loaded).1 ≡ text "a" ∷ []
unfolding patched session_equals get put delete shown set remove_many
removed_known = refl

abbrev ops : List Operation
ops =
    sets_many ((text "a", patch_of detail) ∷ (text "b", patch_of detail) ∷ [])
    ∷ removes_many (text "a" ∷ [])
    ∷ sets (text "b") (patch_of detail)
    ∷ []

empty_shown : (y : Text) → empty_session y ≡ shown [] y
unfolding get shown
empty_shown y = refl

run_all-shown_example :
    (run_all ops [] empty_session).1 (text "b") ≡ shown (run_all ops [] empty_session).0 (text "b")
run_all-shown_example = run_all-shown ops [] empty_session (text "b") empty_shown
