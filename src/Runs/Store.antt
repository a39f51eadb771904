-- ===== src/Runs/Store.antt =====
-- session-runs.ts: what the server's database and Pi's storage say of a session's runs. Ids are their
-- texts, times are milliseconds.
use reins.Base.{
  ℕ, ◌+◌, ◌*◌, Bool, true, false, not, ◌&&◌, Option, none, some, List, [], ◌∷◌, ◌++◌, Text, text_eq,
  keep, length, ltb, if◌then◌else◌,
}

pub data Status : Type 0 where
  completed failed aborted : Status

-- Who ended a run.
pub data Source : Type 0 where
  by_pi by_reins : Source

pub record Problem : Type 0 where
  pub code : Option Text
  pub message : Text

-- `LatestSettlement`; what a `RunSettlement` adds to it is absent from old records.
pub record Settlement : Type 0 where
  pub operation_id : Option Text
  pub source : Option Source
  pub status : Status
  pub error : Option Problem

pub record Model : Type 0 where
  pub provider : Text
  pub model_id : Text

-- A session's row, with what the queries join to it: when its task closed and the node of its source.
pub record Row : Type 0 where
  pub id : Text
  pub project_id : Option ℕ
  pub parent_session_id : Option Text
  pub source_extension : Option Text
  pub closed_at : Option ℕ
  pub node_id : Option Text
  pub auto_resumes : Option (List ℕ)
  pub settlement : Option Settlement
  pub model : Option Model
  pub thinking_level : Option Text
  pub is_finished : Bool

-- An operation in progress, as Pi's storage has it.
pub record Pending : Type 0 where
  pub session_id : Text
  pub operation_id : Text
  pub started_at : ℕ

-- What Pi's storage answers: the operations in progress, the newest result of a run of a session, and when
-- an operation that ended had started. A result is a settlement of Pi's, of which the code reads the error.
pub record Storage : Type 0 where
  pub pending : List Pending
  pub newest : Text → Option Settlement
  pub started : Text → Text → Option ℕ

-- A query by the id of a session.
unfoldable pub get_session : Text → List Row → Option Row
get_session id [] = none
get_session id (r ∷ rows) = if text_eq r.id id then some r else get_session id rows

-- `UPDATE sessions ... WHERE id = ?`.
unfoldable pub update : Text → (Row → Row) → List Row → List Row
update id change [] = []
update id change (r ∷ rows) = if text_eq r.id id then change r ∷ rows else r ∷ update id change rows

unfoldable pub find_pending : Text → List Pending → Option Pending
find_pending id [] = none
find_pending id (o ∷ os) = if text_eq o.session_id id then some o else find_pending id os

-- `latestSettlement`.
unfoldable pub latest_settlement : List Row → Text → Option Settlement
latest_settlement rows id = elim (get_session id rows) [ none ↦ none | some r ↦ r.settlement ]

abbrev pub is_reins : Option Source → Bool
is_reins none = false
is_reins (some by_pi) = false
is_reins (some by_reins) = true

abbrev pub names : Option Text → Text → Bool
names none id = false
names (some a) id = text_eq a id

abbrev pub given_up_in : Option Settlement → Text → Bool
given_up_in none id = false
given_up_in (some s) id = is_reins s.source && names s.operation_id id

-- The record names the operation as one that Reins gave up.
abbrev pub is_given_up : List Row → Pending → Bool
is_given_up rows o = given_up_in (latest_settlement rows o.session_id) o.operation_id

-- `pendingRuns`.
unfoldable pub pending_runs : Storage → List Row → List Pending
pending_runs storage rows = keep (λ o. not (is_given_up rows o)) storage.pending

-- `onNode`.
unfoldable pub on_node : List Row → Text → Text → Bool
on_node rows id node = elim (get_session id rows) [ none ↦ false | some r ↦ names r.node_id node ]

abbrev pub auto_resume_limit : ℕ
auto_resume_limit = 3

abbrev pub auto_resume_window_ms : ℕ
auto_resume_window_ms = 10 * 60000

abbrev pub times_of : Option (List ℕ) → List ℕ
times_of none = []
times_of (some times) = times

-- Whether a time is less than the window before `now`, which a clock set back can be before it.
abbrev pub is_recent : ℕ → ℕ → Bool
is_recent now time = ltb now (time + auto_resume_window_ms)

-- `takeAutoResume` on the times of a row.
unfoldable pub take_from : ℕ → List ℕ → List ℕ × Bool
take_from now times =
    let recent = keep (is_recent now) times in
    let allowed = ltb (length recent) auto_resume_limit in
    (if allowed then recent ++ now ∷ [] else recent, allowed)

-- `takeAutoResume`.
unfoldable pub take_auto_resume : Text → ℕ → List Row → List Row × Bool
take_auto_resume id now rows =
    let times = elim (get_session id rows) as (λ _. List ℕ) [
      | none ↦ []
      | some r ↦ times_of r.auto_resumes
    ] in
    let (kept, allowed) = take_from now times in
    (update id (λ r. record r { auto_resumes = some kept }) rows, allowed)
