-- ===== src/Runs/Replies.antt =====
-- session-runs.ts: what a wait answers and a parent is told.
use reins.Base.{
  leb, Bool, true, false, ◌&&◌, ◌||◌, Option, none, some, List, [], ◌++◌, Text, text, text_eq,
  if◌then◌else◌,
}
use reins.Runs.Store.{
  completed, failed, aborted, Source, by_pi, by_reins, Problem, Settlement, Row, Storage,
  latest_settlement, names, find_pending,
}

-- `FinalReply`.
pub record Reply : Type 0 where
  pub text_of : Option Text
  pub stop_reason : Option Text
  pub error_message : Option Text

-- The status of a `SessionWaitResult`.
pub data Rest : Type 0 where
  idle ended broke cancelled timeout : Rest

pub record WaitResult : Type 0 where
  pub session_id : Text
  pub status : Rest
  pub result : Option Text
  pub error : Option Text

abbrev pub no_response : Text
no_response = text "Runtime response failed"

abbrev pub message_or : Text → Option Text → Text
message_or other none = other
message_or other (some m) = m

abbrev pub message_of : Option Problem → Option Text
message_of none = none
message_of (some p) = some p.message

abbrev pub stopped_for : Option Reply → Text → Bool
stopped_for none why = false
stopped_for (some r) why = elim r.stop_reason [ none ↦ false | some s ↦ text_eq s why ]

abbrev reply_error : Option Reply → Option Text
reply_error none = some no_response
reply_error (some r) = some (message_or no_response r.error_message)

abbrev pub text_in : Option Reply → Option Text
text_in none = none
text_in (some r) = r.text_of

-- The last of `replyResult`, without an outcome.
abbrev pub by_reply : Text → Option Reply → WaitResult
by_reply id none = record { session_id = id; status = idle; result = none; error = none }
by_reply id (some r) = record {
  session_id = id;
  status =
      if stopped_for (some r) (text "aborted")
      then cancelled
      else if stopped_for (some r) (text "error")
      then broke
      else ended;
  result = r.text_of;
  error = if stopped_for (some r) (text "error") then reply_error (some r) else none;
}

-- `replyResult`.
unfoldable pub reply_result : Text → Option Reply → Option Settlement → WaitResult
reply_result id last none = by_reply id last
reply_result id last (some s) = elim s.status [
  | failed ↦ record {
    session_id = id;
    status = broke;
    result = none;
    error = some (message_or no_response (message_of s.error));
  }
  | aborted ↦ record {
    session_id = id;
    status = cancelled;
    result = none;
    error = message_of s.error;
  }
  | completed ↦ record { session_id = id; status = ended; result = text_in last; error = none }
]

abbrev pub word : Rest → Text
word idle = text "idle"
word ended = text "completed"
word broke = text "failed"
word cancelled = text "cancelled"
word timeout = text "timeout"

abbrev pub is_ended : Rest → Bool
is_ended ended = true
is_ended _ = false

-- The content of `reportToParent`.
unfoldable pub report_content : WaitResult → Text
report_content r =
    if is_ended r.status then message_or (text "Session completed.") r.result else elim r.error [
      | none ↦ text "Session " ++ (word r.status ++ text ".")
      | some e ↦
          if text_eq e []
          then text "Session " ++ (word r.status ++ text ".")
          else text "Session " ++ (word r.status ++ (text ": " ++ e))
    ]

abbrev suffix : Source → Text
suffix by_pi = []
suffix by_reins = text ":interrupted"

-- `childReportKey`.
abbrev pub child_report_key : Text → Text → Source → Text
child_report_key child operation source =
    text "child-report:" ++ (child ++ (text ":" ++ (operation ++ suffix source)))

-- `lastRunOutcome`; what is read of it is its status and error. The status `declined` of a result of Pi
-- counts as `aborted`.
unfoldable pub last_run_outcome : Storage → List Row → Text → Option Settlement
last_run_outcome storage rows id =
    let applied = latest_settlement rows id in
    elim (storage.newest id) [
      | none ↦ applied
      | some newest ↦ elim applied [
        | none ↦ some newest
        | some a ↦
            let of_newest : Bool = elim newest.operation_id [
              | none ↦ false
              | some n ↦ names a.operation_id n
            ] in
            let of_pending : Bool = elim (find_pending id storage.pending) [
              | none ↦ false
              | some o ↦ names a.operation_id o.operation_id
            ] in
            if of_newest || of_pending then some a else some newest
      ]
    ]

-- `runStartedBeforeTaskClosed`, of the row of the session.
unfoldable pub run_started_before_task_closed : Storage → Row → Text → Bool
run_started_before_task_closed storage row operation = elim row.closed_at [
  | none ↦ false
  | some closed ↦ elim (storage.started row.id operation) [
    | some started ↦ leb started closed
    | none ↦ elim (find_pending row.id storage.pending) [
      | none ↦ false
      | some o ↦ text_eq o.operation_id operation && leb o.started_at closed
    ]
  ]
]
