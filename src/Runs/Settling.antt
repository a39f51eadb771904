-- ===== src/Runs/Settling.antt =====
-- session-runs.ts: `runSettled`.
use reins.Base.{
  ℕ, Bool, true, false, not, ◌&&◌, ◌||◌, Option, none, some, List, [], ◌∷◌, ◌++◌, Text, length,
  ◌==◌, if◌then◌else◌,
}
use reins.Runs.Store.{
  Status, completed, failed, aborted, Source, Problem, Model, Settlement, Row, Storage, get_session,
  update,
}
use reins.Runs.Replies.{
  Reply, reply_result, report_content, child_report_key, run_started_before_task_closed, text_in,
  message_of, message_or, no_response,
}

-- `SessionSettled`.
pub record Settled : Type 0 where
  pub session_id : Text
  pub run_id : Text
  pub source : Source
  pub status : Status
  pub error : Option Problem
  pub model : Option Model
  pub thinking_level : Option Text
  pub tip_id : Option Text

-- What the end of a run does outside the database: the parent that is steered, with the key and the
-- content; the update that browsers hear of; and what the extension is told.
pub data Effect : Type 0 where
  steers : Text → Text → Text → Effect
  updated : Text → Option ℕ → Effect
  tells : Text → Text → Status → Option Text → Option Text → Effect

-- What the server's other parts do: the final reply of a branch, `none` when it cannot be read;
-- whether a parent takes a steer; and whether an app hears of runs that settle.
pub record Outside : Type 0 where
  pub read_reply : Text → Option Text → Option (Option Reply)
  pub accepts : Text → Text → Text → Bool
  pub has_app : Bool

abbrev pub outcome : Settled → Settlement
outcome s = record {
  operation_id = some s.run_id;
  source = some s.source;
  status = s.status;
  error = s.error;
}

-- The report of a child: whether the parent has it, and the steer. One that fails is logged.
unfoldable pub report : Outside → List Row → Row → Settled → Bool × List Effect
report o rows session s = elim session.parent_session_id [
  | none ↦ (false, [])
  | some parent ↦ elim (o.read_reply s.session_id s.tip_id) [
    | none ↦ (false, [])
    | some reply ↦
        let key = child_report_key s.session_id s.run_id s.source in
        let content = report_content (reply_result s.session_id reply (some (outcome s))) in
        elim (get_session parent rows) [
          | none ↦ (false, [])
          | some p ↦
              if o.accepts parent key content
              then (true, steers parent key content ∷ [])
              else (false, [])
        ]
  ]
]

-- `tellExtension`.
unfoldable pub tell_extension : Outside → Text → Settled → List Effect
tell_extension o extension s =
    if o.has_app
    then elim s.status [
      | completed ↦ elim (o.read_reply s.session_id s.tip_id) [
        | none ↦ []
        | some reply ↦ tells extension s.session_id completed (text_in reply) none ∷ []
      ]
      | failed ↦
          tells extension s.session_id failed none
            (some (message_or no_response (message_of s.error)))
          ∷ []
      | aborted ↦ tells extension s.session_id aborted none (message_of s.error) ∷ []
    ]
    else []

abbrev is_given : Text → Bool
is_given t = not (length t == 0)

-- `updateSessionMeta` with the run's model.
abbrev pub with_model : Settled → Row → Row
with_model s r = elim s.model [
  | none ↦ r
  | some m ↦
      if is_given m.provider && is_given m.model_id
      then record r {
        model = some m;
        thinking_level = elim s.thinking_level [ none ↦ r.thinking_level | some t ↦ some t ];
      }
      else r
]

-- The transaction of `runSettled`, on the row of the session.
abbrev pub settled_row : Settled → Bool → Row → Row
settled_row s is_quiet r = record (with_model s r) {
  settlement = some (outcome s);
  is_finished = not is_quiet;
}

-- `runSettled`: the rows and the effects; `none` when there is no such session.
unfoldable pub run_settled :
    Outside → Storage → Settled → List Row → Option (List Row × List Effect)
run_settled o storage s rows = elim (get_session s.session_id rows) [
  | none ↦ none
  | some session ↦
      let (reported, steered) = report o rows session s in
      let is_quiet = reported || run_started_before_task_closed storage session s.run_id in
      let told = elim session.source_extension as (λ _. List Effect) [
        | none ↦ []
        | some extension ↦ tell_extension o extension s
      ] in
      some (
        update s.session_id (settled_row s is_quiet) rows,
        steered ++ (updated s.session_id session.project_id ∷ told),
      )
]
