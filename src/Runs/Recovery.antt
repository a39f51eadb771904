-- ===== src/Runs/Recovery.antt =====
-- session-runs.ts: the runs of a removed node, and the recovery when the server starts.
use reins.Base.{
  ℕ, Bool, true, false, not, ◌&&◌, ◌||◌, Option, none, some, List, [], ◌∷◌, ◌++◌, Text, text,
  text_eq, any, if◌then◌else◌,
}
use reins.Runs.Store.{
  failed, by_reins, Row, Pending, Storage, pending_runs, on_node, take_auto_resume,
}
use reins.Runs.Settling.{Settled, Effect, Outside, run_settled}

-- What `settleAsInterrupted` settles: no runtime facts.
abbrev pub interrupted : Pending → Text → Settled
interrupted run message = record {
  session_id = run.session_id;
  run_id = run.operation_id;
  source = by_reins;
  status = failed;
  error = some (record { code = none; message = message });
  model = none;
  thinking_level = none;
  tip_id = none;
}

abbrev pub is_left : List Row → Text → List Text → Pending → Bool
is_left rows node except run =
    any (text_eq run.session_id) except || not (on_node rows run.session_id node)

-- `storage_at` is Pi's storage when a run is settled: the reports before it may have started runs.
module _ (o : Outside) (storage_at : Pending → Storage) where
  -- The loop of `interruptRunsOn`.
  unfoldable pub interrupt_each :
      Text → Text → List Text → List Pending → List Row → Option (List Row × List Effect)
  interrupt_each node message except [] rows = some (rows, [])
  interrupt_each node message except (run ∷ runs) rows = elim (is_left rows node except run) [
    | true ↦ interrupt_each node message except runs rows
    | false ↦ elim (run_settled o (storage_at run) (interrupted run message) rows) [
      | none ↦ none
      | some (next, es) ↦ elim (interrupt_each node message except runs next) [
        | none ↦ none
        | some (last, fs) ↦ some (last, es ++ fs)
      ]
    ]
  ]

  -- `interruptRunsOn`.
  unfoldable pub interrupt_runs_on :
      Storage → Text → Text → List Text → List Row → Option (List Row × List Effect)
  interrupt_runs_on storage node message except rows =
      interrupt_each node message except (pending_runs storage rows) rows

-- How the resume of a run ends, and whether the run is still the pending one and not driven then.
pub record Resumption : Type 0 where
  pub started : Bool
  pub stands : Bool

abbrev pub restarted : Text
restarted = text "The run was interrupted: the server restarted"

-- `recoverInterruptedRuns` on one run, at `now`. `storage` is Pi's when the run is given up.
unfoldable pub recover :
    Outside → Storage → ℕ → Pending → Resumption → List Row → Option (List Row × List Effect)
recover o storage now run r rows =
    let (taken, allowed) = take_auto_resume run.session_id now rows in
    if (allowed && r.started) || not r.stands
    then some (taken, [])
    else run_settled o storage (interrupted run restarted) taken
