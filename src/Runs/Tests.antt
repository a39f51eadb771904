-- ===== src/Runs/Tests.antt =====
-- session-runs.ts: a budget of three resumes, and a node that is removed.
use reins.Base.{
  ℕ, ◌≡◌, ◌≤◌, refl, true, false, ◌&&◌, Option, none, some, List, [], ◌∷◌, Text, text, text_eq,
  keep, count, arith,
}
use Prim.Native.String.{String}
use reins.Runs.Store.{
  Row, Pending, Storage, get_session, update, find_pending, latest_settlement, pending_runs,
  on_node, take_from, take_auto_resume, auto_resume_limit,
}
use reins.Runs.Replies.{
  reply_result, report_content, last_run_outcome, run_started_before_task_closed,
}
use reins.Runs.Settling.{Effect, steers, updated, Outside, report, tell_extension, run_settled}
use reins.Runs.Recovery.{interrupt_each, interrupt_runs_on, recover}
use reins.Runs.Budget.{is_within, IsOrdered, take_calls, take_calls-within}
use reins.Runs.Interrupted.{is_spared, pending_runs-interrupt_runs_on}

run_runs : Unit {0}
unfolding get_session update find_pending latest_settlement pending_runs on_node take_from
    take_auto_resume reply_result report_content last_run_outcome run_started_before_task_closed
    report tell_extension run_settled interrupt_each interrupt_runs_on recover take_calls
run_runs = tt

abbrev session : String → Option Text → String → Row
session id parent node = record {
  id = text id;
  project_id = some 1;
  parent_session_id = parent;
  source_extension = none;
  closed_at = none;
  node_id = some (text node);
  auto_resumes = none;
  settlement = none;
  model = none;
  thinking_level = none;
  is_finished = false;
}

abbrev rows : List Row
rows = session "a" none "n1" ∷ session "b" (some (text "a")) "n1" ∷ session "c" none "n2" ∷ []

abbrev run_of : String → Pending
run_of id = record { session_id = text id; operation_id = text id; started_at = 5 }

abbrev storage : Storage
storage = record {
  pending = run_of "a" ∷ run_of "b" ∷ run_of "c" ∷ [];
  newest = λ id. none;
  started = λ id operation. none;
}

abbrev outside : Outside
outside = record {
  read_reply = λ id tip. some none;
  accepts = λ parent key content. true;
  has_app = true;
}

abbrev effects_of : Option (List Row × List Effect) → List Effect
effects_of none = []
effects_of (some (rs, es)) = es

-- The child's end is steered to its parent, and both sessions are updated.
tells_parent :
    effects_of
      (interrupt_runs_on outside (λ run. storage) storage (text "n1") (text "gone") [] rows)
    ≡ updated (text "a") (some 1)
      ∷ steers (text "a") (text "child-report:b:b:interrupted") (text "Session failed: gone")
      ∷ updated (text "b") (some 1)
      ∷ []
unfolding get_session update find_pending latest_settlement pending_runs on_node reply_result
    report_content run_started_before_task_closed report tell_extension run_settled interrupt_each
    interrupt_runs_on
tells_parent = refl

abbrev calls : List (Text × ℕ)
calls =
    (text "a", 0)
    ∷ (text "b", 0)
    ∷ (text "a", 1)
    ∷ (text "a", 2)
    ∷ (text "a", 3)
    ∷ (text "a", 600000)
    ∷ []

fourth_refused :
    take_calls calls rows
    ≡ (text "a", 0) ∷ (text "b", 0) ∷ (text "a", 1) ∷ (text "a", 2) ∷ (text "a", 600000) ∷ []
unfolding get_session update take_from take_auto_resume take_calls
fourth_refused = refl

ordered : IsOrdered 0 calls
ordered =
    (omega arith, (omega arith, (omega arith, (omega arith, (omega arith, (omega arith, tt))))))

first : get_session (text "a") rows ≡ some (session "a" none "n1")
unfolding get_session
first = refl

take_calls-within_example :
    count (λ c. text_eq c.0 (text "a") && is_within 1 c.1) (take_calls calls rows)
    ≤ auto_resume_limit
take_calls-within_example =
    take_calls-within calls rows (text "a") (session "a" none "n1") 0 1 ordered first refl

pending_runs-interrupt_runs_on_example :
    (last : List Row) × (es : List Effect) × (interrupt_runs_on outside
        (λ run. storage)
        storage
        (text "n1")
        (text "gone")
        (text "b" ∷ [])
        rows
      ≡ some (last, es))
    × (pending_runs storage last
        ≡ keep (is_spared rows (text "n1") (text "b" ∷ [])) (pending_runs storage rows))
pending_runs-interrupt_runs_on_example =
    pending_runs-interrupt_runs_on outside (λ run. storage) storage (text "n1") (text "gone")
      (text "b" ∷ []) rows (refl, (refl, (refl, tt)))
