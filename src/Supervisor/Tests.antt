-- ===== src/Supervisor/Tests.antt =====
-- supervisor.ts: the services of normal use.
use reins.Base.{
  count_key, ℕ, ◌+◌, ◌≤◌, ◌≡◌, refl, Bool, true, false, List, [], ◌∷◌, ◌++◌, All, arith,
}
use reins.Supervisor.Services.{Service, server, node, create_services}
use reins.Supervisor.Process.{
  Supervisor, spawned, scheduled, finished, create, terminate_all, finish_if_none, shutdown,
  schedule_restart, start_failed, start, exit_for_good, on_exit, on_timer, on_stopped,
  on_stop_timeout, Operation, exits, fires, stop_times_out, stops, step, run, launch,
}
use reins.Supervisor.Alive.{alive_with, alive_after}
use reins.Supervisor.Single.{IsSingle}
use reins.Supervisor.Runs.{named, run-launch-IsSingle}
use reins.Supervisor.Stopping.{IsQuiet, endings, pending, run-shutdown}

run_supervisor : Unit {0}
unfolding create_services create terminate_all finish_if_none shutdown schedule_restart start_failed
    start exit_for_good on_exit on_timer on_stopped on_stop_timeout step run launch
run_supervisor = tt

abbrev services : List (Service × Bool)
services = (server, true) ∷ (node, true) ∷ []

-- The server is child 1 and the node child 2.
abbrev up : Supervisor
up = record {
  running = (0, 1) ∷ (1, 2) ∷ [];
  restart_timers = [];
  failures = [];
  stopping = false;
  next_child = 2;
  told = [];
  waiting = [];
  exit_code = 0;
}

launched : (launch create services).0 ≡ up
unfolding run_supervisor
launched = refl

crashes_twice :
    (run up (
      exits node 2 1 0 true
      ∷ fires 1 true
      ∷ exits node 3 1 0 true
      ∷ exits server 1 0 9 true
      ∷ [])).1
    ≡ scheduled 1 1000 ∷ spawned 1 3 ∷ scheduled 1 2000 ∷ finished 1 ∷ []
unfolding run_supervisor
crashes_twice = refl

services_named : (name : ℕ) → named name services ≤ 1
services_named name = ground arith

-- The node crashes and is started again; a late exit of its first process changes nothing.
abbrev crashes_and_restarts : List Operation
crashes_and_restarts = exits node 2 1 0 true ∷ fires 1 true ∷ exits node 2 1 0 true ∷ []

run-launch-IsSingle_example :
    let (s, es) = launch create services in
    IsSingle (run s crashes_and_restarts).0
    × ((name : ℕ) → count_key name (alive_after s (alive_with [] es) crashes_and_restarts) ≤ 1)
run-launch-IsSingle_example = run-launch-IsSingle services crashes_and_restarts services_named

alive_now :
    alive_after (launch create services).0 ((1, 2) ∷ (0, 1) ∷ []) crashes_and_restarts
    ≡ (1, 3) ∷ (0, 1) ∷ []
unfolding run_supervisor
alive_now = refl

run-shutdown_example :
    let (q, es) = shutdown up 0 in
    let (final, fs) = run q (stops 1 ∷ fires 1 true ∷ stop_times_out ∷ []) in
    (final.stopping ≡ true) × All IsQuiet fs × (endings (es ++ fs) + pending final.waiting ≡ 1)
run-shutdown_example = run-shutdown up 0 (stops 1 ∷ fires 1 true ∷ stop_times_out ∷ []) refl
