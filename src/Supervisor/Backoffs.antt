-- ===== src/Supervisor/Backoffs.antt =====
-- supervisor.ts: the delays of a service that keeps failing.
use reins.Base.{leb, if◌then◌else◌, ◌+◌, ℕ, zero, suc, true, Option, List, [], ◌∷◌, insert, delete}
use reins.Supervisor.Services.{Backoff, Service}
use reins.Supervisor.Process.{
  Supervisor, Effect, spawned, scheduled, failures_of, Operation, exits, fires,
}

-- The last process of a service exits with a code at once, the timer of its restart fires, and so on.
abbrev pub crash_loop : Service → (code : ℕ) → ℕ → (child : ℕ) → List Operation
crash_loop service code zero child = []
crash_loop service code (suc n) child =
    exits service child code 0 true
    ∷ fires service.name true
    ∷ crash_loop service code n (suc child)

-- Restarts after `delay`, twice that, and so on, each time at most the maximum.
abbrev pub crash_trace : Service → Backoff → ℕ → (child delay : ℕ) → List Effect
crash_trace service b zero child delay = []
crash_trace service b (suc n) child delay =
    scheduled service.name (if leb delay b.max_ms then delay else b.max_ms)
    ∷ spawned service.name (suc child)
    ∷ crash_trace service b n (suc child) (delay + delay)

module _ (service : Service) (b : Backoff) (except : Option ℕ) (code : ℕ) where
  abbrev exited : Supervisor → Supervisor
  exited s = record s {
    running = delete service.name s.running;
    failures = insert service.name (suc (failures_of service.name s.failures)) s.failures;
    restart_timers = insert service.name service s.restart_timers;
  }

  abbrev restarted : Supervisor → Supervisor
  restarted s = record s {
    running = insert service.name (suc s.next_child) s.running;
    restart_timers = delete service.name s.restart_timers;
    next_child = suc s.next_child;
  }
