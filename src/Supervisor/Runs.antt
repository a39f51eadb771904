-- ===== src/Supervisor/Runs.antt =====
-- supervisor.ts: whole runs, from the start of the services.
use reins.Base.{
  sym, subst, count_key, ℕ, suc, ◌+◌, ◌≤◌, ◌≡◌, Bool, true, false, not, List, [], ◌∷◌, ◌++◌, ◌==◌,
  ==_refl, if◌then◌else◌, if_ind, arith, map, keep, count,
}
use reins.Supervisor.Services.{Backoff, OnExit, stop_all, restart, Service}
use reins.Supervisor.Process.{
  Supervisor, Effect, killed, finished, create, finish_if_none, shutdown, schedule_restart,
  start_failed, start, on_stopped, on_stop_timeout, Operation, exits, fires, signals,
  stop_times_out, stops, step, run, launch,
}
use reins.Supervisor.Alive.{
  alive_with, alive_after, survivors, Tracks, AreIn-absent, start-Tracks, step-Tracks,
  alive_with-append,
}
use reins.Supervisor.Single.{
  IsSingle, presence, shutdown-IsSingle, start-IsSingle, on_exit-IsSingle, on_timer-IsSingle,
  count_key-insert_absent,
}

step-IsSingle : (s : Supervisor) (op : Operation) → IsSingle s → IsSingle (step s op).0
unfolding step
step-IsSingle s (exits service child code uptime spawns) v =
    on_exit-IsSingle s service child code uptime spawns v
step-IsSingle s (fires name spawns) v = on_timer-IsSingle s name spawns v
step-IsSingle s signals v = shutdown-IsSingle s 0 v
step-IsSingle s stop_times_out v = unfold on_stop_timeout in waits s.waiting
  where
    waits :
        (cs : List ℕ)
        → IsSingle
            (elim cs as (λ _. Supervisor × List Effect) [
              | [] ↦ (s, [])
              | _ ↦ (record s { waiting = [] }, map killed s.told ++ finished s.exit_code ∷ [])
            ]).0
    waits [] = v
    waits (c ∷ cs) = record { once = v.once; named = v.named }
step-IsSingle s (stops child) v = unfold on_stopped in waits s.waiting
  where
    waits :
        (cs : List ℕ)
        → IsSingle
            (elim cs as (λ _. Supervisor × List Effect) [
              | [] ↦ (s, [])
              | _ ↦ (
                record s { waiting = keep (λ c. not (c == child)) s.waiting },
                finish_if_none (keep (λ c. not (c == child)) s.waiting) s.exit_code,
              )
            ]).0
    waits [] = v
    waits (c ∷ cs) = record { once = v.once; named = v.named }

run-IsSingle :
    (s : Supervisor) (ops : List Operation) (alive : List (ℕ × ℕ))
    → IsSingle s
    → Tracks s alive
    → IsSingle (run s ops).0 × Tracks (run s ops).0 (alive_after s alive ops)
unfolding run
run-IsSingle s [] alive v t = (v, t)
run-IsSingle s (op ∷ ops) alive v t =
    run-IsSingle (step s op).0 ops (alive_with (survivors op alive) (step s op).1)
      (step-IsSingle s op v) (step-Tracks s op alive v t)

-- How often a name stands among the services.
abbrev pub named : ℕ → List (Service × Bool) → ℕ
named name services = count (λ p. p.0.name == name) services

presence-shutdown-le :
    (s : Supervisor) (code name : ℕ) → presence name (shutdown s code).0 ≤ presence name s
unfolding shutdown
presence-shutdown-le s code name = ground arith

presence-schedule_restart-le :
    (s : Supervisor) (service : Service) (b : Backoff) (uptime name : ℕ)
    → presence service.name s ≡ 0
    → presence name (schedule_restart s service b uptime).0
      ≤ (if service.name == name then 1 else 0) + presence name s
unfolding schedule_restart
presence-schedule_restart-le s service b uptime name h =
    ground
      (arith, count_key-insert_absent name service.name service s.restart_timers (omega (arith, h)))

presence-start_failed-le :
    (s : Supervisor) (service : Service) (name : ℕ)
    → presence service.name s ≡ 0
    → presence name (start_failed s service).0
      ≤ (if service.name == name then 1 else 0) + presence name s
unfolding start_failed
presence-start_failed-le s service name h = by_exit service.on_exit
  where
    by_exit :
        (e : OnExit)
        → presence name
            (elim e as (λ _. Supervisor × List Effect) [
              | stop_all ↦ shutdown s 1
              | restart backoff except ↦ schedule_restart s service backoff 0
            ]).0
          ≤ (if service.name == name then 1 else 0) + presence name s
    by_exit stop_all = omega (arith, presence-shutdown-le s 1 name)
    by_exit (restart b except) = presence-schedule_restart-le s service b 0 name h

presence-start-le :
    (s : Supervisor) (service : Service) (spawns : Bool) (name : ℕ)
    → presence service.name s ≡ 0
    → presence name (start s service spawns).0
      ≤ (if service.name == name then 1 else 0) + presence name s
unfolding start
presence-start-le s service false name h = presence-start_failed-le s service name h
presence-start-le s service true name h = ground (
  arith,
  count_key-insert_absent name service.name (suc s.next_child) s.running (omega (arith, h)),
)

launch-IsSingle :
    (s : Supervisor) (services : List (Service × Bool)) (alive : List (ℕ × ℕ))
    → IsSingle s
    → Tracks s alive
    → ((name : ℕ) → presence name s + named name services ≤ 1)
    → IsSingle (launch s services).0
      × Tracks (launch s services).0 (alive_with alive (launch s services).1)
unfolding launch
launch-IsSingle s [] alive v t h = (v, t)
launch-IsSingle s ((service, spawns) ∷ rest) alive v t h =
    let absent : presence service.name s ≡ 0 =
      ground (arith, h service.name, ==_refl service.name) in
    if_ind {A = Supervisor × List Effect} (λ q. IsSingle q.0 × Tracks q.0 (alive_with alive q.1))
      s.stopping (λ _. (v, t))
      (λ e.
        let none_alive : count_key service.name alive ≡ 0 =
          AreIn-absent s.running service.name alive (omega (arith, absent)) (t.known e) in
        let next = start s service spawns in
        let (single, tracks) =
          launch-IsSingle next.0 rest (alive_with alive next.1)
            (start-IsSingle s service spawns v absent)
            (start-Tracks s service spawns alive t none_alive)
            (λ name. ground (arith, h name, presence-start-le s service spawns name absent)) in
        (
          single,
          subst (Tracks (launch next.0 rest).0)
              (sym (alive_with-append alive next.1 (launch next.0 rest).1)) tracks,
        ))

-- When services with different names are launched, then whatever happens afterwards, each service
-- has at most one process or one pending restart in the supervisor's tables, never both, and no service
-- has two processes alive: of those that were spawned for it, all but one at most have exited. An exit
-- may come late or twice, and then it starts no second process.
pub run-launch-IsSingle :
    (services : List (Service × Bool)) (ops : List Operation)
    → ((name : ℕ) → named name services ≤ 1)
    → let (s, es) = launch create services in
      IsSingle (run s ops).0
      × ((name : ℕ) → count_key name (alive_after s (alive_with [] es) ops) ≤ 1)
run-launch-IsSingle services ops h =
    let (single, tracks) =
      launch-IsSingle create services []
        (unfold create in (record { once = λ name. omega arith; named = tt }))
        (record { lone = λ name. omega arith; known = λ e. tt })
        (λ name. unfold create in omega (arith, h name)) in
    let (final, alive) =
      run-IsSingle (launch create services).0 ops (alive_with [] (launch create services).1) single
        tracks in
    (final, alive.lone)
