-- ===== src/Supervisor/Single.antt =====
-- supervisor.ts: no service runs twice.
use reins.Base.{
  ℕ, suc, ◌+◌, ◌≤◌, ◌<◌, ◌≡◌, refl, ap, ◌∙◌, Bool, true, false, not, some, List, [], ◌∷◌, ◌==◌,
  ==→eq, if◌then◌else◌, if_ind, lookup, insert, delete, count_key, count_key-delete, All,
  Option-cases, inl, inr, arith,
}
use reins.Supervisor.Services.{Backoff, OnExit, stop_all, restart, Service}
use reins.Supervisor.Process.{
  Supervisor, Effect, shutdown, schedule_restart, start_failed, start, is_code, code_or_one,
  exit_for_good, on_exit, on_timer,
}

module _ {V : Type 0} where
  pub count_key-insert_absent :
      (k id : ℕ) (v : V) (xs : List (ℕ × V))
      → count_key id xs ≡ 0
      → count_key k (insert id v xs) ≡ (if id == k then 1 else 0) + count_key k xs
  count_key-insert_absent k id v [] h = ground arith
  count_key-insert_absent k id v ((j, w) ∷ xs) h =
      ground (arith, h, count_key-insert_absent k id v xs)

  pub count_key-of_lookup :
      (id : ℕ) (v : V) (xs : List (ℕ × V)) → lookup id xs ≡ some v → 0 < count_key id xs
  count_key-of_lookup id v [] h = absurd (ground arith)
  count_key-of_lookup id v ((j, w) ∷ xs) h = ground (arith, h, count_key-of_lookup id v xs)

abbrev IsNamed : ℕ × Service → Type 0
IsNamed t = t.0 ≡ t.1.name

insert-IsNamed :
    (service : Service) (xs : List (ℕ × Service))
    → All IsNamed xs
    → All IsNamed (insert service.name service xs)
insert-IsNamed service [] h = (refl, tt)
insert-IsNamed service (x ∷ xs) h = ground (arith, h, insert-IsNamed service xs)

delete-IsNamed :
    (name : ℕ) (xs : List (ℕ × Service)) → All IsNamed xs → All IsNamed (delete name xs)
delete-IsNamed name [] h = tt
delete-IsNamed name (x ∷ xs) h = ground (arith, h, delete-IsNamed name xs)

pub lookup-IsNamed :
    (name : ℕ) (service : Service) (xs : List (ℕ × Service))
    → All IsNamed xs
    → lookup name xs ≡ some service
    → service.name ≡ name
lookup-IsNamed name service [] h e = absurd (ground arith)
lookup-IsNamed name service (x ∷ xs) h e = ground (arith, h, e, lookup-IsNamed name service xs)

-- How often a service runs or is about to be started.
abbrev pub presence : ℕ → Supervisor → ℕ
presence name s = count_key name s.running + count_key name s.restart_timers

pub record IsSingle (s : Supervisor) : Type 0 where
  pub once : (name : ℕ) → presence name s ≤ 1
  pub named : All IsNamed s.restart_timers

pub shutdown-IsSingle : (s : Supervisor) (code : ℕ) → IsSingle s → IsSingle (shutdown s code).0
unfolding shutdown
shutdown-IsSingle s code v =
    if_ind {A = Supervisor × List Effect} (λ q. IsSingle q.0) s.stopping (λ _. v)
      (λ _. record { once = λ name. omega arith; named = tt })

schedule_restart-IsSingle :
    (s : Supervisor) (service : Service) (b : Backoff) (uptime : ℕ)
    → IsSingle s
    → presence service.name s ≡ 0
    → IsSingle (schedule_restart s service b uptime).0
unfolding schedule_restart
schedule_restart-IsSingle s service b uptime v h = record {
  once = λ name. ground (
    arith,
    v.once name,
    h,
    ==→eq service.name name,
    ap (λ n. presence n s),
    count_key-insert_absent name service.name service s.restart_timers (omega (arith, h)),
  );
  named = insert-IsNamed service s.restart_timers v.named;
}

start_failed-IsSingle :
    (s : Supervisor) (service : Service)
    → IsSingle s
    → presence service.name s ≡ 0
    → IsSingle (start_failed s service).0
unfolding start_failed
start_failed-IsSingle s service v h = by_exit service.on_exit
  where
    by_exit :
        (e : OnExit)
        → IsSingle
            (elim e as (λ _. Supervisor × List Effect) [
              | stop_all ↦ shutdown s 1
              | restart backoff except ↦ schedule_restart s service backoff 0
            ]).0
    by_exit stop_all = shutdown-IsSingle s 1 v
    by_exit (restart b except) = schedule_restart-IsSingle s service b 0 v h

spawned-IsSingle :
    (s : Supervisor) (service : Service)
    → IsSingle s
    → presence service.name s ≡ 0
    → IsSingle (start s service true).0
unfolding start
spawned-IsSingle s service v h = record {
  once = λ name. ground (
    arith,
    v.once name,
    h,
    ==→eq service.name name,
    ap (λ n. presence n s),
    count_key-insert_absent name service.name (suc s.next_child) s.running (omega (arith, h)),
  );
  named = v.named;
}

pub start-IsSingle :
    (s : Supervisor) (service : Service) (spawns : Bool)
    → IsSingle s
    → presence service.name s ≡ 0
    → IsSingle (start s service spawns).0
start-IsSingle s service true v h = spawned-IsSingle s service v h
start-IsSingle s service false v h = unfold start in start_failed-IsSingle s service v h

exit_for_good-IsSingle :
    (s : Supervisor) (service : Service) (code uptime : ℕ)
    → IsSingle s
    → presence service.name s ≡ 0
    → IsSingle (exit_for_good s service code uptime).0
unfolding exit_for_good
exit_for_good-IsSingle s service code uptime v h = by_exit service.on_exit
  where
    by_exit :
        (e : OnExit)
        → IsSingle
            (elim e as (λ _. Supervisor × List Effect) [
              | stop_all ↦ shutdown s (code_or_one code)
              | restart backoff except ↦
                  if is_code code except then (s, []) else schedule_restart s service backoff uptime
            ]).0
    by_exit stop_all = shutdown-IsSingle s (code_or_one code) v
    by_exit (restart b except) =
        if_ind {A = Supervisor × List Effect} (λ q. IsSingle q.0) (is_code code except) (λ _. v)
          (λ _. schedule_restart-IsSingle s service b uptime v h)

-- A service that ran is gone when its child is.
pub gone-IsSingle :
    (s : Supervisor) (name child : ℕ)
    → lookup name s.running ≡ some child
    → IsSingle s
    → let gone = record s { running = delete name s.running } in
      IsSingle gone × (presence name gone ≡ 0)
gone-IsSingle s name child l v = (
  record {
    once = λ k. omega (arith, v.once k, count_key-delete k name child s.running l);
    named = v.named;
  },
  ground (arith, v.once name, count_key-delete name name child s.running l),
)

pub fired-IsSingle :
    (s : Supervisor) (name : ℕ) (service : Service)
    → lookup name s.restart_timers ≡ some service
    → IsSingle s
    → let fired = record s { restart_timers = delete name s.restart_timers } in
      IsSingle fired × (presence name fired ≡ 0)
fired-IsSingle s name service l v = (
  record {
    once = λ k. omega (arith, v.once k, count_key-delete k name service s.restart_timers l);
    named = delete-IsNamed name s.restart_timers v.named;
  },
  ground (arith, v.once name, count_key-delete name name service s.restart_timers l),
)

pub on_timer-IsSingle :
    (s : Supervisor) (name : ℕ) (spawns : Bool) → IsSingle s → IsSingle (on_timer s name spawns).0
unfolding on_timer
on_timer-IsSingle s name spawns v = elim (Option-cases (lookup name s.restart_timers)) [
  | inl e ↦ rw (e, on_timer) (v)
  | inr (service, e) ↦
      let fired = fired-IsSingle s name service e v in
      let gone = record s { restart_timers = delete name s.restart_timers } in
      rw (e, on_timer)
        (if_ind {A = Supervisor × List Effect} (λ q. IsSingle q.0) s.stopping (λ _. fired.0)
          (λ _. start-IsSingle gone service spawns fired.0 (
            ap (λ n. presence n gone) (lookup-IsNamed name service s.restart_timers v.named e)
            ∙ fired.1)))
]

pub on_exit-IsSingle :
    (s : Supervisor) (service : Service) (child code uptime : ℕ) (spawns : Bool)
    → IsSingle s
    → IsSingle (on_exit s service child code uptime spawns).0
unfolding on_exit
on_exit-IsSingle s service child code uptime spawns v =
    elim (Option-cases (lookup service.name s.running)) [
      | inl e ↦ rw (e, on_exit) (v)
      | inr (now, e) ↦
          let gone = gone-IsSingle s service.name now e v in
          let left = record s { running = delete service.name s.running } in
          let forgiven = record left { failures = delete service.name s.failures } in
          if_ind {A = Supervisor × List Effect} (λ q. IsSingle q.0)
            (not (is_code child (lookup service.name s.running))) (λ _. v)
            (λ _.
              if_ind {A = Supervisor × List Effect} (λ q. IsSingle q.0) s.stopping (λ _. gone.0)
                (λ _.
                  if_ind {A = Supervisor × List Effect} (λ q. IsSingle q.0)
                    (is_code code service.restart_at_once_on)
                    (λ _.
                      start-IsSingle forgiven service spawns
                        (record { once = gone.0.once; named = gone.0.named }) gone.1)
                    (λ _. exit_for_good-IsSingle left service code uptime gone.0 gone.1)))
    ]
