-- ===== src/Supervisor/Alive.antt =====
-- supervisor.ts: the processes that are alive, told from what is spawned and what exits.
use reins.Base.{
  ℕ, suc, ◌≤◌, ◌≡◌, refl, sym, ap, ◌∙◌, subst, Bool, true, false, not, ◌&&◌, some, List, [], ◌∷◌,
  ◌++◌, ◌==◌, ==→eq, if◌then◌else◌, if_ind, lookup, insert, delete, keep, count_key, All, map,
  Option-cases, Bool-cases, inl, inr, arith, lookup-insert,
}
use reins.Supervisor.Services.{Backoff, OnExit, stop_all, restart, Service}
use reins.Supervisor.Process.{
  Supervisor, Effect, spawned, scheduled, terminated, killed, finished, terminate_all, children,
  finish_if_none, shutdown, schedule_restart, start_failed, start, is_code, code_or_one,
  exit_for_good, on_exit, on_timer, on_stopped, on_stop_timeout, Operation, exits, fires, signals,
  stop_times_out, stops, step,
}
use reins.Supervisor.Single.{
  IsSingle, presence, fired-IsSingle, lookup-IsNamed, count_key-of_lookup,
}

-- A process by the name of its service and its number.
abbrev Process : Type 0
Process = ℕ × ℕ

-- The processes alive after some effects.
abbrev pub alive_with : List Process → List Effect → List Process
alive_with alive [] = alive
alive_with alive (spawned name child ∷ es) = alive_with ((name, child) ∷ alive) es
alive_with alive (_ ∷ es) = alive_with alive es

-- The processes left when the one has exited that the operation reports.
abbrev pub survivors : Operation → List Process → List Process
survivors (exits service child code uptime spawns) alive =
    keep (λ e. not (e.0 == service.name && e.1 == child)) alive
survivors (stops child) alive = keep (λ e. not (e.1 == child)) alive
survivors _ alive = alive

-- The processes alive after a run.
abbrev pub alive_after : Supervisor → List Process → List Operation → List Process
alive_after s alive [] = alive
alive_after s alive (op ∷ ops) =
    let (next, es) = step s op in alive_after next (alive_with (survivors op alive) es) ops

abbrev AreIn : List (ℕ × ℕ) → List Process → Type 0
AreIn running alive = All (λ e. lookup e.0 running ≡ some e.1) alive

-- No service has two processes alive, and until all is stopped each is the one of its service.
pub record Tracks (s : Supervisor) (alive : List Process) : Type 0 where
  pub lone : (name : ℕ) → count_key name alive ≤ 1
  pub known : s.stopping ≡ false → AreIn s.running alive

count_key-keep-le :
    (name : ℕ) (p : Process → Bool) (xs : List Process)
    → count_key name (keep p xs) ≤ count_key name xs
count_key-keep-le name p [] = omega arith
count_key-keep-le name p (x ∷ xs) = ground (arith, count_key-keep-le name p xs)

AreIn-keep :
    (running : List (ℕ × ℕ)) (p : Process → Bool) (xs : List Process)
    → AreIn running xs
    → AreIn running (keep p xs)
AreIn-keep running p [] h = tt
AreIn-keep running p (x ∷ xs) h = ground (arith, h, AreIn-keep running p xs)

-- A service that is not running has no process alive.
pub AreIn-absent :
    (running : List (ℕ × ℕ)) (name : ℕ) (xs : List Process)
    → count_key name running ≡ 0
    → AreIn running xs
    → count_key name xs ≡ 0
AreIn-absent running name [] c h = refl
AreIn-absent running name ((k, child) ∷ xs) c h = ground (
  arith,
  c,
  AreIn-absent running name xs c h.1,
  ==→eq k name,
  ap (λ n. count_key n running),
  count_key-of_lookup k child running h.0,
)

lookup-insert_other :
    (k id v : ℕ) (xs : List (ℕ × ℕ)) → (id == k) ≡ false → lookup k (insert id v xs) ≡ lookup k xs
lookup-insert_other k id v xs h = ground (arith, h, lookup-insert id k v xs)

AreIn-insert :
    (running : List (ℕ × ℕ)) (name child : ℕ) (xs : List Process)
    → count_key name xs ≡ 0
    → AreIn running xs
    → AreIn (insert name child running) xs
AreIn-insert running name child [] c h = tt
AreIn-insert running name child ((k, v) ∷ xs) c h = (
  lookup-insert_other k name child running (ground (arith, c)) ∙ h.0,
  AreIn-insert running name child xs (ground (arith, c)) h.1,
)

lookup-delete_other :
    (k id : ℕ) (xs : List (ℕ × ℕ)) → (k == id) ≡ false → lookup k (delete id xs) ≡ lookup k xs
lookup-delete_other k id [] h = refl
lookup-delete_other k id ((j, w) ∷ xs) h = ground (arith, h, lookup-delete_other k id xs h)

-- The process of a service is gone with its entry.
AreIn-delete :
    (running : List (ℕ × ℕ)) (name child : ℕ) (xs : List Process)
    → lookup name running ≡ some child
    → AreIn running xs
    → let left = keep (λ e. not (e.0 == name && e.1 == child)) xs in
      AreIn (delete name running) left × (count_key name left ≡ 0)
AreIn-delete running name child [] l h = (tt, refl)
AreIn-delete running name child ((k, v) ∷ xs) l h =
    let (kept, none_left) = AreIn-delete running name child xs l h.1 in
    elim (Bool-cases (k == name)) [
      | inl e ↦
          let same : v == child ≡ true =
            ground (arith, h.0, l, ap (λ n. lookup n running) (==→eq k name e)) in
          (ground (arith, e, same, kept), ground (arith, e, same, none_left))
      | inr e ↦ (
        ground (arith, e, kept, h.0, lookup-delete_other k name running e),
        ground (arith, e, none_left),
      )
    ]

pub alive_with-append :
    (alive : List Process) (es fs : List Effect)
    → alive_with alive (es ++ fs) ≡ alive_with (alive_with alive es) fs
alive_with-append alive [] fs = refl
alive_with-append alive (spawned name child ∷ es) fs =
    alive_with-append ((name, child) ∷ alive) es fs
alive_with-append alive (scheduled _ _ ∷ es) fs = alive_with-append alive es fs
alive_with-append alive (terminated _ ∷ es) fs = alive_with-append alive es fs
alive_with-append alive (killed _ ∷ es) fs = alive_with-append alive es fs
alive_with-append alive (finished _ ∷ es) fs = alive_with-append alive es fs

alive_with-terminate_all :
    (alive : List Process) (xs : List (ℕ × ℕ)) → alive_with alive (terminate_all xs) ≡ alive
unfolding terminate_all
alive_with-terminate_all alive [] = refl
alive_with-terminate_all alive (x ∷ xs) = alive_with-terminate_all alive xs

alive_with-killed : (alive : List Process) (cs : List ℕ) → alive_with alive (map killed cs) ≡ alive
alive_with-killed alive [] = refl
alive_with-killed alive (c ∷ cs) = alive_with-killed alive cs

alive_with-finish_if_none :
    (alive : List Process) (cs : List ℕ) (code : ℕ)
    → alive_with alive (finish_if_none cs code) ≡ alive
unfolding finish_if_none
alive_with-finish_if_none alive [] code = refl
alive_with-finish_if_none alive (c ∷ cs) code = refl

-- What an operation makes of the state and of the processes.
abbrev Leaves : List Process → Supervisor × List Effect → Type 0
Leaves alive (s, es) = Tracks s (alive_with alive es)

shutdown-Tracks :
    (s : Supervisor) (code : ℕ) (alive : List Process)
    → Tracks s alive
    → Leaves alive (shutdown s code)
unfolding shutdown
shutdown-Tracks s code alive v =
    if_ind {A = Supervisor × List Effect} (Leaves alive) s.stopping (λ _. v)
      (λ _.
        let same =
          alive_with-append alive (terminate_all s.running)
            (finish_if_none (children s.running) code)
          ∙ ap (λ t. alive_with t (finish_if_none (children s.running) code))
              (alive_with-terminate_all alive s.running)
          ∙ alive_with-finish_if_none alive (children s.running) code in
        record {
          lone = λ name. subst (λ t. count_key name t ≤ 1) (sym same) (v.lone name);
          known = λ h. absurd (ground (arith, h));
        })

schedule_restart-Tracks :
    (s : Supervisor) (service : Service) (b : Backoff) (uptime : ℕ) (alive : List Process)
    → Tracks s alive
    → Leaves alive (schedule_restart s service b uptime)
unfolding schedule_restart
schedule_restart-Tracks s service b uptime alive v = record { lone = v.lone; known = v.known }

pub start-Tracks :
    (s : Supervisor) (service : Service) (spawns : Bool) (alive : List Process)
    → Tracks s alive
    → count_key service.name alive ≡ 0
    → Leaves alive (start s service spawns)
unfolding start start_failed
start-Tracks s service true alive v h = record {
  lone =
      λ name. ground (arith, v.lone name, h, ==→eq service.name name, ap (λ n. count_key n alive));
  known = λ e. (
    ground (arith, lookup-insert service.name service.name (suc s.next_child) s.running),
    AreIn-insert s.running service.name (suc s.next_child) alive h (v.known e),
  );
}
start-Tracks s service false alive v h = by_exit service.on_exit
  where
    by_exit :
        (e : OnExit)
        → Leaves alive (elim e as (λ _. Supervisor × List Effect) [
          | stop_all ↦ shutdown s 1
          | restart backoff except ↦ schedule_restart s service backoff 0
        ])
    by_exit stop_all = shutdown-Tracks s 1 alive v
    by_exit (restart b except) = schedule_restart-Tracks s service b 0 alive v

exit_for_good-Tracks :
    (s : Supervisor) (service : Service) (code uptime : ℕ) (alive : List Process)
    → Tracks s alive
    → Leaves alive (exit_for_good s service code uptime)
unfolding exit_for_good
exit_for_good-Tracks s service code uptime alive v = by_exit service.on_exit
  where
    by_exit :
        (e : OnExit)
        → Leaves alive (elim e as (λ _. Supervisor × List Effect) [
          | stop_all ↦ shutdown s (code_or_one code)
          | restart backoff except ↦
              if is_code code except then (s, []) else schedule_restart s service backoff uptime
        ])
    by_exit stop_all = shutdown-Tracks s (code_or_one code) alive v
    by_exit (restart b except) =
        if_ind {A = Supervisor × List Effect} (Leaves alive) (is_code code except) (λ _. v)
          (λ _. schedule_restart-Tracks s service b uptime alive v)

keep-Tracks :
    (s : Supervisor) (p : Process → Bool) (alive : List Process)
    → Tracks s alive
    → Tracks s (keep p alive)
keep-Tracks s p alive v = record {
  lone = λ name. omega (arith, v.lone name, count_key-keep-le name p alive);
  known = λ e. AreIn-keep s.running p alive (v.known e);
}

-- The service of a process that has exited has no process alive.
on_exit-Tracks :
    (s : Supervisor) (service : Service) (child code uptime : ℕ) (spawns : Bool)
    (alive : List Process)
    → Tracks s alive
    → Leaves
        (survivors (exits service child code uptime spawns) alive)
        (on_exit s service child code uptime spawns)
unfolding on_exit
on_exit-Tracks s service child code uptime spawns alive v =
    let left = survivors (exits service child code uptime spawns) alive in
    let gone : Supervisor = record s { running = delete service.name s.running } in
    let kept = keep-Tracks s (λ e. not (e.0 == service.name && e.1 == child)) alive v in
    let forgiven : Supervisor = record gone { failures = delete service.name s.failures } in
    if_ind {A = Supervisor × List Effect} (Leaves left)
      (not (is_code child (lookup service.name s.running))) (λ _. kept)
      (λ mine.
        if_ind {A = Supervisor × List Effect} (Leaves left) s.stopping
          (λ h. record { lone = kept.lone; known = λ e. absurd (ground (arith, h, e)) })
          (λ h.
            let its : lookup service.name s.running ≡ some child = ground (arith, mine) in
            let (known, none_left) =
              AreIn-delete s.running service.name child alive its (v.known h) in
            if_ind {A = Supervisor × List Effect} (Leaves left)
              (is_code code service.restart_at_once_on)
              (λ _.
                start-Tracks forgiven service spawns left
                  (record { lone = kept.lone; known = λ e. known }) none_left)
              (λ _.
                exit_for_good-Tracks gone service code uptime left
                  (record { lone = kept.lone; known = λ e. known }))))

on_timer-Tracks :
    (s : Supervisor) (name : ℕ) (spawns : Bool) (alive : List Process)
    → IsSingle s
    → Tracks s alive
    → Leaves alive (on_timer s name spawns)
unfolding on_timer
on_timer-Tracks s name spawns alive single v = elim (Option-cases (lookup name s.restart_timers)) [
  | inl e ↦ rw (e, on_timer) v
  | inr (service, e) ↦
      let gone : Supervisor = record s { restart_timers = delete name s.restart_timers } in
      let fired = fired-IsSingle s name service e single in
      let its = lookup-IsNamed name service s.restart_timers single.named e in
      rw (e, on_timer)
        (if_ind {A = Supervisor × List Effect} (Leaves alive) s.stopping
          (λ h. record { lone = v.lone; known = λ f. absurd (ground (arith, h, f)) })
          (λ h.
            start-Tracks gone service spawns alive (record { lone = v.lone; known = v.known })
              (AreIn-absent s.running service.name alive
                (omega (arith, ap (λ n. presence n gone) its, fired.1)) (v.known h))))
]

-- The operations of a stop change neither what runs nor what is alive.
step_stop-Tracks :
    (s t : Supervisor) (alive : List Process) (es : List Effect)
    → t.running ≡ s.running
    → t.stopping ≡ s.stopping
    → alive_with alive es ≡ alive
    → Tracks s alive
    → Leaves alive (t, es)
step_stop-Tracks s t alive es h k l v = record {
  lone = λ name. subst (λ a. count_key name a ≤ 1) (sym l) (v.lone name);
  known = λ e.
      subst (AreIn t.running) (sym l) (subst (λ r. AreIn r alive) (sym h) (v.known (sym k ∙ e)));
}

pub step-Tracks :
    (s : Supervisor) (op : Operation) (alive : List Process)
    → IsSingle s
    → Tracks s alive
    → Leaves (survivors op alive) (step s op)
unfolding step on_stopped on_stop_timeout
step-Tracks s (exits service child code uptime spawns) alive single v =
    on_exit-Tracks s service child code uptime spawns alive v
step-Tracks s (fires name spawns) alive single v = on_timer-Tracks s name spawns alive single v
step-Tracks s signals alive single v = shutdown-Tracks s 0 alive v
step-Tracks s stop_times_out alive single v = waits s.waiting
  where
    waits :
        (cs : List ℕ)
        → Leaves alive (elim cs as (λ _. Supervisor × List Effect) [
          | [] ↦ (s, [])
          | _ ↦ (record s { waiting = [] }, map killed s.told ++ finished s.exit_code ∷ [])
        ])
    waits [] = v
    waits (c ∷ cs) =
        step_stop-Tracks s (record s { waiting = [] }) alive
          (map killed s.told ++ finished s.exit_code ∷ []) refl refl
          (alive_with-append alive (map killed s.told) (finished s.exit_code ∷ [])
            ∙ alive_with-killed alive s.told)
          v
step-Tracks s (stops child) alive single v = waits s.waiting
  where
    waits :
        (cs : List ℕ)
        → Leaves (survivors (stops child) alive) (elim cs as (λ _. Supervisor × List Effect) [
          | [] ↦ (s, [])
          | _ ↦ (
            record s { waiting = keep (λ c. not (c == child)) s.waiting },
            finish_if_none (keep (λ c. not (c == child)) s.waiting) s.exit_code,
          )
        ])
    waits [] = keep-Tracks s (λ e. not (e.1 == child)) alive v
    waits (c ∷ cs) =
        step_stop-Tracks s (record s { waiting = keep (λ c. not (c == child)) s.waiting })
          (survivors (stops child) alive)
          (finish_if_none (keep (λ c. not (c == child)) s.waiting) s.exit_code) refl refl
          (alive_with-finish_if_none (survivors (stops child) alive)
            (keep (λ c. not (c == child)) s.waiting) s.exit_code)
          (keep-Tracks s (λ e. not (e.1 == child)) alive v)
