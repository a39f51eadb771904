-- ===== src/Supervisor/Stopping.antt =====
-- supervisor.ts: a stop is final and ends.
use reins.Base.{
  ℕ, suc, ◌+◌, ◌≡◌, refl, sym, ap, subst, true, false, not, List, [], ◌∷◌, ◌++◌, ◌==◌, lookup, All,
  All-append, inl, inr, ◌⊎◌, arith, map, keep,
}
use reins.Supervisor.Process.{
  Supervisor, Effect, spawned, scheduled, terminated, killed, finished, terminate_all, children,
  finish_if_none, shutdown, on_exit, on_timer, on_stopped, on_stop_timeout, Operation, exits, fires,
  signals, stop_times_out, stops, step, run,
}

-- An effect that starts no process, now or later.
abbrev pub IsQuiet : Effect → Type 0
IsQuiet (spawned name child) = ⊥
IsQuiet (scheduled name delay) = ⊥
IsQuiet _ = Unit

abbrev pub IsStopped : Supervisor → Type 0
IsStopped s = (s.stopping ≡ true) × (s.running ≡ []) × (s.restart_timers ≡ [])

-- How often the supervisor ends.
abbrev pub endings : List Effect → ℕ
endings [] = 0
endings (finished code ∷ es) = suc (endings es)
endings (_ ∷ es) = endings es

-- Whether it still waits for a child.
abbrev pub pending : List ℕ → ℕ
pending [] = 0
pending (c ∷ cs) = 1

endings-append : (es fs : List Effect) → endings (es ++ fs) ≡ endings es + endings fs
endings-append [] fs = omega arith
endings-append (spawned a b ∷ es) fs = endings-append es fs
endings-append (scheduled a b ∷ es) fs = endings-append es fs
endings-append (terminated a ∷ es) fs = endings-append es fs
endings-append (killed a ∷ es) fs = endings-append es fs
endings-append (finished a ∷ es) fs = omega (arith, endings-append es fs)

endings-killed : (cs : List ℕ) → endings (map killed cs) ≡ 0
endings-killed [] = refl
endings-killed (c ∷ cs) = endings-killed cs

killed-IsQuiet : (cs : List ℕ) → All IsQuiet (map killed cs)
killed-IsQuiet [] = tt
killed-IsQuiet (c ∷ cs) = (tt, killed-IsQuiet cs)

endings-terminate_all : (xs : List (ℕ × ℕ)) → endings (terminate_all xs) ≡ 0
unfolding terminate_all
endings-terminate_all [] = refl
endings-terminate_all (x ∷ xs) = endings-terminate_all xs

endings-finish_if_none :
    (cs : List ℕ) (code : ℕ) → endings (finish_if_none cs code) + pending cs ≡ 1
unfolding finish_if_none
endings-finish_if_none [] code = refl
endings-finish_if_none (c ∷ cs) code = refl

finish_if_none-IsQuiet : (cs : List ℕ) (code : ℕ) → All IsQuiet (finish_if_none cs code)
unfolding finish_if_none
finish_if_none-IsQuiet [] code = (tt, tt)
finish_if_none-IsQuiet (c ∷ cs) code = tt

-- A step of a stopped supervisor starts nothing, and ends it if it gives up the last child.
abbrev Keeps : Supervisor → Supervisor × List Effect → Type 0
Keeps s (q, es) =
    IsStopped q × All IsQuiet es × (endings es + pending q.waiting ≡ pending s.waiting)

same-Keeps : (s : Supervisor) → IsStopped s → Keeps s (s, [])
same-Keeps s h = (h, tt, omega arith)

idle-Keeps : (s : Supervisor) (q : Supervisor × List Effect) → q ≡ (s, []) → IsStopped s → Keeps s q
idle-Keeps s q e h = subst (Keeps s) (sym e) (same-Keeps s h)

waiting-cases : (cs : List ℕ) → (cs ≡ []) ⊎ ((c : ℕ) × (rest : List ℕ) × (cs ≡ c ∷ rest))
waiting-cases [] = inl refl
waiting-cases (c ∷ cs) = inr (c, cs, refl)

on_stopped-Keeps : (s : Supervisor) (child : ℕ) → IsStopped s → Keeps s (on_stopped s child)
unfolding on_stopped
on_stopped-Keeps s child h = elim (waiting-cases s.waiting) [
  | inl e ↦ idle-Keeps s (on_stopped s child) (ground (arith, e)) h
  | inr (c, cs, e) ↦
      let left = keep (λ d. not (d == child)) s.waiting in
      rw (e, on_stopped)
        (h, finish_if_none-IsQuiet left s.exit_code, endings-finish_if_none left s.exit_code)
]

on_stop_timeout-Keeps : (s : Supervisor) → IsStopped s → Keeps s (on_stop_timeout s)
unfolding on_stop_timeout
on_stop_timeout-Keeps s h = elim (waiting-cases s.waiting) [
  | inl e ↦ idle-Keeps s (on_stop_timeout s) (ground (arith, e)) h
  | inr (c, cs, e) ↦
      rw (e, on_stop_timeout)
        (
          h,
          All-append IsQuiet (map killed s.told) (finished s.exit_code ∷ []) (killed-IsQuiet s.told)
              (tt, tt),
          ground (
            arith,
            endings-append (map killed s.told) (finished s.exit_code ∷ []),
            endings-killed s.told,
          ),
        )
]

step-Keeps : (s : Supervisor) (op : Operation) → IsStopped s → Keeps s (step s op)
unfolding step
step-Keeps s (exits service child code uptime spawns) h =
    idle-Keeps s (on_exit s service child code uptime spawns)
      (unfold on_exit in ground (arith, ap (lookup service.name) h.1)) h
step-Keeps s (fires name spawns) h =
    idle-Keeps s (on_timer s name spawns) (unfold on_timer in ground (arith, ap (lookup name) h.2))
      h
step-Keeps s signals h = idle-Keeps s (shutdown s 0) (unfold shutdown in ground (arith, h.0)) h
step-Keeps s stop_times_out h = on_stop_timeout-Keeps s h
step-Keeps s (stops child) h = on_stopped-Keeps s child h

run-Keeps : (s : Supervisor) (ops : List Operation) → IsStopped s → Keeps s (run s ops)
unfolding run
run-Keeps s [] h = same-Keeps s h
run-Keeps s (op ∷ ops) h =
    let one = step-Keeps s op h in
    let rest = run-Keeps (step s op).0 ops one.0 in
    (
      rest.0,
      All-append IsQuiet (step s op).1 (run (step s op).0 ops).1 one.1 rest.1,
      omega (arith, endings-append (step s op).1 (run (step s op).0 ops).1, one.2, rest.2),
    )

unfoldable halted : Supervisor → ℕ → Supervisor
halted s code = record s {
  stopping = true;
  restart_timers = [];
  running = [];
  told = children s.running;
  waiting = children s.running;
  exit_code = code;
}

-- When a supervisor that was not stopping shuts down, then whatever happens afterwards it starts no
-- process and schedules no start, and it ends exactly once or still waits for a child.
pub run-shutdown :
    (s : Supervisor) (code : ℕ) (ops : List Operation)
    → s.stopping ≡ false
    → let (q, es) = shutdown s code in
      let (final, fs) = run q ops in
      (final.stopping ≡ true) × All IsQuiet fs × (endings (es ++ fs) + pending final.waiting ≡ 1)
unfolding shutdown halted
run-shutdown s code ops h =
    let rest = run-Keeps (halted s code) ops (refl, refl, refl) in
    let es = terminate_all s.running ++ finish_if_none (children s.running) code in
    rw (h, shutdown)
      (
        rest.0.0,
        rest.1,
        omega (
          arith,
          endings-append es (run (halted s code) ops).1,
          endings-append (terminate_all s.running) (finish_if_none (children s.running) code),
          endings-terminate_all s.running,
          endings-finish_if_none (children s.running) code,
          rest.2,
        ),
      )
