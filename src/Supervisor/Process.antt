-- ===== src/Supervisor/Process.antt =====
-- supervisor.ts: `runSupervisor`. A child is the number of its start. An operation says whether the
-- platform could spawn the process that it starts, and how long a process had been up that exited.
use reins.Base.{
  ℕ, zero, suc, ◌*◌, ◌^◌, min, Bool, true, false, not, Option, none, some, List, [], ◌∷◌, ◌++◌, map,
  leb, ◌==◌, if◌then◌else◌, lookup, insert, delete, keep,
}
use reins.Supervisor.Services.{Backoff, stop_all, restart, Service}

-- `exit_code` is the one once all is to stop, `told` the children that are told to, and `waiting` those
-- of them that have not exited.
pub record Supervisor : Type 0 where
  pub running : List (ℕ × ℕ)
  pub restart_timers : List (ℕ × Service)
  pub failures : List (ℕ × ℕ)
  pub stopping : Bool
  pub next_child : ℕ
  pub told : List ℕ
  pub waiting : List ℕ
  pub exit_code : ℕ

pub data Effect : Type 0 where
  spawned : (name child : ℕ) → Effect
  scheduled : (name delay : ℕ) → Effect
  terminated : (child : ℕ) → Effect
  killed : (child : ℕ) → Effect
  finished : (code : ℕ) → Effect

unfoldable pub create : Supervisor
create = record {
  running = [];
  restart_timers = [];
  failures = [];
  stopping = false;
  next_child = 0;
  told = [];
  waiting = [];
  exit_code = 0;
}

unfoldable pub terminate_all : List (ℕ × ℕ) → List Effect
terminate_all [] = []
terminate_all ((name, child) ∷ xs) = terminated child ∷ terminate_all xs

abbrev pub children : List (ℕ × ℕ) → List ℕ
children [] = []
children ((name, child) ∷ xs) = child ∷ children xs

-- The end of `shutdown` when there is no child left to wait for.
unfoldable pub finish_if_none : List ℕ → ℕ → List Effect
finish_if_none [] code = finished code ∷ []
finish_if_none (c ∷ cs) code = []

-- `shutdown`, with the first part of `stopChildren`.
unfoldable pub shutdown : Supervisor → ℕ → Supervisor × List Effect
shutdown s code = if s.stopping then (s, []) else (
  record s {
    stopping = true;
    restart_timers = [];
    running = [];
    told = children s.running;
    waiting = children s.running;
    exit_code = code;
  },
  terminate_all s.running ++ finish_if_none (children s.running) code,
)

abbrev pub failures_of : ℕ → List (ℕ × ℕ) → ℕ
failures_of name failures = elim (lookup name failures) [ none ↦ 0 | some n ↦ n ]

-- `previous` of `scheduleRestart`.
abbrev pub previous_failures : Supervisor → Service → Backoff → ℕ → ℕ
previous_failures s service backoff uptime =
    if leb backoff.reset_after_ms uptime then 0 else failures_of service.name s.failures

-- `delay` of `scheduleRestart`.
abbrev pub delay_after : Backoff → ℕ → ℕ
delay_after backoff previous = min backoff.max_ms (backoff.initial_ms * 2 ^ previous)

-- `scheduleRestart`.
unfoldable pub schedule_restart : Supervisor → Service → Backoff → ℕ → Supervisor × List Effect
schedule_restart s service backoff uptime =
    let previous = previous_failures s service backoff uptime in
    (
      record s {
        failures = insert service.name (suc previous) s.failures;
        restart_timers = insert service.name service s.restart_timers;
      },
      scheduled service.name (delay_after backoff previous) ∷ [],
    )

-- The `catch` of `start`.
unfoldable pub start_failed : Supervisor → Service → Supervisor × List Effect
start_failed s service = elim service.on_exit [
  | stop_all ↦ shutdown s 1
  | restart backoff except ↦ schedule_restart s service backoff 0
]

-- `start`, and whether the process could be spawned.
unfoldable pub start : Supervisor → Service → Bool → Supervisor × List Effect
start s service spawns = if not spawns then start_failed s service else (
  record s {
    running = insert service.name (suc s.next_child) s.running;
    next_child = suc s.next_child;
  },
  spawned service.name (suc s.next_child) ∷ [],
)

abbrev pub is_code : ℕ → Option ℕ → Bool
is_code code none = false
is_code code (some c) = code == c

abbrev pub code_or_one : ℕ → ℕ
code_or_one zero = 1
code_or_one (suc n) = suc n

-- An exit of the service when it is not one to be restarted at once.
unfoldable pub exit_for_good : Supervisor → Service → (code uptime : ℕ) → Supervisor × List Effect
exit_for_good s service code uptime = elim service.on_exit [
  | stop_all ↦ shutdown s (code_or_one code)
  | restart backoff except ↦
      if is_code code except then (s, []) else schedule_restart s service backoff uptime
]

-- What `start` does when the child has exited.
unfoldable pub on_exit :
    Supervisor → Service → (child code uptime : ℕ) → Bool → Supervisor × List Effect
on_exit s service child code uptime spawns =
    let gone = record s { running = delete service.name s.running } in
    if not (is_code child (lookup service.name s.running))
    then (s, [])
    else if s.stopping
    then (gone, [])
    else if is_code code service.restart_at_once_on
    then start (record gone { failures = delete service.name s.failures }) service spawns
    else exit_for_good gone service code uptime

-- The timer of `scheduleRestart`; it was cleared if it is not in the table.
unfoldable pub on_timer : Supervisor → ℕ → Bool → Supervisor × List Effect
on_timer s name spawns = elim (lookup name s.restart_timers) [
  | none ↦ (s, [])
  | some service ↦
      let fired = record s { restart_timers = delete name s.restart_timers } in
      if s.stopping then (fired, []) else start fired service spawns
]

-- A child that `stopChildren` waits for has exited.
unfoldable pub on_stopped : Supervisor → ℕ → Supervisor × List Effect
on_stopped s child =
    let left = keep (λ c. not (c == child)) s.waiting in
    elim s.waiting [
      | [] ↦ (s, [])
      | _ ↦ (record s { waiting = left }, finish_if_none left s.exit_code)
    ]

-- `CHILD_STOP_TIMEOUT_MS` after the stop.
unfoldable pub on_stop_timeout : Supervisor → Supervisor × List Effect
on_stop_timeout s = elim s.waiting [
  | [] ↦ (s, [])
  | _ ↦ (record s { waiting = [] }, map killed s.told ++ finished s.exit_code ∷ [])
]

pub data Operation : Type 0 where
  exits : Service → (child code uptime : ℕ) → Bool → Operation
  fires : (name : ℕ) → Bool → Operation
  signals stop_times_out : Operation
  stops : (child : ℕ) → Operation

unfoldable pub step : Supervisor → Operation → Supervisor × List Effect
step s (exits service child code uptime spawns) = on_exit s service child code uptime spawns
step s (fires name spawns) = on_timer s name spawns
step s signals = shutdown s 0
step s stop_times_out = on_stop_timeout s
step s (stops child) = on_stopped s child

unfoldable pub run : Supervisor → List Operation → Supervisor × List Effect
run s [] = (s, [])
run s (op ∷ ops) = let (next, es) = step s op in let (final, fs) = run next ops in (final, es ++ fs)

-- The loop that starts the services, each with whether it can be spawned.
unfoldable pub launch : Supervisor → List (Service × Bool) → Supervisor × List Effect
launch s [] = (s, [])
launch s ((service, spawns) ∷ rest) =
    let (next, es) = start s service spawns in
    let (final, fs) = launch next rest in if s.stopping then (s, []) else (final, es ++ fs)
