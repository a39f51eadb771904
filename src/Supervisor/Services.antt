-- ===== src/Supervisor/Services.antt =====
-- supervisor.ts: the services and how they are restarted. A service's name is a number here, and its
-- command line, directory and environment are left out: they are passed to the platform unread.
use reins.Base.{ℕ, Option, none, some, List, [], ◌∷◌, Bool, true, false}

pub record Backoff : Type 0 where
  pub initial_ms : ℕ
  pub max_ms : ℕ
  pub reset_after_ms : ℕ

-- What the exit of a service does: stop everything, or restart it unless it exits with a given code.
pub data OnExit : Type 0 where
  stop_all : OnExit
  restart : Backoff → Option ℕ → OnExit

pub record Service : Type 0 where
  pub name : ℕ
  pub restart_at_once_on : Option ℕ
  pub on_exit : OnExit

abbrev pub watcher_restart : Backoff
watcher_restart = record { initial_ms = 1000; max_ms = 1000; reset_after_ms = 0 }

abbrev pub node_restart : Backoff
node_restart = record { initial_ms = 1000; max_ms = 30000; reset_after_ms = 30000 }

abbrev pub server_restart_exit_code : ℕ
server_restart_exit_code = 75

abbrev pub node_reload_exit_code : ℕ
node_reload_exit_code = 75

abbrev pub node_refused_exit_code : ℕ
node_refused_exit_code = 77

abbrev pub server : Service
server = record { name = 0; restart_at_once_on = some server_restart_exit_code; on_exit = stop_all }

abbrev pub node : Service
node = record {
  name = 1;
  restart_at_once_on = some node_reload_exit_code;
  on_exit = restart node_restart (some node_refused_exit_code);
}

abbrev pub watcher : ℕ → Service
watcher name = record {
  name = name;
  restart_at_once_on = none;
  on_exit = restart watcher_restart none;
}

-- `createServices`, in `dev` mode or not: the bundle and the style sheet are watched in `dev`.
unfoldable pub create_services : Bool → List Service
create_services false = server ∷ node ∷ []
create_services true = watcher 2 ∷ watcher 3 ∷ server ∷ node ∷ []
