-- ===== src/AppClient/Connection.antt =====
-- ws-client.ts: the class `AppClient`. A delay is counted in sixteenths of a millisecond, in which each
-- delay that the client reaches is whole. The listeners and subscribers are effects.
use reins.Base.{ℕ, ◌*◌, ◌/◌, min, Bool, true, false, ◌&&◌, List, [], ◌∷◌, ◌++◌, if◌then◌else◌}

abbrev pub initial_delay : ℕ
initial_delay = 16000

abbrev pub max_reconnect_delay : ℕ
max_reconnect_delay = 160000

-- `socket` and the timers say whether there is one.
pub record Client : Type 0 where
  pub socket : Bool
  pub reconnect_timer : Bool
  pub reconnect_delay : ℕ
  pub connected : Bool
  pub heartbeat_interval : Bool
  pub heartbeat_timeout : Bool

pub data Effect (M : Type 0) : Type 0 where
  opens_socket closes_socket sends_ping : Effect M
  waits : (delay : ℕ) → Effect M
  tells_connected : Bool → Effect M
  publishes : M → Effect M

-- What arrives: a frame that is no JSON is ignored.
pub data Inbound (M : Type 0) : Type 0 where
  malformed pong : Inbound M
  message : M → Inbound M

unfoldable pub create : Client
create = record {
  socket = false;
  reconnect_timer = false;
  reconnect_delay = initial_delay;
  connected = false;
  heartbeat_interval = false;
  heartbeat_timeout = false;
}

unfoldable pub stop_heartbeat : Client → Client
stop_heartbeat c = record c { heartbeat_interval = false; heartbeat_timeout = false }

unfoldable pub start_heartbeat : Client → Client
start_heartbeat c = record c { heartbeat_interval = true; heartbeat_timeout = false }

module _ {M : Type 0} where
  -- `setConnected`: the listeners hear of a change.
  unfoldable pub set_connected : Bool → Client → Client × List (Effect M)
  set_connected true c =
      (record c { connected = true }, if c.connected then [] else tells_connected true ∷ [])
  set_connected false c =
      (record c { connected = false }, if c.connected then tells_connected false ∷ [] else [])

  unfoldable pub create_socket : Client → Client × List (Effect M)
  create_socket c = (record c { socket = true }, opens_socket ∷ [])

  unfoldable pub connect : Client → Client × List (Effect M)
  connect c = if c.socket then (c, []) else create_socket c

  unfoldable pub disconnect : Client → Client × List (Effect M)
  disconnect c =
      let idle = record (stop_heartbeat c) { reconnect_timer = false; socket = false } in
      let (d, es) = set_connected false idle in
      (d, (if c.socket then closes_socket ∷ [] else []) ++ es)

  -- `onopen`.
  unfoldable pub on_open : Client → Client × List (Effect M)
  on_open c =
      let (d, es) = set_connected true (record c { reconnect_delay = initial_delay }) in
      (start_heartbeat d, es)

  unfoldable pub schedule_reconnect : Client → Client × List (Effect M)
  schedule_reconnect c = if c.reconnect_timer then (c, []) else (
    record c {
      reconnect_timer = true;
      reconnect_delay = min (c.reconnect_delay * 3 / 2) max_reconnect_delay;
    },
    waits c.reconnect_delay ∷ [],
  )

  -- `onclose`.
  unfoldable pub on_close : Client → Client × List (Effect M)
  on_close c =
      let (d, es) = set_connected false (stop_heartbeat (record c { socket = false })) in
      let (e, fs) = schedule_reconnect d in (e, es ++ fs)

  -- `onmessage`.
  unfoldable pub on_message : Client → Inbound M → Client × List (Effect M)
  on_message c malformed = (c, [])
  on_message c pong = (record c { heartbeat_timeout = false }, [])
  on_message c (message m) = (c, publishes m ∷ [])

  -- The interval of `startHeartbeat`; `is_open` is the state of the socket. The time-out is shorter than
  -- the interval, so that of the ping before has fired or was cleared.
  unfoldable pub on_interval : Client → Bool → Client × List (Effect M)
  on_interval c is_open =
      if c.socket && is_open
      then (record c { heartbeat_timeout = true }, sends_ping ∷ [])
      else (c, [])

  -- The time-out of a ping.
  unfoldable pub on_timeout : Client → Client × List (Effect M)
  on_timeout c =
      (record c { heartbeat_timeout = false }, if c.socket then closes_socket ∷ [] else [])

  -- The timer of `scheduleReconnect`.
  unfoldable pub on_reconnect : Client → Client × List (Effect M)
  on_reconnect c = create_socket (record c { reconnect_timer = false })

pub data Operation (M : Type 0) : Type 0 where
  connects disconnects opened closed timed_out reconnects : Operation M
  receives : Inbound M → Operation M
  ticks : Bool → Operation M

unfoldable pub step : {M : Type 0} → Client → Operation M → Client × List (Effect M)
step c connects = connect c
step c disconnects = disconnect c
step c opened = on_open c
step c closed = on_close c
step c timed_out = on_timeout c
step c reconnects = on_reconnect c
step c (receives m) = on_message c m
step c (ticks is_open) = on_interval c is_open
