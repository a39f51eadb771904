-- ===== src/AppClient/Reachable.antt =====
-- ws-client.ts: which states a client reaches.
use reins.Base.{ℕ, ◌+◌, ◌≡◌, ◌≤◌, refl, Bool, true, false, arith}
use reins.AppClient.Connection.{
  Client, Operation, connects, disconnects, opened, closed, timed_out, reconnects, receives, ticks,
  malformed, pong, message, create, connect, disconnect, on_open, on_close, on_message, on_interval,
  on_timeout, on_reconnect, step, set_connected, stop_heartbeat, start_heartbeat, create_socket,
  schedule_reconnect, initial_delay, max_reconnect_delay,
}

-- What has to hold for an operation to happen: the events of a socket or a timer need it, and the app
-- does not call `connect` while a reconnect is pending.
abbrev pub IsEnabled : {M : Type 0} → Client → Operation M → Type 0
IsEnabled c connects = c.reconnect_timer ≡ false
IsEnabled c disconnects = Unit
IsEnabled c opened = c.socket ≡ true
IsEnabled c closed = c.socket ≡ true
IsEnabled c timed_out = c.heartbeat_timeout ≡ true
IsEnabled c reconnects = c.reconnect_timer ≡ true
IsEnabled c (receives m) = Unit
IsEnabled c (ticks is_open) = c.heartbeat_interval ≡ true

-- Whether the app wants a connection after an operation.
abbrev pub wanted_after : {M : Type 0} → Bool → Operation M → Bool
wanted_after wanted connects = true
wanted_after wanted disconnects = false
wanted_after wanted _ = wanted

-- The states that a client reaches, and whether the app wants a connection there.
pub data Reachable (M : Type 0) : Bool → Client → Type 0 where
  begins : Reachable M false create
  goes_on :
      (wanted : Bool) (c : Client) (op : Operation M)
      → Reachable M wanted c
      → IsEnabled c op
      → Reachable M (wanted_after wanted op) (step c op).0

abbrev pub one_if : Bool → ℕ
one_if true = 1
one_if false = 0

-- A wanted connection has one socket or one pending reconnect, and an unwanted one has neither; a
-- client is connected, and pings, only on a socket; the delay stays between its bounds.
pub record IsSteady (wanted : Bool) (c : Client) : Type 0 where
  pub one_attempt : one_if c.socket + one_if c.reconnect_timer ≡ one_if wanted
  pub on_socket : c.connected ≡ true → c.socket ≡ true
  pub beats : c.heartbeat_interval ≡ c.connected
  pub timeout_beats : c.heartbeat_timeout ≡ true → c.heartbeat_interval ≡ true
  pub at_least : initial_delay ≤ c.reconnect_delay
  pub at_most : c.reconnect_delay ≤ max_reconnect_delay

step-IsSteady :
    {M : Type 0} (wanted : Bool) (c : Client) (op : Operation M)
    → IsEnabled c op
    → IsSteady wanted c
    → IsSteady (wanted_after wanted op) (step c op).0
unfolding step connect disconnect on_open on_close on_message on_interval on_timeout on_reconnect
    set_connected stop_heartbeat start_heartbeat create_socket schedule_reconnect
step-IsSteady wanted c connects e v = ground (arith, e, v)
step-IsSteady wanted c disconnects e v = ground (arith, e, v)
step-IsSteady wanted c opened e v = ground (arith, e, v)
step-IsSteady wanted c closed e v = ground (arith, e, v)
step-IsSteady wanted c timed_out e v = ground (arith, e, v)
step-IsSteady wanted c reconnects e v = ground (arith, e, v)
step-IsSteady wanted c (receives malformed) e v = ground (arith, e, v)
step-IsSteady wanted c (receives pong) e v = ground (arith, e, v)
step-IsSteady wanted c (receives (message m)) e v = ground (arith, e, v)
step-IsSteady wanted c (ticks is_open) e v = ground (arith, e, v)

-- In every state that a client reaches when `connect` is not called during a pending reconnect: if a
-- connection is wanted there is either one socket or one pending reconnect, else neither; it is connected
-- and pings only on its socket; and the next delay is between one and ten seconds.
pub Reachable-IsSteady :
    {M : Type 0} (wanted : Bool) (c : Client) → Reachable M wanted c → IsSteady wanted c
unfolding create
Reachable-IsSteady _ _ begins = record {
  one_attempt = refl;
  on_socket = λ e. absurd (ground arith);
  beats = refl;
  timeout_beats = λ e. absurd (ground arith);
  at_least = omega arith;
  at_most = omega arith;
}
Reachable-IsSteady _ _ (goes_on wanted c op r e) =
    step-IsSteady wanted c op e (Reachable-IsSteady wanted c r)
