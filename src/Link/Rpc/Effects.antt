-- ===== src/Link/Rpc/Effects.antt =====
-- rpc.ts: the peer's state, its messages and effects, `send` and `fail`.
use reins.Base.{
  ℕ, Bool, true, false, Option, none, some, List, [], ◌∷◌, ◌++◌, Text, text, ltb, if◌then◌else◌,
}

-- A code on the wire is a negative number, given by its absolute value; `other` is any positive one.
pub data Code : Type 0 where
  unavailable : Code
  minus other : ℕ → Code

abbrev pub method_not_found : Code
method_not_found = minus 32601

abbrev pub invalid_params : Code
invalid_params = minus 32602

abbrev pub internal_error : Code
internal_error = minus 32603

abbrev pub busy : Code
busy = minus 32002

abbrev pub frame_too_large : Code
frame_too_large = minus 32004

abbrev pub max_in_flight : ℕ
max_in_flight = 64

abbrev pub max_error_message : ℕ
max_error_message = 2048

abbrev pub max_error_data_bytes : ℕ
max_error_data_bytes = 8192

abbrev pub max_expired : ℕ
max_expired = 1024

-- `RpcFailure`; `unknown` is its outcome. `connected` is false for the subclass `NotConnected`.
pub record Failure (V : Type 0) : Type 0 where
  pub code : Code
  pub message : Text
  pub unknown : Bool
  pub detail : Option V
  pub connected : Bool

abbrev pub failure : {V : Type 0} → Code → Text → Bool → Failure V
failure code message unknown = record {
  code = code;
  message = message;
  unknown = unknown;
  detail = none;
  connected = true;
}

abbrev pub not_connected : {V : Type 0} → Text → Failure V
not_connected message = record {
  code = unavailable;
  message = message;
  unknown = false;
  detail = none;
  connected = false;
}

-- What a zod schema does with a value: `safeParse`.
abbrev pub Schema : Type 0 → Type 0
Schema V = V → Option V

pub record Call (V : Type 0) : Type 0 where
  pub schema : Schema V
  pub error_data : Option (Schema V)

-- What the peer sends. A request's id is the number in `rpc-<n>`; a reply carries the caller's id.
pub data Message (V : Type 0) : Type 0 where
  request : ℕ → Text → V → Message V
  notification : Text → V → Message V
  ping : Message V
  result : V → V → Message V
  error : V → Code → Text → Option V → Message V

-- What happens outside the peer. `resolved n raw` is `resolve(schema.parse(raw))` for call `rpc-<n>`;
-- `stranded` is that parse throwing out of `receive`, `threw` any other exception to the caller.
-- `queued`: a request has a place; its handler starts in a microtask after `receive`, also if the
-- peer has closed by then.
pub data Effect (V : Type 0) : Type 0 where
  wrote : Message V → Effect V
  resolved : ℕ → V → Effect V
  rejected : ℕ → Failure V → Effect V
  refused : Failure V → Effect V
  settled : ℕ → Effect V
  stranded : ℕ → Effect V
  queued : V → Text → V → Effect V
  notified : Text → V → Effect V
  dropped : Text → Effect V
  beat_cleared socket_closed threw : Effect V

pub record HeartbeatOptions : Type 0 where
  pub interval_ms : ℕ
  pub missed_intervals : ℕ

pub data Handler (V : Type 0) : Type 0 where
  answers : (params result : Schema V) → Handler V
  listens : (params : Schema V) → Handler V

-- The peer's arguments. The sizes are those of the UTF-8 of the JSON text.
pub record Options (V : Type 0) : Type 0 where
  pub max_frame_bytes : ℕ
  pub heartbeat : Option HeartbeatOptions
  pub handlers : Text → Option (Handler V)
  pub frame_bytes : Message V → ℕ
  pub value_bytes : V → ℕ

pub record Peer (V : Type 0) : Type 0 where
  pub closed : Bool
  pub heard : Bool
  pub missed : ℕ
  pub next_id : ℕ
  pub inbound : ℕ
  pub pending : List (ℕ × Call V)
  pub expired : List ℕ

unfoldable pub create : {V : Type 0} → Peer V
create = record {
  closed = false;
  heard = true;
  missed = 0;
  next_id = 0;
  inbound = 0;
  pending = [];
  expired = [];
}

-- How a write ends: the cap refuses it (an `RpcFailure`), the socket throws, or it is written.
pub data Sent : Type 0 where
  sent too_large broken : Sent

-- `socket_ok` says whether `socket.send` returns.
unfoldable pub send : {V : Type 0} → Options V → Message V → Bool → Sent
send o message socket_ok =
    if ltb o.max_frame_bytes (o.frame_bytes message)
    then too_large
    else if socket_ok
    then sent
    else broken

abbrev pub connection_closed : {V : Type 0} → Failure V
connection_closed = failure unavailable (text "Connection closed; outcome unknown") true

-- The loop of `fail` over the calls in flight.
unfoldable pub reject_all : {V : Type 0} → List (ℕ × Call V) → List (Effect V)
reject_all [] = []
reject_all ((id, call) ∷ calls) = settled id ∷ rejected id connection_closed ∷ reject_all calls

abbrev pub clear_beat : {V : Type 0} → Option HeartbeatOptions → List (Effect V)
clear_beat none = []
clear_beat (some _) = beat_cleared ∷ []

unfoldable pub fail : {V : Type 0} → Options V → Peer V → Peer V × List (Effect V)
fail o p = if p.closed then (p, []) else (
  record p { closed = true; pending = [] },
  clear_beat o.heartbeat ++ (reject_all p.pending ++ socket_closed ∷ []),
)
