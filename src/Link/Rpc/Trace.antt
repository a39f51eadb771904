-- ===== src/Link/Rpc/Trace.antt =====
-- rpc.ts: the operations on a peer as one step, and a run of them from `createRpcPeer`.
use reins.Base.{ℕ, Bool, Option, none, some, List, [], ◌∷◌, ◌++◌, Text, if◌then◌else◌}
use reins.Link.Rpc.Effects.{Schema, Effect, HeartbeatOptions, Options, Peer, fail}
use reins.Link.Rpc.Calls.{call, abandon, notify}
use reins.Link.Rpc.Heartbeat.{beat}
use reins.Link.Rpc.Inbound.{Frame, Outcome, receive, finish}

pub data Operation (V : Type 0) : Type 0 where
  calls : Text → V → Schema V → Option (Schema V) → (aborted socket_ok : Bool) → Operation V
  abandons : ℕ → Text → Operation V
  notifies : Text → V → Bool → Operation V
  receives : Frame V → Bool → Operation V
  beats : Bool → Operation V
  finishes : V → Schema V → Outcome V → (socket_ok retry_ok : Bool) → Operation V
  closes : Operation V

-- The interval runs if the options ask for one, until `fail` clears it.
unfoldable pub tick :
    {V : Type 0} → Options V → Option HeartbeatOptions → Peer V → Bool → Peer V × List (Effect V)
tick o none p socket_ok = (p, [])
tick o (some h) p socket_ok = if p.closed then (p, []) else beat o h p socket_ok

unfoldable pub step : {V : Type 0} → Options V → Peer V → Operation V → Peer V × List (Effect V)
step o p (calls method params schema error_data aborted socket_ok) =
    call o p method params schema error_data aborted socket_ok
step o p (abandons id why) = abandon p id why
step o p (notifies method params socket_ok) =
    let (q, effects, _) = notify o p method params socket_ok in (q, effects)
step o p (receives frame socket_ok) = receive o p frame socket_ok
step o p (beats socket_ok) = tick o o.heartbeat p socket_ok
step o p (finishes id schema outcome socket_ok retry_ok) =
    finish o p id schema outcome socket_ok retry_ok
step o p closes = fail o p

unfoldable pub run :
    {V : Type 0} → Options V → Peer V → List (Operation V) → Peer V × List (Effect V)
run o p [] = (p, [])
run o p (op ∷ ops) =
    let (q, effects) = step o p op in let (r, more) = run o q ops in (r, effects ++ more)
