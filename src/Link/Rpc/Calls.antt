-- ===== src/Link/Rpc/Calls.antt =====
-- rpc.ts: outbound calls and notifications, and giving a call up.
use reins.Base.{
  ℕ, suc, Bool, true, false, Option, none, some, List, [], ◌∷◌, ◌++◌, Text, text, decimal, leb, ltb,
  ◌==◌, if◌then◌else◌, length, lookup, delete, any, tail,
}
use reins.Link.Rpc.Effects.{
  unavailable, frame_too_large, max_in_flight, max_expired, Failure, failure, not_connected, Schema,
  Message, request, notification, Effect, wrote, rejected, refused, settled, Options, Peer, Sent,
  sent, too_large, broken, send, fail,
}

abbrev pub over_cap : {V : Type 0} → ℕ → Failure V
over_cap cap =
    failure frame_too_large (text "Frame exceeds " ++ (decimal cap ++ text " bytes")) false

-- The write of a request that has been entered in `pending`, and what its failure undoes.
unfoldable pub dispatch :
    {V : Type 0} → Options V → Peer V → ℕ → Message V → Sent → Peer V × List (Effect V)
dispatch o p id message sent = (p, wrote message ∷ [])
dispatch o p id message too_large = (
  record p { pending = delete id p.pending },
  settled id ∷ rejected id (over_cap o.max_frame_bytes) ∷ [],
)
dispatch o p id message broken =
    let (q, effects) = fail o (record p { pending = delete id p.pending }) in
    (
      q,
      settled id
          ∷ rejected id (failure unavailable (text "Send failed; outcome unknown") true)
          ∷ effects,
    )

-- The request that a call adds under a new id.
unfoldable pub enter : {V : Type 0} → Peer V → Schema V → Option (Schema V) → Peer V
enter p schema error_data = record p {
  next_id = suc p.next_id;
  pending = p.pending ++ (suc p.next_id, record { schema = schema; error_data = error_data }) ∷ [];
}

-- `call`. The abort signal has fired if `aborted`.
unfoldable pub call :
    {V : Type 0}
    → Options V
    → Peer V
    → Text
    → V
    → Schema V
    → Option (Schema V)
    → (aborted socket_ok : Bool) → Peer V × List (Effect V)
call o p method params schema error_data aborted socket_ok =
    if p.closed
    then (p, refused (not_connected (text "Connection closed")) ∷ [])
    else if leb max_in_flight (length p.pending)
    then (p, refused (failure unavailable (text "Too many in-flight calls") false) ∷ [])
    else if aborted
    then (p, refused (failure unavailable (text "Call aborted before sending") false) ∷ [])
    else dispatch o (enter p schema error_data) (suc p.next_id)
        (request (suc p.next_id) method params)
        (send o (request (suc p.next_id) method params) socket_ok)

-- `Set.add`, and the drop of the oldest member past the bound.
unfoldable pub expire : ℕ → List ℕ → List ℕ
expire id expired =
    let grown = if any (λ k. k == id) expired then expired else expired ++ id ∷ [] in
    if ltb max_expired (length grown) then tail grown else grown

-- `abandon`: the call's timer or its abort signal fired, which `why` says.
unfoldable pub abandon : {V : Type 0} → Peer V → ℕ → Text → Peer V × List (Effect V)
abandon p id why = elim (lookup id p.pending) [
  | none ↦ (p, [])
  | some _ ↦ (
    record p { pending = delete id p.pending; expired = expire id p.expired },
    settled id ∷ rejected id (failure unavailable (why ++ text "; outcome unknown") true) ∷ [],
  )
]

-- The end of `notify`, with its result.
unfoldable pub after_notify :
    {V : Type 0} → Options V → Peer V → Message V → Sent → Peer V × List (Effect V) × Bool
after_notify o p message sent = (p, wrote message ∷ [], true)
after_notify o p message too_large = (p, [], false)
after_notify o p message broken = let (q, effects) = fail o p in (q, effects, false)

unfoldable pub notify :
    {V : Type 0} → Options V → Peer V → Text → V → Bool → Peer V × List (Effect V) × Bool
notify o p method params socket_ok =
    if p.closed
    then (p, [], false)
    else after_notify o p (notification method params)
        (send o (notification method params) socket_ok)
