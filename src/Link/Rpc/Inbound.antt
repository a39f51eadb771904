-- ===== src/Link/Rpc/Inbound.antt =====
-- rpc.ts: `receive`, and the end of a handler that it queued.
use reins.Base.{
  ℕ, suc, ◌-◌, Bool, true, false, Option, none, some, List, [], ◌∷◌, Text, text, text_eq, leb, ltb,
  ◌==◌, if◌then◌else◌, length, lookup, delete, any, keep, not, take,
}
use reins.Link.Rpc.Effects.{
  Code, unavailable, method_not_found, invalid_params, internal_error, busy, max_in_flight,
  max_error_message, max_error_data_bytes, Failure, failure, Schema, Call, Message, result, error,
  Effect, wrote, resolved, rejected, settled, stranded, queued, notified, dropped, threw, answers,
  listens, Options, Peer, sent, too_large, broken, send, fail,
}
use reins.Link.Rpc.Calls.{over_cap}

pub data Reply (V : Type 0) : Type 0 where
  result_of : V → Reply V
  error_of : Code → Text → Option V → Reply V

-- A parsed frame by the schemas in the order of `receive`. A response's id is `some n` where its text
-- is `rpc-<n>`, and `none` for every other text, under which nothing is ever pending or expired.
pub data Content (V : Type 0) : Type 0 where
  unparsable unknown : Content V
  asks : V → Text → V → Content V
  tells : Text → V → Content V
  replies : Option ℕ → Reply V → Content V

pub data Frame (V : Type 0) : Type 0 where
  binary : Frame V
  chars : (bytes : ℕ) → Content V → Frame V

-- A `send` outside every `try`.
unfoldable pub reply : {V : Type 0} → Options V → Message V → Bool → List (Effect V)
reply o message socket_ok = elim (send o message socket_ok) [
  | sent ↦ wrote message ∷ []
  | _ ↦ threw ∷ []
]

-- A request.
unfoldable pub on_request :
    {V : Type 0} → Options V → Peer V → V → Text → V → Bool → Peer V × List (Effect V)
on_request o p id method params socket_ok = elim (o.handlers method) [
  | some (answers schema _) ↦ elim (schema params) [
    | none ↦ (p, reply o (error id invalid_params (text "Invalid params") none) socket_ok)
    | some parsed ↦
        if leb max_in_flight p.inbound
        then (p, reply o (error id busy (text "Busy") none) socket_ok)
        else (record p { inbound = suc p.inbound }, queued id method parsed ∷ [])
  ]
  | _ ↦ (p, reply o (error id method_not_found (text "Method not found") none) socket_ok)
]

-- A notification.
unfoldable pub on_notification :
    {V : Type 0} → Options V → Peer V → Text → V → Peer V × List (Effect V)
on_notification o p method params =
    if text_eq method (text "node.ping") then (p, []) else elim (o.handlers method) [
      | some (listens schema) ↦ elim (schema params) [
        | none ↦ (p, dropped method ∷ [])
        | some parsed ↦ (p, notified method parsed ∷ [])
      ]
      | _ ↦ (p, dropped method ∷ [])
    ]

-- The error data that a caller gets: `none` if it is too large or does not fit the caller's schema.
unfoldable pub checked_data :
    {V : Type 0} → Options V → Option (Schema V) → Option V → Option (Option V)
checked_data o (some schema) (some detail) =
    if ltb max_error_data_bytes (o.value_bytes detail)
    then none
    else elim (schema detail) [ none ↦ none | some d ↦ some (some d) ]
checked_data o schema detail = some none

-- A reply to the call `id`, which has left `pending`.
unfoldable pub settle_reply :
    {V : Type 0} → Options V → Peer V → ℕ → Call V → Reply V → Peer V × List (Effect V)
settle_reply o p id call (error_of code message detail) =
    let invalid = failure internal_error (text "Invalid error response") false in
    let (q, effects) = fail o p in
    if ltb max_error_message (length message)
    then (q, settled id ∷ rejected id invalid ∷ effects)
    else elim (checked_data o call.error_data detail) [
      | none ↦ (q, settled id ∷ rejected id invalid ∷ effects)
      | some d ↦ (
        p,
        settled id
            ∷ rejected id (record {
              code = code;
              message = message;
              unknown = false;
              detail = d;
              connected = true;
            })
            ∷ [],
      )
    ]
settle_reply o p id call (result_of value) =
    let (q, effects) = fail o p in
    elim (call.schema value) [
      | none ↦ (
        q,
        settled id ∷ rejected id (failure internal_error (text "Invalid response") false) ∷ effects,
      )
      | some checked ↦ elim (call.schema checked) [
        | none ↦ (p, settled id ∷ stranded id ∷ [])
        | some final ↦ (p, settled id ∷ resolved id final ∷ [])
      ]
    ]

-- A response.
unfoldable pub on_response :
    {V : Type 0} → Options V → Peer V → Option ℕ → Reply V → Peer V × List (Effect V)
on_response o p none r = fail o p
on_response o p (some id) r = elim (lookup id p.pending) [
  | some call ↦ settle_reply o (record p { pending = delete id p.pending }) id call r
  | none ↦
      if any (λ k. k == id) p.expired
      then (record p { expired = keep (λ k. not (k == id)) p.expired }, [])
      else fail o p
]

unfoldable pub on_content :
    {V : Type 0} → Options V → Peer V → Content V → Bool → Peer V × List (Effect V)
on_content o p unparsable socket_ok = fail o p
on_content o p unknown socket_ok = fail o p
on_content o p (asks id method params) socket_ok = on_request o p id method params socket_ok
on_content o p (tells method params) socket_ok = on_notification o p method params
on_content o p (replies id r) socket_ok = on_response o p id r

unfoldable pub on_frame :
    {V : Type 0} → Options V → Peer V → Frame V → Bool → Peer V × List (Effect V)
on_frame o p binary socket_ok = fail o p
on_frame o p (chars bytes content) socket_ok =
    if ltb o.max_frame_bytes bytes then fail o p else on_content o p content socket_ok

unfoldable pub receive :
    {V : Type 0} → Options V → Peer V → Frame V → Bool → Peer V × List (Effect V)
receive o p frame socket_ok =
    if p.closed then (p, []) else on_frame o (record p { heard = true }) frame socket_ok

-- How a handler's promise ends; `crashed` is an error that is no `RpcFailure`.
pub data Outcome (V : Type 0) : Type 0 where
  returned : V → Outcome V
  failed : Failure V → Outcome V
  crashed : Outcome V

abbrev pub wire_code : Code → Code
wire_code unavailable = internal_error
wire_code code = code

-- The message of the `catch` clause.
unfoldable pub error_message : {V : Type 0} → Options V → V → Failure V → Message V
error_message o id f = elim f.detail [
  | none ↦ error id (wire_code f.code) (take max_error_message f.message) none
  | some detail ↦
      if ltb max_error_data_bytes (o.value_bytes detail)
      then error id internal_error (text "Internal error") none
      else error id (wire_code f.code) (take max_error_message f.message) (some detail)
]

unfoldable pub answer_failure :
    {V : Type 0} → Options V → Peer V → V → Failure V → Bool → List (Effect V)
answer_failure o p id f socket_ok =
    if p.closed then [] else reply o (error_message o id f) socket_ok

abbrev pub crash : {V : Type 0} → Failure V
crash = failure internal_error (text "Internal error") false

-- The `then`, or the `catch` for what it throws; `retry_ok` is the socket at the second write.
unfoldable pub answer :
    {V : Type 0}
    → Options V
    → Peer V
    → V
    → Schema V
    → Outcome V
    → (socket_ok retry_ok : Bool) → List (Effect V)
answer o p id schema (failed f) socket_ok retry_ok = answer_failure o p id f socket_ok
answer o p id schema crashed socket_ok retry_ok = answer_failure o p id crash socket_ok
answer o p id schema (returned v) socket_ok retry_ok = elim (schema v) [
  | none ↦
      answer_failure o p id (failure internal_error (text "Invalid handler result") false) socket_ok
  | some checked ↦ if p.closed then [] else elim (send o (result id checked) socket_ok) [
    | sent ↦ wrote (result id checked) ∷ []
    | too_large ↦ answer_failure o p id (over_cap o.max_frame_bytes) retry_ok
    | broken ↦ answer_failure o p id crash retry_ok
  ]
]

-- The end of a handler: its answer, and the `finally` that frees its place.
unfoldable pub finish :
    {V : Type 0}
    → Options V
    → Peer V
    → V
    → Schema V
    → Outcome V
    → (socket_ok retry_ok : Bool) → Peer V × List (Effect V)
finish o p id schema outcome socket_ok retry_ok =
    (record p { inbound = p.inbound - 1 }, answer o p id schema outcome socket_ok retry_ok)
