-- ===== src/Link/Rpc/Evolving.antt =====
-- rpc.ts: how an operation changes the ids that were given up.
use reins.Base.{
  ◌⊎◌, ltb, if_ind, ℕ, suc, ◌≡◌, refl, sym, subst, Bool, true, false, not, Option, none, some, List,
  [], ◌∷◌, Text, arith, lookup, delete, any, ◌==◌, ==_refl, keep, Bool-cases, Option-cases, inl,
  inr,
}
use reins.Link.Rpc.Effects.{
  request, Schema, Call, Message, Effect, HeartbeatOptions, Options, Peer, Sent, sent, too_large,
  broken, send, fail,
}
use reins.Link.Rpc.Calls.{dispatch, enter, call, expire, abandon, after_notify, notify}
use reins.Link.Rpc.Heartbeat.{after_ping, beat}
use reins.Link.Rpc.Inbound.{
  Reply, error_of, result_of, Content, unparsable, unknown, asks, tells, replies, Frame, binary,
  chars, on_request, on_notification, settle_reply, on_response, on_content, on_frame, receive,
  finish,
}
use reins.Link.Rpc.Trace.{
  Operation, calls, abandons, notifies, receives, beats, finishes, closes, tick, step,
}

-- How many calls are given up by some operations.
abbrev pub abandoned : {V : Type 0} → List (Operation V) → ℕ
abandoned [] = 0
abandoned (abandons _ _ ∷ ops) = suc (abandoned ops)
abandoned (_ ∷ ops) = abandoned ops

-- Whether an operation delivers a reply to the call `id`.
abbrev pub is_reply : {V : Type 0} → ℕ → Operation V → Bool
is_reply id (receives (chars bytes (replies (some k) r)) ok) = k == id
is_reply id _ = false

-- How a step changes the ids: not at all, by a call that is given up, or by a late reply.
pub data Evolution {V : Type 0} (p q : Peer V) (op : Operation V) : Type 0 where
  same : q.expired ≡ p.expired → Evolution p q op
  given_up :
      (j : ℕ) (c : Call V)
      → lookup j p.pending ≡ some c
      → q.pending ≡ delete j p.pending
      → q.next_id ≡ p.next_id
      → q.expired ≡ expire j p.expired
      → abandoned (op ∷ []) ≡ 1
      → Evolution p q op
  forgotten :
      (j : ℕ)
      → is_reply j op ≡ true
      → q.expired ≡ keep (λ i. not (i == j)) p.expired
      → Evolution p q op

module _ {V : Type 0} (o : Options V) where
  abbrev Same : Peer V → Peer V → Type 0
  Same p q = q.expired ≡ p.expired

  fail-Same : (p : Peer V) → Same p (fail o p).0
  unfolding fail
  fail-Same p = ground arith

  dispatch-Same : (p : Peer V) (id : ℕ) (m : Message V) (w : Sent) → Same p (dispatch o p id m w).0
  unfolding dispatch
  dispatch-Same p id m sent = refl
  dispatch-Same p id m too_large = refl
  dispatch-Same p id m broken = fail-Same (record p { pending = delete id p.pending })

  call-Same :
      (p : Peer V) (method : Text) (params : V) (s : Schema V) (e : Option (Schema V))
      (aborted ok : Bool)
      → Same p (call o p method params s e aborted ok).0
  unfolding call enter
  call-Same p method params s e aborted ok = ground (
    arith,
    dispatch-Same (enter p s e) (suc p.next_id) (request (suc p.next_id) method params)
        (send o (request (suc p.next_id) method params) ok),
  )

  notify-Same :
      (p : Peer V) (method : Text) (params : V) (ok : Bool) → Same p (notify o p method params ok).0
  unfolding notify after_notify
  notify-Same p method params ok = ground (arith, fail-Same p)

  settle_reply-Same :
      (p : Peer V) (id : ℕ) (c : Call V) (r : Reply V) → Same p (settle_reply o p id c r).0
  unfolding settle_reply
  settle_reply-Same p id c (error_of code message detail) = ground (arith, fail-Same p)
  settle_reply-Same p id c (result_of value) = ground (arith, fail-Same p)

  tick-Same : (h : Option HeartbeatOptions) (p : Peer V) (ok : Bool) → Same p (tick o h p ok).0
  unfolding tick beat after_ping fail
  tick-Same none p ok = refl
  tick-Same (some h) p ok = ground arith

  on_request-Same :
      (p : Peer V) (id : V) (method : Text) (params : V) (ok : Bool)
      → Same p (on_request o p id method params ok).0
  unfolding on_request
  on_request-Same p id method params ok = ground arith

  on_notification-Same :
      (p : Peer V) (method : Text) (params : V) → Same p (on_notification o p method params).0
  unfolding on_notification
  on_notification-Same p method params = ground arith

  -- What a response does to the ids.
  Answered : Peer V → Peer V → Option ℕ → Type 0
  Answered p q id =
      Same p q ⊎ ((j : ℕ) × (id ≡ some j) × (q.expired ≡ keep (λ i. not (i == j)) p.expired))

  on_response-Answered :
      (p : Peer V) (id : Option ℕ) (r : Reply V) → Answered p (on_response o p id r).0 id
  unfolding on_response Answered
  on_response-Answered p none r = inl (fail-Same p)
  on_response-Answered p (some j) r = elim (Option-cases (lookup j p.pending)) [
    | inr (c, e) ↦
        inl (
          rw (e, on_response) (settle_reply-Same (record p { pending = delete j p.pending }) j c r))
    | inl e ↦ elim (Bool-cases (any (λ k. k == j) p.expired)) [
      | inl k ↦ inr (j, refl, rw (e, k, on_response) refl)
      | inr k ↦ inl (rw (e, k, on_response) (fail-Same p))
    ]
  ]

  on_content-Evolution :
      (p : Peer V) (c : Content V) (bytes : ℕ) (ok : Bool)
      → Evolution p (on_content o p c ok).0 (receives (chars bytes c) ok)
  unfolding on_content Answered
  on_content-Evolution p unparsable bytes ok = same (fail-Same p)
  on_content-Evolution p unknown bytes ok = same (fail-Same p)
  on_content-Evolution p (asks id method params) bytes ok =
      same (on_request-Same p id method params ok)
  on_content-Evolution p (tells method params) bytes ok =
      same (on_notification-Same p method params)
  on_content-Evolution p (replies id r) bytes ok = elim (on_response-Answered p id r) [
    | inl e ↦ same e
    | inr (j, e, f) ↦
        forgotten j
          (subst (λ i. is_reply j (receives (chars bytes (replies i r)) ok) ≡ true) (sym e)
            (==_refl j))
          f
  ]

  receive-Evolution :
      (p : Peer V) (f : Frame V) (ok : Bool) → Evolution p (receive o p f ok).0 (receives f ok)
  unfolding receive on_frame
  receive-Evolution p binary ok = same (ground (arith, fail-Same (record p { heard = true })))
  receive-Evolution p (chars bytes c) ok =
      if_ind {A = Peer V × List (Effect V)} (λ q. Evolution p q.0 (receives (chars bytes c) ok))
        p.closed (λ _. same refl)
        (λ _.
          if_ind {A = Peer V × List (Effect V)} (λ q. Evolution p q.0 (receives (chars bytes c) ok))
            (ltb o.max_frame_bytes bytes) (λ _. same (fail-Same (record p { heard = true })))
            (λ _. heard (on_content-Evolution (record p { heard = true }) c bytes ok)))
    where
      heard :
          {q : Peer V} {op : Operation V}
          → Evolution (record p { heard = true }) q op
          → Evolution p q op
      heard (same e) = same e
      heard (given_up j c l d n e z) = given_up j c l d n e z
      heard (forgotten j r e) = forgotten j r e

  pub step-Evolution : (p : Peer V) (op : Operation V) → Evolution p (step o p op).0 op
  unfolding step finish abandon
  step-Evolution p (calls method params s e aborted ok) =
      same (call-Same p method params s e aborted ok)
  step-Evolution p (abandons id why) = elim (Option-cases (lookup id p.pending)) [
    | inl e ↦ same (rw (e, abandon) refl)
    | inr (c, e) ↦ rw (e, abandon) (given_up id c e refl refl refl refl)
  ]
  step-Evolution p (notifies method params ok) = same (notify-Same p method params ok)
  step-Evolution p (receives f ok) = receive-Evolution p f ok
  step-Evolution p (beats ok) = same (tick-Same o.heartbeat p ok)
  step-Evolution p (finishes id s c ok retry) = same refl
  step-Evolution p closes = same (fail-Same p)
