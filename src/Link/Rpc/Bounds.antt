-- ===== src/Link/Rpc/Bounds.antt =====
-- rpc.ts: what the peer holds is bounded.
use reins.Base.{
  subst, refl, ℕ, suc, ◌≤◌, ◌≡◌, Bool, true, false, Option, none, some, List, [], ◌∷◌, ◌++◌, Text,
  arith, Option-cases, inl, inr, lookup, delete, length, length-append, length-delete-le,
  length-delete_append, length-keep-le, not, ◌==◌, length-tail,
}
use reins.Link.Rpc.Effects.{
  request, Schema, Call, Message, HeartbeatOptions, Options, Peer, Sent, sent, too_large, broken,
  send, fail, create, max_in_flight, max_expired,
}
use reins.Link.Rpc.Flight.{in_flight, run-in_flight}
use reins.Link.Rpc.Calls.{dispatch, enter, call, expire, abandon, after_notify, notify}
use reins.Link.Rpc.Heartbeat.{after_ping, beat}
use reins.Link.Rpc.Inbound.{
  Reply, error_of, result_of, Content, unparsable, unknown, asks, tells, replies, Frame, binary,
  chars, on_request, on_notification, settle_reply, on_response, on_content, on_frame, receive,
  finish,
}
use reins.Link.Rpc.Trace.{
  Operation, calls, abandons, notifies, receives, beats, finishes, closes, tick, step, run,
}

-- The caps on the calls in flight either way and on the remembered ids; a closed peer holds no call.
pub record IsBounded {V : Type 0} (p : Peer V) : Type 0 where
  pub calls_out : length p.pending ≤ max_in_flight
  pub calls_in : p.inbound ≤ max_in_flight
  pub ids : length p.expired ≤ max_expired
  pub closed_empty : p.closed ≡ true → length p.pending ≡ 0

length-expire :
    (id : ℕ) (ids : List ℕ) → length ids ≤ max_expired → length (expire id ids) ≤ max_expired
unfolding expire
length-expire id ids h =
    ground (arith, length-append ids (id ∷ []), length-tail (ids ++ id ∷ []), length-tail ids)

module _ {V : Type 0} where
  fail-IsBounded : (o : Options V) (p : Peer V) → IsBounded p → IsBounded (fail o p).0
  unfolding fail
  fail-IsBounded o p v = ground arith

  dispatch-IsBounded :
      (o : Options V) (p : Peer V) (m : Message V) (s : Schema V) (e : Option (Schema V)) (w : Sent)
      → p.closed ≡ false
      → suc (length p.pending) ≤ max_in_flight
      → IsBounded p
      → IsBounded (dispatch o (enter p s e) (suc p.next_id) m w).0
  unfolding dispatch enter fail
  dispatch-IsBounded o p m s e sent h l v =
      ground (
        arith,
        length-append p.pending ((suc p.next_id, record { schema = s; error_data = e }) ∷ []),
      )
  dispatch-IsBounded o p m s e too_large h l v = ground (
    arith,
    length-delete_append (suc p.next_id) (record { schema = s; error_data = e }) p.pending,
  )
  dispatch-IsBounded o p m s e broken h l v = ground arith

  call-IsBounded :
      (o : Options V) (p : Peer V) (method : Text) (params : V) (s : Schema V)
      (e : Option (Schema V)) (aborted ok : Bool)
      → IsBounded p
      → IsBounded (call o p method params s e aborted ok).0
  unfolding call
  call-IsBounded o p method params s e aborted ok v = ground (
    arith,
    dispatch-IsBounded o p (request (suc p.next_id) method params) s e
        (send o (request (suc p.next_id) method params) ok),
  )

  pub abandon-IsBounded :
      (p : Peer V) (id : ℕ) (why : Text) → IsBounded p → IsBounded (abandon p id why).0
  unfolding abandon
  abandon-IsBounded p id why v =
      ground (arith, length-delete-le id p.pending, length-expire id p.expired)

  notify-IsBounded :
      (o : Options V) (p : Peer V) (method : Text) (params : V) (ok : Bool)
      → IsBounded p
      → IsBounded (notify o p method params ok).0
  unfolding notify after_notify
  notify-IsBounded o p method params ok v = ground (arith, fail-IsBounded o p)

  settle_reply-IsBounded :
      (o : Options V) (p : Peer V) (id : ℕ) (c : Call V) (r : Reply V)
      → IsBounded p
      → IsBounded (settle_reply o p id c r).0
  unfolding settle_reply
  settle_reply-IsBounded o p id c (error_of code message detail) v =
      ground (arith, fail-IsBounded o p)
  settle_reply-IsBounded o p id c (result_of value) v = ground (arith, fail-IsBounded o p)

  delete-IsBounded :
      (p : Peer V) (id : ℕ) → IsBounded p → IsBounded (record p { pending = delete id p.pending })
  delete-IsBounded p id v = ground (arith, length-delete-le id p.pending)

  on_response-IsBounded :
      (o : Options V) (p : Peer V) (id : Option ℕ) (r : Reply V)
      → IsBounded p
      → IsBounded (on_response o p id r).0
  unfolding on_response
  on_response-IsBounded o p none r v = fail-IsBounded o p v
  on_response-IsBounded o p (some id) r v = elim (Option-cases (lookup id p.pending)) [
    | inl e ↦
        rw (e, on_response)
          (ground (arith, fail-IsBounded o p, length-keep-le (λ (k : ℕ). not (k == id)) p.expired))
    | inr (c, e) ↦ rw (e, on_response) (settle_reply-IsBounded o _ id c r (delete-IsBounded p id v))
  ]

  on_request-IsBounded :
      (o : Options V) (p : Peer V) (id : V) (method : Text) (params : V) (ok : Bool)
      → IsBounded p
      → IsBounded (on_request o p id method params ok).0
  unfolding on_request
  on_request-IsBounded o p id method params ok v = ground arith

  on_notification-same :
      (o : Options V) (p : Peer V) (method : Text) (params : V)
      → (on_notification o p method params).0 ≡ p
  unfolding on_notification
  on_notification-same o p method params = ground arith

  on_content-IsBounded :
      (o : Options V) (p : Peer V) (c : Content V) (ok : Bool)
      → IsBounded p
      → IsBounded (on_content o p c ok).0
  unfolding on_content
  on_content-IsBounded o p unparsable ok v = fail-IsBounded o p v
  on_content-IsBounded o p unknown ok v = fail-IsBounded o p v
  on_content-IsBounded o p (asks id method params) ok v =
      on_request-IsBounded o p id method params ok v
  on_content-IsBounded o p (tells method params) ok v =
      rw (on_notification-same o p method params) v
  on_content-IsBounded o p (replies id r) ok v = on_response-IsBounded o p id r v

  receive-IsBounded :
      (o : Options V) (p : Peer V) (f : Frame V) (ok : Bool)
      → IsBounded p
      → IsBounded (receive o p f ok).0
  unfolding receive on_frame
  receive-IsBounded o p binary ok v = ground (arith, fail-IsBounded o (record p { heard = true }))
  receive-IsBounded o p (chars bytes c) ok v = ground (
    arith,
    fail-IsBounded o (record p { heard = true }),
    on_content-IsBounded o (record p { heard = true }) c ok,
  )

  tick-IsBounded :
      (o : Options V) (h : Option HeartbeatOptions) (p : Peer V) (ok : Bool)
      → IsBounded p
      → IsBounded (tick o h p ok).0
  unfolding tick beat after_ping fail
  tick-IsBounded o none p ok v = v
  tick-IsBounded o (some h) p ok v = ground arith

  pub step-IsBounded :
      (o : Options V) (p : Peer V) (op : Operation V) → IsBounded p → IsBounded (step o p op).0
  unfolding step finish
  step-IsBounded o p (calls method params s e aborted ok) v =
      call-IsBounded o p method params s e aborted ok v
  step-IsBounded o p (abandons id why) v = abandon-IsBounded p id why v
  step-IsBounded o p (notifies method params ok) v = notify-IsBounded o p method params ok v
  step-IsBounded o p (receives f ok) v = receive-IsBounded o p f ok v
  step-IsBounded o p (beats ok) v = tick-IsBounded o o.heartbeat p ok v
  step-IsBounded o p (finishes id s c ok retry) v = ground arith
  step-IsBounded o p closes v = fail-IsBounded o p v

  run-IsBounded :
      (o : Options V) (p : Peer V) (ops : List (Operation V))
      → IsBounded p
      → IsBounded (run o p ops).0
  unfolding run
  run-IsBounded o p [] v = v
  run-IsBounded o p (op ∷ ops) v = run-IsBounded o (step o p op).0 ops (step-IsBounded o p op v)

  -- In every run of a new peer at most 64 calls are in flight out, at most 1024 given-up ids are
  -- remembered, and a closed peer holds no call. The requests that the run queued, less one for each
  -- handler that finished after its request was queued, are at most 64 too.
  pub run-create-IsBounded :
      (o : Options V) (ops : List (Operation V))
      → IsBounded (run o create ops).0 × (in_flight o create ops 0 ≤ max_in_flight)
  run-create-IsBounded o ops =
      let v = run-IsBounded o create ops (unfold create in omega arith) in
      (
        v,
        subst (λ n. n ≤ max_in_flight) (run-in_flight o create ops 0 (unfold create in refl))
            v.calls_in,
      )
