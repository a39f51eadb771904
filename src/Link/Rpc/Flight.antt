-- ===== src/Link/Rpc/Flight.antt =====
-- rpc.ts: `inbound` is the number of requests in flight.
use reins.Base.{
  ℕ, suc, ◌+◌, ◌-◌, ◌≡◌, refl, Bool, true, false, Option, none, some, List, [], ◌∷◌, ◌++◌, Text,
  arith, Option-cases, inl, inr, lookup, delete,
}
use reins.Link.Rpc.Effects.{
  request, notification, ping, Schema, Call, Message, Effect, queued, socket_closed,
  HeartbeatOptions, Options, Peer, Sent, sent, too_large, broken, send, reject_all, fail,
}
use reins.Link.Rpc.Calls.{dispatch, enter, call, abandon, after_notify, notify}
use reins.Link.Rpc.Heartbeat.{after_ping, beat}
use reins.Link.Rpc.Inbound.{
  Reply, error_of, result_of, Content, unparsable, unknown, asks, tells, replies, Frame, binary,
  chars, Outcome, returned, failed, crashed, reply, on_request, on_notification, settle_reply,
  checked_data, on_response, on_content, on_frame, receive, answer_failure, answer, finish,
}
use reins.Link.Rpc.Trace.{
  Operation, calls, abandons, notifies, receives, beats, finishes, closes, tick, step, run,
}

-- How many requests the effects queue.
abbrev pub queued_in : {V : Type 0} → List (Effect V) → ℕ
queued_in [] = 0
queued_in (queued _ _ _ ∷ es) = suc (queued_in es)
queued_in (_ ∷ es) = queued_in es

-- A handler that finishes leaves one request less.
abbrev pub left_after : {V : Type 0} → Operation V → ℕ → ℕ
left_after (finishes _ _ _ _ _) n = n - 1
left_after _ n = n

-- The requests in flight at the end of a run: those that its effects queue, less those that finished.
abbrev pub in_flight : {V : Type 0} → Options V → Peer V → List (Operation V) → ℕ → ℕ
in_flight o p [] n = n
in_flight o p (op ∷ ops) n =
    let (q, es) = step o p op in in_flight o q ops (left_after op (n + queued_in es))

module _ {V : Type 0} where
  queued_in-append : (es fs : List (Effect V)) → queued_in (es ++ fs) ≡ queued_in es + queued_in fs
  queued_in-append [] fs = omega arith
  queued_in-append (e ∷ es) fs = ground (arith, queued_in-append es fs)

  -- The count is what it was, and what is queued is counted.
  abbrev Tallies : Peer V → Peer V × List (Effect V) → Type 0
  Tallies p (q, es) = q.inbound ≡ p.inbound + queued_in es

  queued_in-reject_all : (cs : List (ℕ × Call V)) → queued_in (reject_all cs) ≡ 0
  unfolding reject_all
  queued_in-reject_all [] = refl
  queued_in-reject_all ((id, c) ∷ cs) = queued_in-reject_all cs

  fail-Tallies : (o : Options V) (p : Peer V) → Tallies p (fail o p)
  unfolding fail
  fail-Tallies o p = ground (
    arith,
    queued_in-reject_all p.pending,
    queued_in-append (reject_all p.pending) (socket_closed ∷ []),
  )

  dispatch-Tallies :
      (o : Options V) (p : Peer V) (id : ℕ) (m : Message V) (w : Sent)
      → Tallies p (dispatch o p id m w)
  unfolding dispatch
  dispatch-Tallies o p id m sent = omega arith
  dispatch-Tallies o p id m too_large = omega arith
  dispatch-Tallies o p id m broken =
      ground (arith, fail-Tallies o (record p { pending = delete id p.pending }))

  call-Tallies :
      (o : Options V) (p : Peer V) (method : Text) (params : V) (s : Schema V)
      (e : Option (Schema V)) (aborted ok : Bool)
      → Tallies p (call o p method params s e aborted ok)
  unfolding call
  call-Tallies o p method params s e aborted ok =
      unfold enter in
      ground (
        arith,
        dispatch-Tallies o (enter p s e) (suc p.next_id) (request (suc p.next_id) method params)
            (send o (request (suc p.next_id) method params) ok),
      )

  abandon-Tallies : (p : Peer V) (id : ℕ) (why : Text) → Tallies p (abandon p id why)
  unfolding abandon
  abandon-Tallies p id why = ground arith

  after_notify-Tallies :
      (o : Options V) (p : Peer V) (m : Message V) (w : Sent)
      → Tallies p ((after_notify o p m w).0, (after_notify o p m w).1)
  unfolding after_notify
  after_notify-Tallies o p m sent = omega arith
  after_notify-Tallies o p m too_large = omega arith
  after_notify-Tallies o p m broken = fail-Tallies o p

  settle_reply-Tallies :
      (o : Options V) (p : Peer V) (id : ℕ) (c : Call V) (r : Reply V)
      → Tallies p (settle_reply o p id c r)
  unfolding settle_reply checked_data
  settle_reply-Tallies o p id c (error_of code message detail) = ground (arith, fail-Tallies o p)
  settle_reply-Tallies o p id c (result_of value) = ground (arith, fail-Tallies o p)

  on_response-Tallies :
      (o : Options V) (p : Peer V) (id : Option ℕ) (r : Reply V) → Tallies p (on_response o p id r)
  unfolding on_response
  on_response-Tallies o p none r = fail-Tallies o p
  on_response-Tallies o p (some id) r = elim (Option-cases (lookup id p.pending)) [
    | inl e ↦ rw (e, on_response) (ground (arith, fail-Tallies o p))
    | inr (c, e) ↦
        rw (e, on_response)
          (settle_reply-Tallies o (record p { pending = delete id p.pending }) id c r)
  ]

  on_request-Tallies :
      (o : Options V) (p : Peer V) (id : V) (method : Text) (params : V) (ok : Bool)
      → Tallies p (on_request o p id method params ok)
  unfolding on_request reply
  on_request-Tallies o p id method params ok = ground arith

  on_content-Tallies :
      (o : Options V) (p : Peer V) (c : Content V) (ok : Bool) → Tallies p (on_content o p c ok)
  unfolding on_content on_notification
  on_content-Tallies o p unparsable ok = fail-Tallies o p
  on_content-Tallies o p unknown ok = fail-Tallies o p
  on_content-Tallies o p (asks id method params) ok = on_request-Tallies o p id method params ok
  on_content-Tallies o p (tells method params) ok = ground arith
  on_content-Tallies o p (replies id r) ok = on_response-Tallies o p id r

  receive-Tallies :
      (o : Options V) (p : Peer V) (f : Frame V) (ok : Bool) → Tallies p (receive o p f ok)
  unfolding receive on_frame
  receive-Tallies o p binary ok = ground (arith, fail-Tallies o (record p { heard = true }))
  receive-Tallies o p (chars bytes c) ok = ground (
    arith,
    fail-Tallies o (record p { heard = true }),
    on_content-Tallies o (record p { heard = true }) c ok,
  )

  queued_in-answer :
      (o : Options V) (p : Peer V) (id : V) (s : Schema V) (c : Outcome V) (ok retry : Bool)
      → queued_in (answer o p id s c ok retry) ≡ 0
  unfolding answer answer_failure reply
  queued_in-answer o p id s (returned v) ok retry = ground arith
  queued_in-answer o p id s (failed f) ok retry = ground arith
  queued_in-answer o p id s crashed ok retry = ground arith

  after_ping-Tallies : (o : Options V) (p : Peer V) (w : Sent) → Tallies p (after_ping o p w)
  unfolding after_ping
  after_ping-Tallies o p sent = omega arith
  after_ping-Tallies o p too_large = fail-Tallies o p
  after_ping-Tallies o p broken = fail-Tallies o p

  tick-Tallies :
      (o : Options V) (h : Option HeartbeatOptions) (p : Peer V) (ok : Bool)
      → Tallies p (tick o h p ok)
  unfolding tick beat
  tick-Tallies o none p ok = omega arith
  tick-Tallies o (some h) p ok = ground (
    arith,
    after_ping-Tallies o (record p { missed = 0; heard = false }) (send o ping ok),
    after_ping-Tallies o (record p { missed = suc p.missed; heard = false }) (send o ping ok),
    fail-Tallies o (record p { missed = suc p.missed }),
  )

  step-tallied :
      (o : Options V) (p : Peer V) (op : Operation V)
      → (step o p op).0.inbound ≡ left_after op (p.inbound + queued_in (step o p op).1)
  unfolding step
  step-tallied o p (calls method params s e aborted ok) =
      call-Tallies o p method params s e aborted ok
  step-tallied o p (abandons id why) = abandon-Tallies p id why
  step-tallied o p (notifies method params ok) =
      unfold notify in
      ground (
        arith,
        after_notify-Tallies o p (notification method params)
            (send o (notification method params) ok),
      )
  step-tallied o p (receives f ok) = receive-Tallies o p f ok
  step-tallied o p (beats ok) = tick-Tallies o o.heartbeat p ok
  step-tallied o p (finishes id s c ok retry) =
      unfold finish in ground (arith, queued_in-answer o p id s c ok retry)
  step-tallied o p closes = fail-Tallies o p

  pub run-in_flight :
      (o : Options V) (p : Peer V) (ops : List (Operation V)) (n : ℕ)
      → p.inbound ≡ n
      → (run o p ops).0.inbound ≡ in_flight o p ops n
  unfolding run
  run-in_flight o p [] n h = h
  run-in_flight o p (op ∷ ops) n h =
      run-in_flight o (step o p op).0 ops (left_after op (n + queued_in (step o p op).1))
        (rw (← h) (step-tallied o p op))
