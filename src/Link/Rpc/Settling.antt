-- ===== src/Link/Rpc/Settling.antt =====
-- rpc.ts: every call of a peer is settled once.
use reins.Base.{
  ℕ, suc, ◌+◌, ◌≡◌, refl, Bool, true, false, Option, none, some, List, [], ◌∷◌, ◌++◌, Text, arith,
  leb, ◌==◌, if◌then◌else◌, Option-cases, inl, inr, lookup, delete, count_key, count_key-append,
  count_key-delete, count_key-delete_append,
}
use reins.Link.Rpc.Effects.{
  request, notification, ping, Schema, Call, Message, Effect, resolved, rejected, stranded,
  socket_closed, HeartbeatOptions, Options, Peer, Sent, sent, too_large, broken, send, reject_all,
  fail, create,
}
use reins.Link.Rpc.Calls.{dispatch, enter, call, abandon, after_notify, notify}
use reins.Link.Rpc.Heartbeat.{after_ping, beat}
use reins.Link.Rpc.Inbound.{
  Reply, error_of, result_of, Content, unparsable, unknown, asks, tells, replies, Frame, binary,
  chars, Outcome, returned, failed, crashed, reply, on_request, on_notification, settle_reply,
  checked_data, on_response, on_content, on_frame, receive, answer_failure, answer, finish,
}
use reins.Link.Rpc.Trace.{
  Operation, calls, abandons, notifies, receives, beats, finishes, closes, tick, step, run,
}

-- How often a promise of call `k` is settled, or left unsettled for good, by an effect.
abbrev pub outcome : {V : Type 0} → ℕ → Effect V → ℕ
outcome k (resolved id _) = if id == k then 1 else 0
outcome k (rejected id _) = if id == k then 1 else 0
outcome k (stranded id) = if id == k then 1 else 0
outcome k _ = 0

abbrev pub outcomes : {V : Type 0} → ℕ → List (Effect V) → ℕ
outcomes k [] = 0
outcomes k (e ∷ es) = outcome k e + outcomes k es

-- Whether `rpc-<k>` is among the ids given out when `next` is the last of them.
abbrev pub issued : ℕ → ℕ → ℕ
issued k next = if k == 0 then 0 else if leb k next then 1 else 0

module _ {V : Type 0} (k : ℕ) where
  pub outcomes-append :
      (es fs : List (Effect V)) → outcomes k (es ++ fs) ≡ outcomes k es + outcomes k fs
  outcomes-append [] fs = omega arith
  outcomes-append (e ∷ es) fs = omega (arith, outcomes-append es fs)

  -- The calls that leave the table are those that the effects settle, and those that enter are new.
  abbrev pub Accounts : Peer V → Peer V × List (Effect V) → Type 0
  Accounts p (q, es) =
      outcomes k es + count_key k q.pending + issued k p.next_id
      ≡ count_key k p.pending + issued k q.next_id

  outcomes-reject_all : (cs : List (ℕ × Call V)) → outcomes k (reject_all cs) ≡ count_key k cs
  unfolding reject_all
  outcomes-reject_all [] = refl
  outcomes-reject_all ((id, c) ∷ cs) = ground (arith, outcomes-reject_all cs)

  pub fail-Accounts : (o : Options V) (p : Peer V) → Accounts p (fail o p)
  unfolding fail
  fail-Accounts o p = ground (
    arith,
    outcomes-reject_all p.pending,
    outcomes-append (reject_all p.pending) (socket_closed ∷ []),
  )

  dispatch-Accounts :
      (o : Options V) (p : Peer V) (m : Message V) (s : Schema V) (e : Option (Schema V)) (w : Sent)
      → Accounts p (dispatch o (enter p s e) (suc p.next_id) m w)
  unfolding dispatch enter
  dispatch-Accounts o p m s e sent = ground (
    arith,
    count_key-append k p.pending ((suc p.next_id, record { schema = s; error_data = e }) ∷ []),
  )
  dispatch-Accounts o p m s e too_large = ground (
    arith,
    count_key-delete_append k (suc p.next_id) (record { schema = s; error_data = e }) p.pending,
  )
  dispatch-Accounts o p m s e broken = ground (
    arith,
    count_key-delete_append k (suc p.next_id) (record { schema = s; error_data = e }) p.pending,
    fail-Accounts o (record p {
      next_id = suc p.next_id;
      pending =
          delete (suc p.next_id)
            (p.pending ++ (suc p.next_id, record { schema = s; error_data = e }) ∷ []);
    }),
  )

  abandon-Accounts : (p : Peer V) (id : ℕ) (why : Text) → Accounts p (abandon p id why)
  unfolding abandon
  abandon-Accounts p id why = elim (Option-cases (lookup id p.pending)) [
    | inl none_left ↦ rw (none_left, abandon) (omega arith)
    | inr (c, e) ↦ rw (e, abandon) (ground (arith, count_key-delete k id c p.pending e))
  ]

  after_notify-Accounts :
      (o : Options V) (p : Peer V) (m : Message V) (w : Sent)
      → Accounts p ((after_notify o p m w).0, (after_notify o p m w).1)
  unfolding after_notify
  after_notify-Accounts o p m sent = omega arith
  after_notify-Accounts o p m too_large = omega arith
  after_notify-Accounts o p m broken = fail-Accounts o p

  settle_reply-Accounts :
      (o : Options V) (p : Peer V) (id : ℕ) (c : Call V) (r : Reply V)
      → lookup id p.pending ≡ some c
      → Accounts p (settle_reply o (record p { pending = delete id p.pending }) id c r)
  unfolding settle_reply checked_data
  settle_reply-Accounts o p id c (error_of code message detail) h = ground (
    arith,
    count_key-delete k id c p.pending h,
    fail-Accounts o (record p { pending = delete id p.pending }),
  )
  settle_reply-Accounts o p id c (result_of value) h = ground (
    arith,
    count_key-delete k id c p.pending h,
    fail-Accounts o (record p { pending = delete id p.pending }),
  )

  outcomes-reply : (o : Options V) (m : Message V) (ok : Bool) → outcomes k (reply o m ok) ≡ 0
  unfolding reply
  outcomes-reply o m ok = ground arith

  on_request-Accounts :
      (o : Options V) (p : Peer V) (id : V) (method : Text) (params : V) (ok : Bool)
      → Accounts p (on_request o p id method params ok)
  unfolding on_request reply
  on_request-Accounts o p id method params ok = ground arith

  on_notification-Accounts :
      (o : Options V) (p : Peer V) (method : Text) (params : V)
      → Accounts p (on_notification o p method params)
  unfolding on_notification
  on_notification-Accounts o p method params = ground arith

  on_response-Accounts :
      (o : Options V) (p : Peer V) (id : Option ℕ) (r : Reply V) → Accounts p (on_response o p id r)
  unfolding on_response
  on_response-Accounts o p none r = fail-Accounts o p
  on_response-Accounts o p (some id) r = elim (Option-cases (lookup id p.pending)) [
    | inl e ↦ rw (e, on_response) (ground (arith, fail-Accounts o p))
    | inr (c, e) ↦ rw (e, on_response) (settle_reply-Accounts o p id c r e)
  ]

  on_content-Accounts :
      (o : Options V) (p : Peer V) (c : Content V) (ok : Bool) → Accounts p (on_content o p c ok)
  unfolding on_content
  on_content-Accounts o p unparsable ok = fail-Accounts o p
  on_content-Accounts o p unknown ok = fail-Accounts o p
  on_content-Accounts o p (asks id method params) ok = on_request-Accounts o p id method params ok
  on_content-Accounts o p (tells method params) ok = on_notification-Accounts o p method params
  on_content-Accounts o p (replies id r) ok = on_response-Accounts o p id r

  on_frame-Accounts :
      (o : Options V) (p : Peer V) (f : Frame V) (ok : Bool) → Accounts p (on_frame o p f ok)
  unfolding on_frame
  on_frame-Accounts o p binary ok = fail-Accounts o p
  on_frame-Accounts o p (chars bytes c) ok =
      ground (arith, fail-Accounts o p, on_content-Accounts o p c ok)

  receive-Accounts :
      (o : Options V) (p : Peer V) (f : Frame V) (ok : Bool) → Accounts p (receive o p f ok)
  unfolding receive
  receive-Accounts o p f ok = ground (arith, on_frame-Accounts o (record p { heard = true }) f ok)

  outcomes-answer :
      (o : Options V) (p : Peer V) (id : V) (s : Schema V) (c : Outcome V) (ok retry : Bool)
      → outcomes k (answer o p id s c ok retry) ≡ 0
  unfolding answer answer_failure reply
  outcomes-answer o p id s (returned v) ok retry = ground arith
  outcomes-answer o p id s (failed f) ok retry = ground arith
  outcomes-answer o p id s crashed ok retry = ground arith

  after_ping-Accounts : (o : Options V) (p : Peer V) (w : Sent) → Accounts p (after_ping o p w)
  unfolding after_ping
  after_ping-Accounts o p sent = omega arith
  after_ping-Accounts o p too_large = fail-Accounts o p
  after_ping-Accounts o p broken = fail-Accounts o p

  beat-Accounts :
      (o : Options V) (h : HeartbeatOptions) (p : Peer V) (ok : Bool) → Accounts p (beat o h p ok)
  unfolding beat
  beat-Accounts o h p ok = ground (
    arith,
    after_ping-Accounts o (record p { missed = 0; heard = false }) (send o ping ok),
    after_ping-Accounts o (record p { missed = suc p.missed; heard = false }) (send o ping ok),
    fail-Accounts o (record p { missed = suc p.missed }),
  )

  tick-Accounts :
      (o : Options V) (h : Option HeartbeatOptions) (p : Peer V) (ok : Bool)
      → Accounts p (tick o h p ok)
  unfolding tick
  tick-Accounts o none p ok = omega arith
  tick-Accounts o (some h) p ok = ground (arith, beat-Accounts o h p ok)

  call-Accounts :
      (o : Options V) (p : Peer V) (method : Text) (params : V) (s : Schema V)
      (e : Option (Schema V)) (aborted ok : Bool)
      → Accounts p (call o p method params s e aborted ok)
  unfolding call
  call-Accounts o p method params s e aborted ok = ground (
    arith,
    dispatch-Accounts o p (request (suc p.next_id) method params) s e
        (send o (request (suc p.next_id) method params) ok),
  )

  pub step-Accounts : (o : Options V) (p : Peer V) (op : Operation V) → Accounts p (step o p op)
  unfolding step
  step-Accounts o p (calls method params s e aborted ok) =
      call-Accounts o p method params s e aborted ok
  step-Accounts o p (abandons id why) = abandon-Accounts p id why
  step-Accounts o p (notifies method params ok) =
      unfold notify in
      ground (
        arith,
        after_notify-Accounts o p (notification method params)
            (send o (notification method params) ok),
      )
  step-Accounts o p (receives f ok) = receive-Accounts o p f ok
  step-Accounts o p (beats ok) = tick-Accounts o o.heartbeat p ok
  step-Accounts o p (finishes id s c ok retry) =
      unfold finish in ground (arith, outcomes-answer o p id s c ok retry)
  step-Accounts o p closes = fail-Accounts o p

  pub run-Accounts :
      (o : Options V) (p : Peer V) (ops : List (Operation V)) → Accounts p (run o p ops)
  unfolding run
  run-Accounts o p [] = omega arith
  run-Accounts o p (op ∷ ops) = omega (
    arith,
    step-Accounts o p op,
    run-Accounts o (step o p op).0 ops,
    outcomes-append (step o p op).1 (run o (step o p op).0 ops).1,
  )

  -- Over any run of a new peer, a call that was given the id `rpc-<k>` is either still pending or
  -- has had exactly one outcome, and no other id is pending or has one. An outcome is that the call is
  -- resolved or rejected, or that its schema refuses the result that it gave for a reply itself, which
  -- throws and leaves the promise open.
  pub run-create-settled_once :
      (o : Options V) (ops : List (Operation V))
      → let (p, es) = run o create ops in outcomes k es + count_key k p.pending ≡ issued k p.next_id
  unfolding create
  run-create-settled_once o ops = ground (arith, run-Accounts o create ops)
