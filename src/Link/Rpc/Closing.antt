-- ===== src/Link/Rpc/Closing.antt =====
-- rpc.ts: a closed peer and a silent one.
use reins.Base.{
  ap, ◌∙◌, sym, ℕ, zero, suc, ◌+◌, ◌≤◌, ◌<◌, ◌≡◌, refl, Bool, true, false, Option, none, some, List,
  [], ◌∷◌, ◌++◌, text, arith, leb, length, Bool-cases, inl, inr,
}
use reins.Link.Rpc.Effects.{
  ping, Schema, Call, Effect, refused, not_connected, HeartbeatOptions, Options, Peer, send, fail,
  create,
}
use reins.Link.Rpc.Calls.{call, abandon, notify}
use reins.Link.Rpc.Heartbeat.{after_ping, beat}
use reins.Link.Rpc.Inbound.{
  Outcome, returned, failed, crashed, receive, answer_failure, answer, finish,
}
use reins.Link.Rpc.Trace.{
  Operation, calls, abandons, notifies, receives, beats, finishes, closes, tick, step, run,
}
use reins.Link.Rpc.Bounds.{run-create-IsBounded}

-- What a closed peer does for its caller: each call is refused as never sent, nothing else happens.
abbrev pub refusals : {V : Type 0} → List (Operation V) → List (Effect V)
refusals [] = []
refusals (calls _ _ _ _ _ _ ∷ ops) =
    refused (not_connected (text "Connection closed")) ∷ refusals ops
refusals (_ ∷ ops) = refusals ops

abbrev IsShut : {V : Type 0} → Peer V → Type 0
IsShut p = (p.closed ≡ true) × (p.pending ≡ [])

-- `rounds` intervals in which the socket takes what is written.
abbrev pub silent : {V : Type 0} → ℕ → List (Operation V)
silent zero = []
silent (suc n) = beats true ∷ silent n

module _ {V : Type 0} (o : Options V) where
  tick-IsShut :
      (h : Option HeartbeatOptions) (p : Peer V) (ok : Bool)
      → IsShut p
      → IsShut (tick o h p ok).0 × ((tick o h p ok).1 ≡ [])
  unfolding tick
  tick-IsShut none p ok h = (h, refl)
  tick-IsShut (some b) p ok h = ground arith

  answer-IsShut :
      (p : Peer V) (id : V) (s : Schema V) (c : Outcome V) (ok retry : Bool)
      → p.closed ≡ true
      → answer o p id s c ok retry ≡ []
  unfolding answer answer_failure
  answer-IsShut p id s (returned v) ok retry h = ground arith
  answer-IsShut p id s (failed f) ok retry h = ground arith
  answer-IsShut p id s crashed ok retry h = ground arith

  step-IsShut :
      (p : Peer V) (op : Operation V)
      → IsShut p
      → IsShut (step o p op).0 × ((step o p op).1 ≡ refusals (op ∷ []))
  unfolding step call abandon notify receive fail finish
  step-IsShut p (calls method params s e aborted ok) h = ground arith
  step-IsShut p (abandons id why) h = ground arith
  step-IsShut p (notifies method params ok) h = ground arith
  step-IsShut p (receives f ok) h = ground arith
  step-IsShut p (beats ok) h = tick-IsShut o.heartbeat p ok h
  step-IsShut p (finishes id s c ok retry) h = (h, answer-IsShut p id s c ok retry h.0)
  step-IsShut p closes h = ground arith

  refusals-cons :
      (op : Operation V) (ops : List (Operation V))
      → refusals (op ∷ ops) ≡ refusals (op ∷ []) ++ refusals ops
  refusals-cons (calls _ _ _ _ _ _) ops = refl
  refusals-cons (abandons _ _) ops = refl
  refusals-cons (notifies _ _ _) ops = refl
  refusals-cons (receives _ _) ops = refl
  refusals-cons (beats _) ops = refl
  refusals-cons (finishes _ _ _ _ _) ops = refl
  refusals-cons closes ops = refl

  run-IsShut :
      (p : Peer V) (ops : List (Operation V))
      → IsShut p
      → IsShut (run o p ops).0 × ((run o p ops).1 ≡ refusals ops)
  unfolding run
  run-IsShut p [] h = (h, refl)
  run-IsShut p (op ∷ ops) h =
      let now = step-IsShut p op h in
      let later = run-IsShut (step o p op).0 ops now.0 in
      (
        later.0,
        ap (λ es. es ++ (run o (step o p op).0 ops).1) now.1
            ∙ ap (λ es. refusals (op ∷ []) ++ es) later.1
            ∙ sym (refusals-cons op ops),
      )

  empty_of_length : (cs : List (ℕ × Call V)) → length cs ≡ 0 → cs ≡ []
  empty_of_length [] h = refl
  empty_of_length (c ∷ cs) h = absurd (omega arith)

  -- A peer that was created, run and closed stays closed. Whatever is done with it afterwards, it
  -- writes nothing, gives no request a place and settles no call, and the effects are exactly one
  -- refusal, as never sent, for each new call.
  pub run-closed_silent :
      (ops more : List (Operation V))
      → (run o create ops).0.closed ≡ true
      → ((run o (run o create ops).0 more).0.closed ≡ true)
        × ((run o (run o create ops).0 more).1 ≡ refusals more)
  run-closed_silent ops more h =
      let v = (run-create-IsBounded o ops).0 in
      let shut = run-IsShut (run o create ops).0 more (h, empty_of_length _ (v.closed_empty h)) in
      (shut.0.0, shut.1)

  module _ (b : HeartbeatOptions) (on : o.heartbeat ≡ some b)
      (fits : o.frame_bytes ping ≤ o.max_frame_bytes) where
    stays_closed : (n : ℕ) (p : Peer V) → p.closed ≡ true → (run o p (silent n)).0.closed ≡ true
    unfolding run step tick
    stays_closed zero p h = h
    stays_closed (suc n) p h = rw (on, tick) (ground (arith, stays_closed n p h))

    beat_heard :
        (p : Peer V)
        → p.closed ≡ false
        → p.heard ≡ true
        → (step o p (beats true)).0 ≡ record p { missed = 0; heard = false }
    unfolding step tick beat after_ping send
    beat_heard p h k = rw (on, tick) (ground arith)

    beat_missed :
        (p : Peer V)
        → p.closed ≡ false
        → p.heard ≡ false
        → suc p.missed < b.missed_intervals
        → (step o p (beats true)).0 ≡ record p { missed = suc p.missed }
    unfolding step tick beat after_ping send
    beat_missed p h k l = rw (on, tick) (ground arith)

    beat_dead :
        (p : Peer V)
        → p.closed ≡ false
        → p.heard ≡ false
        → b.missed_intervals ≤ suc p.missed
        → (step o p (beats true)).0.closed ≡ true
    unfolding step tick beat fail
    beat_dead p h k l = rw (on, tick) (ground arith)

    silent_from :
        (n : ℕ) (p : Peer V)
        → p.closed ≡ false
        → p.heard ≡ false
        → p.missed < b.missed_intervals
        → (run o p (silent n)).0.closed ≡ leb b.missed_intervals (p.missed + n)
    unfolding run
    silent_from zero p h k l = ground arith
    silent_from (suc n) p h k l = elim (Bool-cases (leb b.missed_intervals (suc p.missed))) [
      | inl dead ↦ ground (
        arith,
        beat_dead p h k,
        stays_closed n (step o p (beats true)).0 (beat_dead p h k (ground arith)),
      )
      | inr alive ↦ ground (
        arith,
        beat_missed p h k,
        silent_from n (record p { missed = suc p.missed }) h k (ground arith),
      )
    ]

    -- On an open peer that was just heard and whose pings are written, with a limit of at least one
    -- missed interval, a silence of `n + 1` intervals closes the connection exactly if `n` reaches
    -- that limit.
    pub silent-closed :
        (n : ℕ) (p : Peer V)
        → p.closed ≡ false
        → p.heard ≡ true
        → 0 < b.missed_intervals
        → (run o p (silent (suc n))).0.closed ≡ leb b.missed_intervals n
    unfolding run
    silent-closed n p h k l =
        ground
          (arith, beat_heard p h k, silent_from n (record p { missed = 0; heard = false }) h refl l)
