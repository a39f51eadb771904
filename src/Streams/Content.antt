-- ===== src/Streams/Content.antt =====
-- node-streams.ts: what a body delivers.
use reins.Base.{
  ℕ, ◌+◌, ◌≤◌, ◌≡◌, some, List, [], ◌∷◌, ◌++◌, length, ◌==◌, if◌then◌else◌, lookup, insert,
  lookup-insert, arith, flatten,
}
use reins.Streams.Registry.{
  OpenStream, Registry, Effect, enqueued, receive_data, Operation, receives, step, run,
}

-- The chunks of a stream as the node sends them, from byte `offset` on.
abbrev pub sent_from : ℕ → ℕ → List (List ℕ) → List Operation
sent_from id offset [] = []
sent_from id offset (c ∷ cs) = receives id offset c ∷ sent_from id (offset + length c) cs

-- The bytes that the body of a stream gets.
unfoldable pub delivered : ℕ → List Effect → List ℕ
delivered id [] = []
delivered id (enqueued k bytes ∷ es) = (if k == id then bytes else []) ++ delivered id es
delivered id (_ ∷ es) = delivered id es

abbrev pub total : List (List ℕ) → ℕ
total [] = 0
total (c ∷ cs) = length c + total cs

abbrev pub advanced : OpenStream → ℕ → OpenStream
advanced s n = record { received = s.received + n; queued = s.queued + n }

pub receive_data_next :
    (limit : ℕ) (r : Registry) (id : ℕ) (s : OpenStream) (bytes : List ℕ)
    → lookup id r.streams ≡ some s
    → s.queued + length bytes ≤ limit
    → receive_data limit r id s.received bytes ≡ (
      record r { streams = insert id (advanced s (length bytes)) r.streams },
      enqueued id bytes ∷ [],
    )
unfolding receive_data
receive_data_next limit r id s bytes h l = ground (arith, h, l)

-- The chunks of an open stream that come in order, and that its buffer takes, all reach its body, in
-- order and nothing else, and the stream stays open behind them.
pub run-sent_from :
    (limit : ℕ) (cs : List (List ℕ)) (r : Registry) (id : ℕ) (s : OpenStream)
    → lookup id r.streams ≡ some s
    → s.queued + total cs ≤ limit
    → let (q, es) = run limit r (sent_from id s.received cs) in
      (delivered id es ≡ flatten cs) × (lookup id q.streams ≡ some (advanced s (total cs)))
unfolding run step flatten delivered
run-sent_from limit [] r id s h l = ground (arith, h)
run-sent_from limit (c ∷ cs) r id s h l =
    let next = receive_data_next limit r id s c h (omega (arith, l)) in
    let rest =
      run-sent_from limit cs (record r { streams = insert id (advanced s (length c)) r.streams }) id
        (advanced s (length c))
        (ground (arith, lookup-insert id id (advanced s (length c)) r.streams))
        (omega (arith, l)) in
    ground (arith, next, rest)
