-- ===== src/Streams/Ending.antt =====
-- node-streams.ts: each stream ends once.
use reins.Base.{
  ℕ, suc, ◌+◌, ◌-◌, ◌≡◌, refl, some, List, [], ◌∷◌, ◌++◌, length, leb, ◌==◌, if◌then◌else◌, lookup,
  insert, lookup-insert, count_key, count_key-append, count_key-delete, Option-cases, inl, inr,
  arith,
}
use reins.Streams.Registry.{
  OpenStream, Registry, Error, offset_gap, over_buffer, refused_by_node, Effect, resolved, rejected,
  create, fail, open_stream, start_failed, cancel_body, read_body, receive_data, end_stream,
  fail_all, close, Operation, opens, closes, start_fails, cancels, reads, receives, ends, step, run,
}

-- How often the promise `ended` of stream `k` is settled by an effect.
abbrev pub settling : ℕ → Effect → ℕ
settling k (resolved id exit) = if id == k then 1 else 0
settling k (rejected id e) = if id == k then 1 else 0
settling k _ = 0

abbrev pub settlings : ℕ → List Effect → ℕ
settlings k [] = 0
settlings k (e ∷ es) = settling k e + settlings k es

-- Whether stream `k` was opened when `last` was the last one.
abbrev pub opened : ℕ → ℕ → ℕ
opened k last = if k == 0 then 0 else if leb k last then 1 else 0

module _ (k : ℕ) where
  settlings-append :
      (es fs : List Effect) → settlings k (es ++ fs) ≡ settlings k es + settlings k fs
  settlings-append [] fs = omega arith
  settlings-append (e ∷ es) fs = omega (arith, settlings-append es fs)

  count_key-insert_present :
      (id : ℕ) (s t : OpenStream) (xs : List (ℕ × OpenStream))
      → lookup id xs ≡ some s
      → count_key k (insert id t xs) ≡ count_key k xs
  count_key-insert_present id s t [] h = absurd (ground arith)
  count_key-insert_present id s t ((j, u) ∷ xs) h =
      ground (arith, count_key-insert_present id s t xs)

  -- The streams that leave the table are those that are settled, and those that enter are new.
  abbrev pub Accounts : Registry → Registry × List Effect → Type 0
  Accounts r (q, es) =
      settlings k es + count_key k q.streams + opened k r.next_id
      ≡ count_key k r.streams + opened k q.next_id

  settlings-fail_all : (xs : List (ℕ × OpenStream)) → settlings k (fail_all xs) ≡ count_key k xs
  unfolding fail_all
  settlings-fail_all [] = refl
  settlings-fail_all ((id, s) ∷ xs) = ground (arith, settlings-fail_all xs)

  fail-Accounts :
      (r : Registry) (id : ℕ) (s : OpenStream) (e : Error)
      → lookup id r.streams ≡ some s
      → Accounts r (fail r id e)
  unfolding fail
  fail-Accounts r id s e h = ground (arith, count_key-delete k id s r.streams h)

  receive_data-Accounts :
      (limit : ℕ) (r : Registry) (id offset : ℕ) (bytes : List ℕ)
      → Accounts r (receive_data limit r id offset bytes)
  unfolding receive_data
  receive_data-Accounts limit r id offset bytes = elim (Option-cases (lookup id r.streams)) [
    | inl h ↦ ground (arith, h)
    | inr (s, h) ↦
        let t : OpenStream = record {
          received = s.received + length bytes;
          queued = s.queued + length bytes;
        } in
        ground (
          arith,
          h,
          fail-Accounts r id s offset_gap h,
          lookup-insert id id t r.streams,
          count_key-insert_present id s t r.streams h,
          fail-Accounts (record r { streams = insert id t r.streams }) id t over_buffer,
        )
  ]

  step-Accounts : (limit : ℕ) (r : Registry) (op : Operation) → Accounts r (step limit r op)
  unfolding step
  step-Accounts limit r opens =
      unfold open_stream in
      ground (
        arith,
        count_key-append k r.streams ((suc r.next_id, record { received = 0; queued = 0 }) ∷ []),
      )
  step-Accounts limit r closes = unfold close in ground (arith, settlings-fail_all r.streams)
  step-Accounts limit r (start_fails id e) = elim (Option-cases (lookup id r.streams)) [
    | inl h ↦ unfold start_failed in ground (arith, h)
    | inr (s, h) ↦
        unfold start_failed in ground (arith, h, fail-Accounts r id s (refused_by_node e) h)
  ]
  step-Accounts limit r (cancels id) = elim (Option-cases (lookup id r.streams)) [
    | inl h ↦ unfold cancel_body in ground (arith, h)
    | inr (s, h) ↦ unfold cancel_body in ground (arith, h, count_key-delete k id s r.streams h)
  ]
  step-Accounts limit r (reads id n) = elim (Option-cases (lookup id r.streams)) [
    | inl h ↦ unfold read_body in ground (arith, h)
    | inr (s, h) ↦
        unfold read_body in
        ground
          (arith, h, count_key-insert_present id s (record s { queued = s.queued - n }) r.streams h)
  ]
  step-Accounts limit r (receives id offset bytes) = receive_data-Accounts limit r id offset bytes
  step-Accounts limit r (ends id error exit) = elim (Option-cases (lookup id r.streams)) [
    | inl h ↦ unfold end_stream in ground (arith, h)
    | inr (s, h) ↦ unfold end_stream in ground (arith, h, count_key-delete k id s r.streams h)
  ]

  run-Accounts : (limit : ℕ) (r : Registry) (ops : List Operation) → Accounts r (run limit r ops)
  unfolding run
  run-Accounts limit r [] = omega arith
  run-Accounts limit r (op ∷ ops) = omega (
    arith,
    step-Accounts limit r op,
    run-Accounts limit (step limit r op).0 ops,
    settlings-append (step limit r op).1 (run limit (step limit r op).0 ops).1,
  )

  -- Over any run of a new registry, a stream that was opened is either still open or its promise
  -- `ended` has been settled exactly once, and no other stream is open or settled.
  pub run-create-ended_once :
      (limit : ℕ) (ops : List Operation)
      → let (r, es) = run limit create ops in
        settlings k es + count_key k r.streams ≡ opened k r.next_id
  unfolding create
  run-create-ended_once limit ops = ground (arith, run-Accounts limit create ops)
