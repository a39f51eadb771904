-- ===== src/Streams/Buffers.antt =====
-- node-streams.ts: what a body may hold, and what a closed registry holds.
use reins.Base.{
  ℕ, suc, ◌+◌, ◌-◌, ◌≤◌, ◌≡◌, refl, sym, ap, subst, true, false, some, List, [], ◌∷◌, ◌++◌, length,
  ltb, ◌==◌, lookup, insert, delete, All, All-append, if_ind, Option-cases, Bool-cases, inl, inr,
  arith,
}
use reins.Streams.Registry.{
  OpenStream, Registry, Effect, create, fail, open_stream, start_failed, cancel_body, read_body,
  receive_data, end_stream, close, Operation, opens, closes, start_fails, cancels, reads, receives,
  ends, step, run,
}

-- Each open stream is within its buffer, and a closed registry has no stream.
pub record IsBounded (limit : ℕ) (r : Registry) : Type 0 where
  pub within : All (λ s. s.1.queued ≤ limit) r.streams
  pub closed_empty : r.closed ≡ true → r.streams ≡ []

abbrev Fits : ℕ → List (ℕ × OpenStream) → Type 0
Fits limit = All (λ s. s.1.queued ≤ limit)

module _ (limit : ℕ) where
  delete-Fits : (id : ℕ) (xs : List (ℕ × OpenStream)) → Fits limit xs → Fits limit (delete id xs)
  delete-Fits id [] h = tt
  delete-Fits id (x ∷ xs) h = ground (arith, h, delete-Fits id xs)

  insert-Fits :
      (id : ℕ) (s : OpenStream) (xs : List (ℕ × OpenStream))
      → s.queued ≤ limit
      → Fits limit xs
      → Fits limit (insert id s xs)
  insert-Fits id s [] l h = (l, tt)
  insert-Fits id s (x ∷ xs) l h = ground (arith, h, l, insert-Fits id s xs)

  lookup-Fits :
      (id : ℕ) (s : OpenStream) (xs : List (ℕ × OpenStream))
      → lookup id xs ≡ some s
      → Fits limit xs
      → s.queued ≤ limit
  lookup-Fits id s [] e h = absurd (ground arith)
  lookup-Fits id s (x ∷ xs) e h = ground (arith, h, e, lookup-Fits id s xs)

  open_of_lookup :
      (r : Registry) (id : ℕ) (s : OpenStream)
      → lookup id r.streams ≡ some s
      → IsBounded limit r
      → r.closed ≡ false
  open_of_lookup r id s e v = elim (Bool-cases r.closed) [
    | inr h ↦ h
    | inl h ↦ absurd (ground (arith, v.closed_empty h, e, ap (lookup id) (v.closed_empty h)))
  ]

  -- An open registry is bounded when its streams are within their buffers.
  open-IsBounded : (r : Registry) → r.closed ≡ false → Fits limit r.streams → IsBounded limit r
  open-IsBounded r c h = record { within = h; closed_empty = λ d. absurd (ground (arith, c, d)) }

  found-IsBounded :
      (r : Registry) (id : ℕ) (s : OpenStream) (xs : List (ℕ × OpenStream))
      → lookup id r.streams ≡ some s
      → IsBounded limit r
      → Fits limit xs
      → IsBounded limit (record r { streams = xs })
  found-IsBounded r id s xs e v h =
      open-IsBounded (record r { streams = xs }) (open_of_lookup r id s e v) h

  delete-insert :
      (id : ℕ) (s : OpenStream) (xs : List (ℕ × OpenStream))
      → delete id (insert id s xs) ≡ delete id xs
  delete-insert id s [] = ground arith
  delete-insert id s (x ∷ xs) = ground (arith, delete-insert id s xs)

  found_data :
      (id offset : ℕ) (bytes : List ℕ) (r : Registry) (s : OpenStream)
      → lookup id r.streams ≡ some s
      → IsBounded limit r
      → IsBounded limit (receive_data limit r id offset bytes).0
  unfolding receive_data fail
  found_data id offset bytes r s h v =
      let t : OpenStream = record {
        received = s.received + length bytes;
        queued = s.queued + length bytes;
      } in
      let dropped = delete-Fits id r.streams v.within in
      elim (Bool-cases (offset == s.received)) [
        | inr x ↦
            rw (h, x, receive_data, fail) (found-IsBounded r id s (delete id r.streams) h v dropped)
        | inl x ↦ elim (Bool-cases (ltb limit (s.queued + length bytes))) [
          | inl y ↦
              rw (h, x, y, receive_data, fail)
                (found-IsBounded r id s (delete id (insert id t r.streams)) h v
                  (subst (Fits limit) (sym (delete-insert id t r.streams)) dropped))
          | inr y ↦
              rw (h, x, y, receive_data)
                (found-IsBounded r id s (insert id t r.streams) h v
                  (insert-Fits id t r.streams (ground (arith, y)) v.within))
        ]
      ]

  receive_data-IsBounded :
      (r : Registry) (id offset : ℕ) (bytes : List ℕ)
      → IsBounded limit r
      → IsBounded limit (receive_data limit r id offset bytes).0
  unfolding receive_data fail
  receive_data-IsBounded r id offset bytes v = elim (Option-cases (lookup id r.streams)) [
    | inl h ↦ rw (h, receive_data) (v)
    | inr (s, h) ↦ found_data id offset bytes r s h v
  ]

  step-IsBounded :
      (r : Registry) (op : Operation) → IsBounded limit r → IsBounded limit (step limit r op).0
  unfolding step
  step-IsBounded r opens v =
      unfold open_stream in
      if_ind {A = Registry × List Effect} (λ q. IsBounded limit q.0) r.closed (λ _. v)
        (λ c.
          open-IsBounded
            (record r {
              next_id = suc r.next_id;
              streams = r.streams ++ (suc r.next_id, record { received = 0; queued = 0 }) ∷ [];
            })
            c
            (All-append (λ (s : ℕ × OpenStream). s.1.queued ≤ limit) r.streams
              ((suc r.next_id, record { received = 0; queued = 0 }) ∷ []) v.within
              (omega arith, tt)))
  step-IsBounded r closes v = unfold close in record { within = tt; closed_empty = λ _. refl }
  step-IsBounded r (start_fails id e) v = elim (Option-cases (lookup id r.streams)) [
    | inl h ↦ unfold start_failed in rw (h, start_failed) (v)
    | inr (s, h) ↦
        unfold start_failed fail in
        rw (h, start_failed, fail)
          (found-IsBounded r id s (delete id r.streams) h v (delete-Fits id r.streams v.within))
  ]
  step-IsBounded r (cancels id) v = elim (Option-cases (lookup id r.streams)) [
    | inl h ↦ unfold cancel_body in rw (h, cancel_body) (v)
    | inr (s, h) ↦
        unfold cancel_body in
        rw (h, cancel_body)
          (found-IsBounded r id s (delete id r.streams) h v (delete-Fits id r.streams v.within))
  ]
  step-IsBounded r (reads id n) v = elim (Option-cases (lookup id r.streams)) [
    | inl h ↦ unfold read_body in rw (h, read_body) (v)
    | inr (s, h) ↦
        unfold read_body in
        rw (h, read_body)
          (found-IsBounded r id s (insert id (record s { queued = s.queued - n }) r.streams) h v (
            insert-Fits id (record s { queued = s.queued - n }) r.streams
              (omega (arith, lookup-Fits id s r.streams h v.within)) v.within))
  ]
  step-IsBounded r (receives id offset bytes) v = receive_data-IsBounded r id offset bytes v
  step-IsBounded r (ends id error exit) v = elim (Option-cases (lookup id r.streams)) [
    | inl h ↦ unfold end_stream in rw (h, end_stream) (v)
    | inr (s, h) ↦
        let w =
          found-IsBounded r id s (delete id r.streams) h v (delete-Fits id r.streams v.within) in
        elim (Option-cases error) [
          | inl e ↦ unfold end_stream in rw (h, e, end_stream) (w)
          | inr (x, e) ↦ unfold end_stream in rw (h, e, end_stream) (w)
        ]
  ]

  run-IsBounded :
      (r : Registry) (ops : List Operation)
      → IsBounded limit r
      → IsBounded limit (run limit r ops).0
  unfolding run
  run-IsBounded r [] v = v
  run-IsBounded r (op ∷ ops) v = run-IsBounded (step limit r op).0 ops (step-IsBounded r op v)

  -- In every run of a new registry no open stream holds more unread bytes than the limit, and a closed
  -- registry holds no stream.
  pub run-create-IsBounded_streams :
      (ops : List Operation) → IsBounded limit (run limit create ops).0
  unfolding create
  run-create-IsBounded_streams ops =
      run-IsBounded create ops (record { within = tt; closed_empty = λ _. refl })
