-- ===== src/Link/Ndjson/Order.antt =====
-- local-socket.ts: what is sent is written in order, and the queue is counted.
use reins.Base.{
  ℕ, ◌+◌, ◌-◌, ◌≤◌, ◌≡◌, refl, false, Option, some, List, [], ◌∷◌, ◌++◌, Text, arith, ltb, ◌==◌,
  length, length-append, take, drop, take-append-drop, flatten, flatten-append, append_assoc,
  append-nil, any, if_ind, ap, Option-cases, inl, inr,
}
use reins.Link.Ndjson.Framing.{newline}
use reins.Link.Ndjson.Queue.{
  Writer, shut, flush_queue, flush, enqueue, send, Refusal, Operation, sends, drains, closes, step,
  asked_by, asked, run,
}

-- `total` is every byte that was asked for so far.
pub record IsFaithful {W : Type 0} (w : Writer W) (total : List ℕ) : Type 0 where
  pub counted : w.queued_bytes ≡ length (flatten w.queue)
  pub complete : w.closed ≡ false → w.written ++ flatten w.queue ≡ total
  pub prefix : (rest : List ℕ) × (w.written ++ rest ≡ total)

take_of_le {ℓ} : {A : Type ℓ} (n : ℕ) (xs : List A) → length xs ≤ n → take n xs ≡ xs
take_of_le Prim.Native.Nat.zero [] h = refl
take_of_le (Prim.Native.Nat.suc n) [] h = refl
take_of_le Prim.Native.Nat.zero (x ∷ xs) h = elim h [ ]
take_of_le (Prim.Native.Nat.suc n) (x ∷ xs) h = ap (◌∷◌ x) (take_of_le n xs (omega arith))

ltb-false : (a b : ℕ) → ltb a b ≡ false → b ≤ a
ltb-false a b h = ground arith

length-drop {ℓ} : {A : Type ℓ} (n : ℕ) (xs : List A) → length (drop n xs) ≡ length xs - n
length-drop Prim.Native.Nat.zero xs = omega arith
length-drop (Prim.Native.Nat.suc n) [] = omega arith
length-drop (Prim.Native.Nat.suc n) (x ∷ xs) = omega (arith, length-drop n xs)

module _ {W : Type 0} (write : W → List ℕ → W × Option ℕ)
    (within : (s : W) (bytes : List ℕ) (n : ℕ)
      → (write s bytes).1 ≡ some n
      → n ≤ length bytes) where
  part_written :
      (head : List ℕ) (rest : List (List ℕ)) (n : ℕ) (w : Writer W) {stream : W} (total : List ℕ)
      → w.queued_bytes ≡ length (head ++ flatten rest)
      → w.written ++ (head ++ flatten rest) ≡ total
      → n ≤ length head
      → IsFaithful
          (record w {
            queue = drop n head ∷ rest;
            queued_bytes = w.queued_bytes - n;
            stream = stream;
            written = w.written ++ take n head;
          })
          total
  unfolding flatten
  part_written head rest n w total c o l =
      let joined : (w.written ++ take n head) ++ (drop n head ++ flatten rest) ≡ total =
        rw (append_assoc, ← append_assoc (take n head), take-append-drop) o in
      record {
        counted = omega (
          arith,
          length-append head (flatten rest),
          length-append (drop n head) (flatten rest),
          length-drop n head,
        );
        complete = λ _. joined;
        prefix = (drop n head ++ flatten rest, joined);
      }

  flush_queue-IsFaithful :
      (q : List (List ℕ)) (w : Writer W) (total : List ℕ)
      → w.queued_bytes ≡ length (flatten q)
      → w.written ++ flatten q ≡ total
      → IsFaithful (flush_queue write q w) total
  unfolding flush_queue flatten
  flush_queue-IsFaithful [] w total c o = record {
    counted = c;
    complete = λ _. o;
    prefix = ([], o);
  }
  flush_queue-IsFaithful (head ∷ rest) w total c o = elim (Option-cases (write w.stream head).1) [
    | inl e ↦
        rw (e, flush_queue)
          (unfold shut in
            record { counted = refl; complete = λ live. cc; prefix = (flatten (head ∷ rest), o) })
    | inr (n, e) ↦
        rw (e, flush_queue)
          (if_ind {A = Writer W} (λ next. IsFaithful next total) (ltb n (length head))
            (λ short. part_written head rest n w total c o (ground arith))
            (λ whole.
              flush_queue-IsFaithful rest
                (record w {
                  queue = rest;
                  queued_bytes = w.queued_bytes - n;
                  stream = (write w.stream head).0;
                  written = w.written ++ take n head;
                })
                total
                (omega (
                  arith,
                  length-append head (flatten rest),
                  within w.stream head n e,
                  ltb-false n (length head) whole,
                ))
                (rw (take_of_le n head (ltb-false n (length head) whole), append_assoc) o)))
  ]

  flush-IsFaithful :
      (w : Writer W) (total : List ℕ) → IsFaithful w total → IsFaithful (flush write w) total
  unfolding flush
  flush-IsFaithful w total v =
      if_ind {A = Writer W} (λ next. IsFaithful next total) w.closed (λ _. v)
        (λ live. flush_queue-IsFaithful w.queue w total v.counted (v.complete live))

  enqueue-IsFaithful :
      (w : Writer W) (total bytes : List ℕ)
      → w.closed ≡ false
      → IsFaithful w total
      → IsFaithful (enqueue write w bytes) (total ++ bytes)
  unfolding enqueue
  enqueue-IsFaithful w total bytes live v =
      let next : Writer W = record w {
        queue = w.queue ++ bytes ∷ [];
        queued_bytes = w.queued_bytes + length bytes;
      } in
      let valid : IsFaithful next (total ++ bytes) = record {
        counted = rw flatten-append (
            unfold flatten in
            ground
              (arith, v.counted, append-nil bytes, length-append (flatten w.queue) (bytes ++ [])));
        complete = λ _.
            rw flatten-append
              (unfold flatten in rw (append-nil, ← append_assoc, v.complete live) refl);
        prefix = (flatten w.queue ++ bytes, rw (← append_assoc, v.complete live) refl);
      } in
      if_ind {A = Writer W} (λ after. IsFaithful after (total ++ bytes)) (length next.queue == 1)
        (λ _. flush-IsFaithful next (total ++ bytes) valid) (λ _. valid)

  send-IsFaithful :
      (encode : Text → List ℕ) (cap : ℕ) (w : Writer W) (total : List ℕ) (text : Text)
      → IsFaithful w total
      → IsFaithful
          (send write encode cap w text).0
          (total ++ asked_by write encode cap (send write encode cap w text).1 text)
  unfolding send
  send-IsFaithful encode cap w total text v =
      let P : Writer W × Option Refusal → Type 0 =
        λ r. IsFaithful r.0 (total ++ asked_by write encode cap r.1 text) in
      let same : IsFaithful w (total ++ []) = rw append-nil v in
      if_ind P w.closed (λ _. same)
        (λ live.
          if_ind P (any (λ c. c == newline) text) (λ _. same)
            (λ _.
              if_ind P (ltb cap (length (encode (text ++ newline ∷ [])) - 1)) (λ _. same)
                (λ _. enqueue-IsFaithful w total (encode (text ++ newline ∷ [])) live v)))

  step-IsFaithful :
      (encode : Text → List ℕ) (cap : ℕ) (w : Writer W) (total : List ℕ) (op : Operation)
      → IsFaithful w total
      → IsFaithful (step write encode cap w op) (total ++ asked write encode cap w op)
  unfolding step
  step-IsFaithful encode cap w total (sends text) v = send-IsFaithful encode cap w total text v
  step-IsFaithful encode cap w total drains v = rw append-nil (flush-IsFaithful w total v)
  step-IsFaithful encode cap w total closes v = rw append-nil (
      if_ind {A = Writer W} (λ next. IsFaithful next total) w.closed (λ _. v)
        (λ live.
          unfold shut flatten in
          record { counted = refl; complete = λ bad. cc; prefix = v.prefix }))

  -- On a stream that accepts at most what it is given, any run of sends, drains and closes keeps this:
  -- `queuedBytes` is the size of the queue, the bytes written are the first of those that the
  -- accepted frames ask for, in order, and while the socket is open the rest of them is queued.
  pub run-IsFaithful :
      (encode : Text → List ℕ) (cap : ℕ) (ops : List Operation) (w : Writer W) (total : List ℕ)
      → IsFaithful w total
      → IsFaithful (run write encode cap w total ops).0 (run write encode cap w total ops).1
  unfolding run
  run-IsFaithful encode cap [] w total v = v
  run-IsFaithful encode cap (op ∷ ops) w total v =
      run-IsFaithful encode cap ops (step write encode cap w op)
        (total ++ asked write encode cap w op) (step-IsFaithful encode cap w total op v)
