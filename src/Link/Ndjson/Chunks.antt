-- ===== src/Link/Ndjson/Chunks.antt =====
-- local-socket.ts: `receive` against a reader that takes one byte at a time.
use reins.Base.{
  ℕ, zero, suc, ◌+◌, ◌≤◌, ◌≡◌, ◌≢◌, refl, ap, ◌∙◌, sym, Bool, true, false, Option, none, some, List,
  [], ◌∷◌, ◌++◌, Text, arith, ltb, ◌==◌, if◌then◌else◌, length, length-append, length-drop-le, take,
  drop, All, Bool-cases, if_ind, Option-cases, inl, inr, append-nil, append_assoc, flatten,
  flatten-append,
}
use reins.Link.Ndjson.Framing.{
  newline, index_of_newline, Reader, shut, complete, receive_loop, receive,
}

-- What a reader shows: the partial frame as one text of bytes.
pub record View (S : Type 0) : Type 0 where
  pub closed : Bool
  pub part : List ℕ
  pub sink : S

unfoldable pub view : {S : Type 0} → Reader S → View S
view r = record { closed = r.closed; part = flatten r.parts; sink = r.sink }

-- The counter is right, the partial frame is within the cap, and a closed reader holds none.
pub record IsValid {S : Type 0} (cap : ℕ) (r : Reader S) : Type 0 where
  pub counted : r.part_bytes ≡ length (flatten r.parts)
  pub within : r.part_bytes ≤ cap

abbrev pub HasNoNewline : List ℕ → Type 0
HasNoNewline = All (λ b. b ≢ newline)

index-none : (bytes : List ℕ) → index_of_newline bytes ≡ none → HasNoNewline bytes
unfolding index_of_newline
index-none [] h = tt
index-none (b ∷ bytes) h = ground (arith, index-none bytes)

index-some :
    (bytes : List ℕ) (i : ℕ)
    → index_of_newline bytes ≡ some i
    → HasNoNewline (take i bytes) × (bytes ≡ take i bytes ++ newline ∷ drop (suc i) bytes)
unfolding index_of_newline
index-some [] i h = cc
index-some (b ∷ bytes) zero h = (tt, ground arith)
index-some (b ∷ bytes) (suc i) h =
    let ih = index-some bytes i (ground arith) in ((ground arith, ih.0), ap (◌∷◌ b) ih.1)

module _ {S : Type 0} (cap : ℕ) (decode : List ℕ → Option Text)
    (deliver : S → Text → S × Bool) where
  unfoldable pub end_line : View S → View S
  end_line v = elim (decode v.part) [
    | none ↦ record v { closed = true; part = [] }
    | some text ↦
        let (sink, closes) = deliver v.sink text in
        record { closed = closes; part = []; sink = sink }
  ]

  -- The specification: one byte.
  unfoldable pub feed : View S → ℕ → View S
  feed v b =
      if v.closed
      then v
      else if b == newline
      then end_line v
      else if ltb cap (length v.part + 1)
      then record v { closed = true; part = [] }
      else record v { part = v.part ++ b ∷ [] }

  abbrev pub feed_all : View S → List ℕ → View S
  feed_all v [] = v
  feed_all v (b ∷ bytes) = feed_all (feed v b) bytes

  pub feed_all-append :
      (v : View S) (a b : List ℕ) → feed_all v (a ++ b) ≡ feed_all (feed_all v a) b
  feed_all-append v [] b = refl
  feed_all-append v (x ∷ a) b = feed_all-append (feed v x) a b

  feed_all-closed : (v : View S) (bytes : List ℕ) → v.closed ≡ true → feed_all v bytes ≡ v
  unfolding feed
  feed_all-closed v [] h = refl
  feed_all-closed v (b ∷ bytes) h = ground (arith, feed_all-closed v bytes)

  -- A piece without a newline extends the partial frame, or closes the socket at the cap.
  feed_all-piece :
      (v : View S) (piece : List ℕ)
      → v.closed ≡ false
      → HasNoNewline piece
      → length v.part ≤ cap
      → feed_all v piece ≡ (
          if ltb cap (length v.part + length piece)
          then record v { closed = true; part = [] }
          else record v { part = v.part ++ piece })
  unfolding feed
  feed_all-piece v [] live h l = ground (arith, append-nil v.part)
  feed_all-piece v (b ∷ piece) live h l = ground (
    arith,
    feed_all-closed (feed v b) piece,
    feed_all-piece (record v { part = v.part ++ b ∷ [] }) piece live h.1,
    length-append v.part (b ∷ []),
    append_assoc v.part (b ∷ []) piece,
  )

  feed-newline : (v : View S) → v.closed ≡ false → feed v newline ≡ end_line v
  unfolding feed
  feed-newline v live = ground arith

  -- What a complete line does: the pieces before its newline and the newline itself.
  pub feed_all-line :
      (v : View S) (piece rest : List ℕ)
      → v.closed ≡ false
      → HasNoNewline piece
      → length v.part ≤ cap
      → feed_all v (piece ++ newline ∷ rest) ≡ (
          if ltb cap (length v.part + length piece)
          then record v { closed = true; part = [] }
          else feed_all (end_line (record v { part = v.part ++ piece })) rest)
  feed_all-line v piece rest live h l =
      rw (feed_all-append v piece (newline ∷ rest), feed_all-piece v piece live h l)
        (elim (Bool-cases (ltb cap (length v.part + length piece))) [
          | inl over ↦
              rw over
                (feed_all-closed (record v { closed = true; part = [] }) (newline ∷ rest) refl)
          | inr fits ↦
              rw fits (
                ap (λ w. feed_all w rest) (feed-newline (record v { part = v.part ++ piece }) live))
        ])

  view-complete :
      (r : Reader S) (frame : List ℕ)
      → view (complete cap decode deliver r frame) ≡ end_line (record (view r) { part = frame })
  unfolding view complete shut end_line flatten
  view-complete r frame = ground arith

  complete-IsValid :
      (r : Reader S) (frame : List ℕ) → IsValid cap (complete cap decode deliver r frame)
  unfolding complete shut flatten
  complete-IsValid r frame = ground arith

  -- A chunk with no newline left.
  keeps_part :
      (r : Reader S) (piece : List ℕ)
      → r.closed ≡ false
      → HasNoNewline piece
      → IsValid cap r
      → let next = if ltb cap (r.part_bytes + length piece) then shut r else record r {
        parts = r.parts ++ piece ∷ [];
        part_bytes = r.part_bytes + length piece;
      } in
        (view next ≡ feed_all (view r) piece) × IsValid cap next
  keeps_part r piece live h v =
      let e = feed_all-piece (view r) piece (unfold view in live) h (unfold view in omega arith) in
      if_ind (λ next. (view next ≡ feed_all (view r) piece) × IsValid cap next)
        (ltb cap (r.part_bytes + length piece))
        (λ over. unfold view shut flatten in ground (arith, e))
        (λ fits.
          unfold view flatten in
          ground (
            arith,
            e,
            flatten-append r.parts (piece ∷ []),
            append-nil piece,
            length-append (flatten r.parts) piece,
          ))

  -- A line that the chunk completes, and the rest of the chunk.
  ends_line :
      (r : Reader S) (piece rest : List ℕ) (next : Reader S)
      → r.closed ≡ false
      → HasNoNewline piece
      → IsValid cap r
      → ((view next
            ≡ feed_all (view (complete cap decode deliver r (flatten r.parts ++ piece))) rest)
          × IsValid cap next)
      → let after = if ltb cap (r.part_bytes + length piece) then shut r else next in
        (view after ≡ feed_all (view r) (piece ++ newline ∷ rest)) × IsValid cap after
  ends_line r piece rest next live h v step =
      let e =
        feed_all-line (view r) piece rest (unfold view in live) h (unfold view in omega arith) in
      let c = view-complete r (flatten r.parts ++ piece) in
      if_ind
        (λ after. (view after ≡ feed_all (view r) (piece ++ newline ∷ rest)) × IsValid cap after)
        (ltb cap (r.part_bytes + length piece))
        (λ over. unfold view shut flatten in ground (arith, e))
        (λ fits.
          (step.0 ∙ ap (λ w. feed_all w rest) c ∙ sym (unfold view in ground (arith, e)), step.1))

  receive_loop-feed_all :
      (fuel : ℕ) (r : Reader S) (rest : List ℕ)
      → length rest ≤ fuel
      → IsValid cap r
      → (view (receive_loop cap decode deliver fuel r rest) ≡ feed_all (view r) rest)
        × IsValid cap (receive_loop cap decode deliver fuel r rest)
  unfolding receive_loop
  receive_loop-feed_all zero r [] h v = (refl, v)
  receive_loop-feed_all zero r (b ∷ bytes) h v = absurd (omega arith)
  receive_loop-feed_all (suc fuel) r [] h v = (refl, v)
  receive_loop-feed_all (suc fuel) r (b ∷ bytes) h v =
      if_ind (λ next. (view next ≡ feed_all (view r) (b ∷ bytes)) × IsValid cap next) r.closed
        (λ done. (sym (feed_all-closed (view r) (b ∷ bytes) (unfold view in done)), v))
        (λ live. elim (Option-cases (index_of_newline (b ∷ bytes))) [
          | inl e ↦ rw e (keeps_part r (b ∷ bytes) live (index-none (b ∷ bytes) e) v)
          | inr (i, e) ↦
              let parts = index-some (b ∷ bytes) i e in
              let r' = complete cap decode deliver r (flatten r.parts ++ take i (b ∷ bytes)) in
              let found =
                ends_line r (take i (b ∷ bytes)) (drop i bytes)
                  (receive_loop cap decode deliver fuel r' (drop i bytes)) live parts.0 v
                  (receive_loop-feed_all fuel r' (drop i bytes)
                    (omega (arith, length-drop-le i bytes))
                    (complete-IsValid r (flatten r.parts ++ take i (b ∷ bytes)))) in
              rw e (found.0 ∙ ap (feed_all (view r)) (sym parts.1), found.1)
        ])

  -- From a valid reader, taking a chunk leaves it valid and is taking its bytes one at a time: frames
  -- end at newlines, are delivered in order until the consumer or a fault closes the socket, and a
  -- partial frame closes it as soon as it passes the cap. The loop's fuel is enough.
  pub receive-feed_all :
      (r : Reader S) (chunk : List ℕ)
      → IsValid cap r
      → (view (receive cap decode deliver r chunk) ≡ feed_all (view r) chunk)
        × IsValid cap (receive cap decode deliver r chunk)
  unfolding receive
  receive-feed_all r chunk v = receive_loop-feed_all (length chunk) r chunk (omega arith) v

  -- How a stream is cut into chunks does not matter: from a valid reader, two chunks in turn show what
  -- their bytes show as one chunk.
  pub receive-append :
      (r : Reader S) (a b : List ℕ)
      → IsValid cap r
      → view (receive cap decode deliver (receive cap decode deliver r a) b)
        ≡ view (receive cap decode deliver r (a ++ b))
  receive-append r a b v =
      let (first, valid) = receive-feed_all r a v in
      (receive-feed_all (receive cap decode deliver r a) b valid).0
      ∙ ap (λ w. feed_all w b) first
      ∙ sym (feed_all-append (view r) a b)
      ∙ sym (receive-feed_all r (a ++ b) v).0
