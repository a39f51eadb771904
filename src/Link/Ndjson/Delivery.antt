-- ===== src/Link/Ndjson/Delivery.antt =====
-- local-socket.ts: from one end's frames to the other end's messages, whatever the chunks.
use reins.Base.{
  ℕ, ◌+◌, ◌≤◌, ◌≡◌, refl, ap, ◌∙◌, sym, Bool, false, Option, some, List, [], ◌∷◌, ◌++◌, Text, arith,
  length, All, flatten, append_assoc, append-nil, ltb, if◌then◌else◌,
}
use reins.Link.Ndjson.Framing.{newline, Reader, receive}
use reins.Link.Ndjson.Chunks.{
  view, IsValid, HasNoNewline, end_line, feed_all, feed_all-append, feed_all-line, receive-feed_all,
}

-- The messages in the order of their arrival; nothing closes the socket.
abbrev pub collect : List Text → Text → List Text × Bool
collect seen text = (seen ++ text ∷ [], false)

unfoldable pub idle : Reader (List Text)
idle = record { closed = false; parts = []; part_bytes = 0; sink = [] }

module _ (cap : ℕ) (encode : Text → List ℕ) (decode : List ℕ → Option Text) where
  unfoldable pub receive_all : Reader (List Text) → List (List ℕ) → Reader (List Text)
  receive_all r [] = r
  receive_all r (chunk ∷ chunks) = receive_all (receive cap decode collect r chunk) chunks

  unfoldable pub wire : List Text → List ℕ
  wire [] = []
  wire (t ∷ ts) = encode t ++ newline ∷ wire ts

  -- A text that UTF-8 carries on one line, within the cap.
  abbrev pub Carries : Text → Type 0
  Carries t = (decode (encode t) ≡ some t) × HasNoNewline (encode t) × (length (encode t) ≤ cap)

  receive_all-feed_all :
      (r : Reader (List Text)) (chunks : List (List ℕ))
      → IsValid cap r
      → view (receive_all r chunks) ≡ feed_all cap decode collect (view r) (flatten chunks)
  unfolding receive_all flatten
  receive_all-feed_all r [] v = refl
  receive_all-feed_all r (chunk ∷ chunks) v =
      let (first, valid) = receive-feed_all cap decode collect r chunk v in
      receive_all-feed_all (receive cap decode collect r chunk) chunks valid
      ∙ ap (λ w. feed_all cap decode collect w (flatten chunks)) first
      ∙ sym (feed_all-append cap decode collect (view r) chunk (flatten chunks))

  within_cap {ℓ} : {A : Type ℓ} (x y : A) (n : ℕ) → n ≤ cap → (if ltb cap (0 + n) then x else y) ≡ y
  within_cap x y n h = ground arith

  end_line-decoded :
      (seen : List Text) (t : Text)
      → decode (encode t) ≡ some t
      → end_line cap decode collect (record { closed = false; part = encode t; sink = seen })
        ≡ record { closed = false; part = []; sink = seen ++ t ∷ [] }
  unfolding end_line
  end_line-decoded seen t h = rw (h, end_line)

  feed_all-wire :
      (seen ts : List Text)
      → All Carries ts
      → feed_all cap decode collect (record { closed = false; part = []; sink = seen }) (wire ts)
        ≡ record { closed = false; part = []; sink = seen ++ ts }
  unfolding wire
  feed_all-wire seen [] h =
      ap (λ s. record { closed = false; part = []; sink = s }) (sym (append-nil seen))
  feed_all-wire seen (t ∷ ts) ((decoded, plain, small), h) =
      feed_all-line cap decode collect (record { closed = false; part = []; sink = seen })
        (encode t) (wire ts) refl plain (omega arith)
      ∙ within_cap _ _ (length (encode t)) small
      ∙ ap (λ v. feed_all cap decode collect v (wire ts)) (end_line-decoded seen t decoded)
      ∙ feed_all-wire (seen ++ t ∷ []) ts h
      ∙ ap (λ s. record { closed = false; part = []; sink = s }) (append_assoc seen (t ∷ []) ts)

  -- If every text is one that UTF-8 carries on a line within the cap, then a fresh reader that gets
  -- their frames, cut into chunks in any way, delivers exactly these texts in order, stays open and
  -- holds no partial frame.
  pub receive_all-wire :
      (ts : List Text) (chunks : List (List ℕ))
      → All Carries ts
      → flatten chunks ≡ wire ts
      → view (receive_all idle chunks) ≡ record { closed = false; part = []; sink = ts }
  receive_all-wire ts chunks h e =
      unfold idle view flatten in
      receive_all-feed_all idle chunks (omega arith)
      ∙ ap (feed_all cap decode collect (record { closed = false; part = []; sink = [] })) e
      ∙ feed_all-wire [] ts h
