-- ===== src/Link/Ndjson/Queue.antt =====
-- local-socket.ts: the sending side, `send`, `flush`, `drain` and the counted queue.
use reins.Base.{
  ℕ, ◌+◌, ◌-◌, Bool, true, Option, none, some, List, [], ◌∷◌, ◌++◌, Text, ltb, ◌==◌, if◌then◌else◌,
  length, take, drop, any,
}
use reins.Link.Ndjson.Framing.{newline}

-- `W` is the stream's own state, which outlives its refusals; `written` is all that it has accepted.
pub record Writer (W : Type 0) : Type 0 where
  pub closed : Bool
  pub queue : List (List ℕ)
  pub queued_bytes : ℕ
  pub stream : W
  pub written : List ℕ

unfoldable pub shut : {W : Type 0} → Writer W → Writer W
shut w = record w { closed = true; queue = []; queued_bytes = 0 }

pub data Refusal : Type 0 where
  socket_closed has_newline too_large : Refusal

-- `write` accepts some first bytes, or fails: it threw or returned a negative number.
module _ {W : Type 0} (write : W → List ℕ → W × Option ℕ) where
  -- The loop of `flush`, with the queue that it works on.
  unfoldable pub flush_queue : List (List ℕ) → Writer W → Writer W
  flush_queue [] w = record w { queue = [] }
  flush_queue (head ∷ rest) w =
      let (stream, answer) = write w.stream head in
      elim answer [
        | none ↦ shut (record w { stream = stream })
        | some n ↦
            let more = flush_queue rest (record w {
              queue = rest;
              queued_bytes = w.queued_bytes - n;
              stream = stream;
              written = w.written ++ take n head;
            }) in
            if ltb n (length head)
            then record w {
              queue = drop n head ∷ rest;
              queued_bytes = w.queued_bytes - n;
              stream = stream;
              written = w.written ++ take n head;
            }
            else more
      ]

  unfoldable pub flush : Writer W → Writer W
  unfolding flush_queue shut
  flush w = if w.closed then w else flush_queue w.queue w

  -- The outcome of `send`: an exception, or nothing.
  unfoldable pub enqueue : Writer W → List ℕ → Writer W
  enqueue w bytes =
      let next = record w {
        queue = w.queue ++ bytes ∷ [];
        queued_bytes = w.queued_bytes + length bytes;
      } in
      if length next.queue == 1 then flush next else next

  unfoldable pub send :
      (encode : Text → List ℕ) (max_frame_bytes : ℕ) → Writer W → Text → Writer W × Option Refusal
  send encode max_frame_bytes w text =
      if w.closed
      then (w, some socket_closed)
      else if any (λ c. c == newline) text
      then (w, some has_newline)
      else if ltb max_frame_bytes (length (encode (text ++ newline ∷ [])) - 1)
      then (w, some too_large)
      else (enqueue w (encode (text ++ newline ∷ [])), none)

pub data Operation : Type 0 where
  sends : Text → Operation
  drains closes : Operation

module _ {W : Type 0} (write : W → List ℕ → W × Option ℕ) (encode : Text → List ℕ) (cap : ℕ) where
  unfoldable pub step : Writer W → Operation → Writer W
  step w (sends text) = (send write encode cap w text).0
  step w drains = flush write w
  step w closes = if w.closed then w else shut w

  -- The bytes that an operation adds to what was asked to be written.
  abbrev pub asked_by : Option Refusal → Text → List ℕ
  asked_by none text = encode (text ++ newline ∷ [])
  asked_by (some _) text = []

  abbrev pub asked : Writer W → Operation → List ℕ
  asked w (sends text) = asked_by (send write encode cap w text).1 text
  asked w _ = []

  -- A run, with the bytes of every frame that `send` took, in order.
  unfoldable pub run : Writer W → List ℕ → List Operation → Writer W × List ℕ
  run w total [] = (w, total)
  run w total (op ∷ ops) = run (step w op) (total ++ asked w op) ops
