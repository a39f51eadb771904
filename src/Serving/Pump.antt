-- ===== src/Serving/Pump.antt =====
-- streams.ts: `createStreamSender` and `pump`. The source is the chunks that it yields and how it ends.
use reins.Base.{
  keep, not, map, ℕ, zero, suc, ◌+◌, Bool, true, false, ◌||◌, Option, none, some, List, [], ◌∷◌,
  ◌++◌, Text, text, length, take, drop, any, ◌==◌, if◌then◌else◌,
}

abbrev pub stream_chunk_bytes : ℕ
stream_chunk_bytes = 65536

abbrev pub max_error_message : ℕ
max_error_message = 2048

-- What the link says to a chunk: it is sent, it is sent and the stream is stopped before the next
-- one, or it cannot be sent.
pub data Answer : Type 0 where
  accepted aborted refused : Answer

pub data Frame : Type 0 where
  chunk : (offset : ℕ) → List ℕ → Frame
  finish : Option Text → Option ℕ → Frame

pub data Ending : Type 0 where
  done : Option ℕ → Ending
  fails : Text → Ending

-- `sent` counts the chunks given to the link.
pub record Sender (D : Type 0) : Type 0 where
  pub stopped : Bool
  pub offset : ℕ
  pub sent : ℕ
  pub decoder : D

-- The pieces of a chunk.
unfoldable pub pieces_from : ℕ → List ℕ → List (List ℕ)
pieces_from zero bytes = []
pieces_from (suc fuel) [] = []
pieces_from (suc fuel) (b ∷ bytes) =
    take stream_chunk_bytes (b ∷ bytes) ∷ pieces_from fuel (drop stream_chunk_bytes (b ∷ bytes))

unfoldable pub pieces : List ℕ → List (List ℕ)
pieces bytes = pieces_from (length bytes) bytes

-- A binary stream has no decoder: each piece is sent as it is, and nothing is left at the end.
abbrev pub as_it_is : Unit {0} → List ℕ → Unit {0} × List ℕ
as_it_is d bytes = (tt, bytes)

abbrev pub nothing : Unit {0} → List ℕ
nothing d = []

-- The decoder gives the UTF-8 of the text that a piece completes, and `rest` that of its last
-- call.
module _ {D : Type 0} (decode : D → List ℕ → D × List ℕ) (rest : D → List ℕ)
    (answer : ℕ → Answer) where
  abbrev pub advanced : Sender D → List ℕ → Sender D
  advanced s bytes = record s { offset = s.offset + length bytes; sent = suc s.sent }

  -- `send`: the sender, the frames, and whether it threw.
  unfoldable pub send : Sender D → List ℕ → Sender D × List Frame × Bool
  send s bytes = if length bytes == 0 || s.stopped then (s, [], false) else elim (answer s.sent) [
    | accepted ↦ (advanced s bytes, chunk s.offset bytes ∷ [], false)
    | aborted ↦ (record (advanced s bytes) { stopped = true }, chunk s.offset bytes ∷ [], false)
    | refused ↦ (record s { sent = suc s.sent }, [], true)
  ]

  unfoldable pub send_pieces : Sender D → List (List ℕ) → Sender D × List Frame × Bool
  send_pieces s [] = (s, [], false)
  send_pieces s (p ∷ ps) =
      let (d, out) = decode s.decoder p in
      let (t, fs, threw) = send (record s { decoder = d }) out in
      let (u, gs, late) = send_pieces t ps in
      if threw || t.stopped then (t, fs, threw) else (u, fs ++ gs, late)

  unfoldable pub send_chunks : Sender D → List (List ℕ) → Sender D × List Frame × Bool
  send_chunks s [] = (s, [], false)
  send_chunks s (c ∷ cs) =
      let (t, fs, threw) = send_pieces s (pieces c) in
      let (u, gs, late) = send_chunks t cs in
      if s.stopped
      then (s, [], false)
      else if threw || t.stopped
      then (t, fs, threw)
      else (u, fs ++ gs, late)

  -- The `catch` of `pump`.
  unfoldable pub failed : Sender D → Text → List Frame
  failed s message =
      if s.stopped then [] else finish (some (take max_error_message message)) none ∷ []

  abbrev pub unsent : Text
  unsent = text "Stream chunk could not be sent"

  -- The last of `pump`, when the source ended.
  unfoldable pub complete : Sender D → Ending → List Frame
  complete s (fails message) = failed s message
  complete s (done exit) =
      let (t, fs, threw) = send s (rest s.decoder) in
      if threw then failed t unsent else fs ++ (if t.stopped then [] else finish none exit ∷ [])

  -- `pump`: the frames that it sends.
  unfoldable pub pump : Sender D → List (List ℕ) → Ending → List Frame
  pump s chunks ending =
      let (t, fs, threw) = send_chunks s chunks in
      fs ++ (if threw then failed t unsent else if t.stopped then [] else complete t ending)

-- The open streams of `createStreamSender`, each with whether it was told to stop.
unfoldable pub serve : ℕ → List (ℕ × Bool) → Option (List (ℕ × Bool))
serve id open_streams =
    if any (λ s. s.0 == id) open_streams then none else some (open_streams ++ (id, false) ∷ [])

unfoldable pub cancel : ℕ → List (ℕ × Bool) → List (ℕ × Bool)
cancel id [] = []
cancel id ((k, stopped) ∷ xs) = if k == id then (k, true) ∷ xs else (k, stopped) ∷ cancel id xs

-- The `finally` of `serve`: a stream that has ended is no longer open.
unfoldable pub finished : ℕ → List (ℕ × Bool) → List (ℕ × Bool)
finished id open_streams = keep (λ s. not (s.0 == id)) open_streams

-- `close`: the streams that it stops; none is open behind it.
unfoldable pub close : List (ℕ × Bool) → List ℕ × List (ℕ × Bool)
close open_streams = (map (λ s. s.0) open_streams, [])
