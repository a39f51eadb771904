-- ===== src/Link/Ndjson/Tests.antt =====
-- local-socket.ts: a codec that keeps the code units of ASCII text, and a stream of two bytes a write.
use reins.Base.{
  ℕ, ◌+◌, ◌≤◌, ◌≡◌, refl, true, false, Option, some, List, [], ◌∷◌, ◌++◌, Text, text, arith, min,
  length, flatten,
}
use reins.Link.Ndjson.Framing.{index_of_newline, shut, complete, receive_loop, receive}
use reins.Link.Ndjson.Chunks.{view, IsValid, feed_all, receive-feed_all}
use reins.Link.Ndjson.Queue.{
  Writer, Operation, sends, drains, flush_queue, flush, enqueue, send, step, run,
}
use reins.Link.Ndjson.Order.{IsFaithful, run-IsFaithful}
use reins.Link.Ndjson.Delivery.{collect, idle, receive_all, wire, receive_all-wire}

ndjson : Unit {0}
unfolding index_of_newline complete receive_loop receive view flush_queue flush enqueue send step
    run idle receive_all wire flatten
ndjson = tt

abbrev ascii : List ℕ → Option Text
ascii bytes = some bytes

abbrev same : Text → List ℕ
same t = t

split_frame :
    view (receive_all 9 same ascii idle (text "ab" ∷ (text "c" ++ 10 ∷ text "d") ∷ (10 ∷ []) ∷ []))
    ≡ record { closed = false; part = []; sink = text "abc" ∷ text "d" ∷ [] }
unfolding ndjson
split_frame = refl

over_cap : (receive 3 ascii collect idle (text "abcd")).closed ≡ true
unfolding ndjson shut
over_cap = refl

idle-IsValid : IsValid 9 idle
unfolding ndjson
idle-IsValid = omega arith

receive-feed_all_example :
    (view (receive 9 ascii collect idle (text "ab"))
      ≡ feed_all 9 ascii collect (view idle) (text "ab"))
    × IsValid 9 (receive 9 ascii collect idle (text "ab"))
receive-feed_all_example = receive-feed_all 9 ascii collect idle (text "ab") idle-IsValid

receive_all-wire_example :
    view (receive_all 9 same ascii idle (text "a" ∷ (10 ∷ text "b") ∷ (10 ∷ []) ∷ []))
    ≡ record { closed = false; part = []; sink = text "a" ∷ text "b" ∷ [] }
unfolding ndjson
receive_all-wire_example =
    receive_all-wire 9 same ascii (text "a" ∷ text "b" ∷ [])
      (text "a" ∷ (10 ∷ text "b") ∷ (10 ∷ []) ∷ []) (ground arith) refl

-- The stream takes two bytes at a time.
abbrev narrow : ℕ → List ℕ → ℕ × Option ℕ
narrow s bytes = (s + 1, some (min 2 (length bytes)))

narrow_within : (s : ℕ) (bytes : List ℕ) (n : ℕ) → (narrow s bytes).1 ≡ some n → n ≤ length bytes
narrow_within s bytes n h = ground arith

abbrev fresh : Writer ℕ
fresh = record { closed = false; queue = []; queued_bytes = 0; stream = 0; written = [] }

fresh-IsFaithful : IsFaithful fresh []
unfolding flatten
fresh-IsFaithful = record { counted = refl; complete = λ _. refl; prefix = ([], refl) }

abbrev traffic : List Operation
traffic = sends (text "abc") ∷ sends (text "d") ∷ drains ∷ []

queued : (run narrow same 9 fresh [] traffic).0 ≡ record {
  closed = false;
  queue = [];
  queued_bytes = 0;
  stream = 3;
  written = text "abc" ++ 10 ∷ text "d" ++ 10 ∷ [];
}
unfolding ndjson
queued = refl

run-IsFaithful_example :
    IsFaithful (run narrow same 9 fresh [] traffic).0 (run narrow same 9 fresh [] traffic).1
run-IsFaithful_example =
    run-IsFaithful narrow narrow_within same 9 traffic fresh [] fresh-IsFaithful
