-- ===== src/Serving/Tests.antt =====
-- streams.ts: a binary stream of two chunks, and one that is stopped.
use reins.Base.{
  true, ℕ, ◌≡◌, ◌≤◌, refl, false, none, some, List, [], ◌∷◌, ◌++◌, length, flatten, arith,
}
use reins.Serving.Pump.{
  as_it_is, nothing, finished, close, Answer, aborted, chunk, finish, done, Sender, pieces_from,
  pieces, send, send_pieces, send_chunks, failed, complete, pump, serve, cancel,
}
use reins.Serving.Frames.{IsPart}
use reins.Serving.Prefix.{pump-prefix}
use reins.Serving.Whole.{always}
use reins.Serving.Arrival.{arrivals, run-arrivals-pump}
use reins.Streams.Registry.{Registry, Effect, body_closed, resolved, run}
use reins.Streams.Content.{delivered}

run_serving : Unit {0}
unfolding pieces_from pieces send send_pieces send_chunks failed complete pump serve cancel
run_serving = tt

abbrev fresh : Sender (Unit {0})
fresh = record { stopped = false; offset = 0; sent = 0; decoder = tt }

abbrev chunks : List (List ℕ)
chunks = (7 ∷ 8 ∷ []) ∷ (9 ∷ []) ∷ []

abbrev stops_first : ℕ → Answer
stops_first n = aborted

sends_whole :
    pump as_it_is nothing always fresh chunks (done (some 0))
    ≡ chunk 0 (7 ∷ 8 ∷ []) ∷ chunk 2 (9 ∷ []) ∷ finish none (some 0) ∷ []
unfolding run_serving
sends_whole = refl

sends_part : pump as_it_is nothing stops_first fresh chunks (done none) ≡ chunk 0 (7 ∷ 8 ∷ []) ∷ []
unfolding run_serving
sends_part = refl

serves_once : serve 1 ((1, false) ∷ []) ≡ none
unfolding run_serving
serves_once = refl

pump-prefix_example :
    IsPart 0 (flatten chunks) (pump as_it_is nothing stops_first fresh chunks (done none))
pump-prefix_example = pump-prefix stops_first fresh chunks (done none) refl refl

abbrev registry : Registry
registry = record {
  closed = false;
  next_id = 1;
  streams = (1, record { received = 0; queued = 0 }) ∷ [];
}

chunks_fit : length (flatten chunks) ≤ 4
unfolding flatten
chunks_fit = omega arith

run-arrivals-pump_example :
    (es : List Effect) × ((run 4 registry
        (arrivals 1 (pump as_it_is nothing always fresh chunks (done (some 0))))).1
      ≡ es ++ body_closed 1 ∷ resolved 1 (some 0) ∷ [])
    × (delivered 1 es ≡ flatten chunks)
run-arrivals-pump_example =
    run-arrivals-pump 4 registry 1 fresh chunks (some 0) refl refl refl chunks_fit

serves_again :
    serve 1 (finished 1 ((1, true) ∷ (2, false) ∷ [])) ≡ some ((2, false) ∷ (1, false) ∷ [])
unfolding serve finished
serves_again = refl

closes_all : close ((1, false) ∷ (2, true) ∷ []) ≡ (1 ∷ 2 ∷ [], [])
unfolding close
closes_all = refl
