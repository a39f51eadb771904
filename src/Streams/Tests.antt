-- ===== src/Streams/Tests.antt =====
-- node-streams.ts: two streams of a connection with a buffer of four bytes.
use reins.Base.{◌+◌, ◌≡◌, refl, true, false, some, List, [], ◌∷◌, lookup, count_key, arith, flatten}
use reins.Streams.Registry.{
  Registry, offset_gap, over_buffer, started, enqueued, body_failed, rejected, told_to_cancel,
  open_refused, create, fail, open_stream, start_failed, cancel_body, read_body, receive_data,
  end_stream, fail_all, close, Operation, opens, closes, receives, step, run,
}
use reins.Streams.Ending.{settlings, opened, run-create-ended_once}
use reins.Streams.Buffers.{IsBounded, run-create-IsBounded_streams}
use reins.Streams.Content.{sent_from, delivered, advanced, run-sent_from}

run_streams : Unit {0}
unfolding create fail open_stream start_failed cancel_body read_body receive_data end_stream
    fail_all close step run delivered flatten
run_streams = tt

abbrev operations : List Operation
operations =
    opens
    ∷ opens
    ∷ receives 1 0 (7 ∷ 8 ∷ [])
    ∷ receives 2 1 (9 ∷ [])
    ∷ receives 1 2 (1 ∷ 2 ∷ 3 ∷ [])
    ∷ closes
    ∷ opens
    ∷ []

over_and_gap : run 4 create operations ≡ (
  record { closed = true; next_id = 2; streams = [] },
  started 1
      ∷ started 2
      ∷ enqueued 1 (7 ∷ 8 ∷ [])
      ∷ body_failed 2 offset_gap
      ∷ rejected 2 offset_gap
      ∷ told_to_cancel 2
      ∷ enqueued 1 (1 ∷ 2 ∷ 3 ∷ [])
      ∷ body_failed 1 over_buffer
      ∷ rejected 1 over_buffer
      ∷ told_to_cancel 1
      ∷ open_refused
      ∷ [],
)
unfolding run_streams
over_and_gap = refl

run-create-ended_once_example :
    settlings 2 (run 4 create operations).1 + count_key 2 (run 4 create operations).0.streams
    ≡ opened 2 (run 4 create operations).0.next_id
run-create-ended_once_example = run-create-ended_once 2 4 operations

run-create-IsBounded_streams_example : IsBounded 4 (run 4 create operations).0
run-create-IsBounded_streams_example = run-create-IsBounded_streams 4 operations

abbrev one : Registry
one = record {
  closed = false;
  next_id = 1;
  streams = (1, record { received = 0; queued = 0 }) ∷ [];
}

run-sent_from_example :
    let (q, es) = run 4 one (sent_from 1 0 ((7 ∷ []) ∷ (8 ∷ 9 ∷ []) ∷ [])) in
    (delivered 1 es ≡ flatten ((7 ∷ []) ∷ (8 ∷ 9 ∷ []) ∷ []))
    × (lookup 1 q.streams ≡ some (advanced (record { received = 0; queued = 0 }) 3))
run-sent_from_example =
    run-sent_from 4 ((7 ∷ []) ∷ (8 ∷ 9 ∷ []) ∷ []) one 1 (record { received = 0; queued = 0 }) refl
      (omega arith)
