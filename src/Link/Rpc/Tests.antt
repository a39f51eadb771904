-- ===== src/Link/Rpc/Tests.antt =====
-- rpc.ts: a peer with small numbers for JSON values, run on short scenarios.
use reins.Base.{
  ℕ, ◌+◌, ◌≤◌, ◌≡◌, refl, true, false, none, some, List, [], ◌∷◌, text, text_eq, arith,
  if◌then◌else◌, count_key, lookup,
}
use reins.Link.Rpc.Effects.{
  Schema, Call, request, result, wrote, resolved, settled, queued, beat_cleared, socket_closed,
  HeartbeatOptions, max_in_flight, answers, Options, Peer, send, reject_all, fail, create,
}
use reins.Link.Rpc.Calls.{dispatch, enter, call, expire, abandon, after_notify, notify}
use reins.Link.Rpc.Heartbeat.{after_ping, beat}
use reins.Link.Rpc.Inbound.{
  result_of, asks, replies, chars, returned, reply, on_request, on_notification, checked_data,
  settle_reply, on_response, on_content, on_frame, receive, error_message, answer_failure, answer,
  finish,
}
use reins.Link.Rpc.Trace.{Operation, calls, abandons, receives, finishes, closes, tick, step, run}
use reins.Link.Rpc.Settling.{outcomes, issued, run-create-settled_once}
use reins.Link.Rpc.Flight.{in_flight}
use reins.Link.Rpc.Bounds.{IsBounded, run-create-IsBounded}
use reins.Link.Rpc.Late.{receive-abandon_late}
use reins.Link.Rpc.Closing.{refusals, silent, run-closed_silent, silent-closed}

rpc : Unit {0}
unfolding run step tick call dispatch enter send fail reject_all abandon expire notify after_notify
    receive on_frame on_content on_request on_notification on_response settle_reply checked_data
    reply finish answer answer_failure error_message beat after_ping create
rpc = tt

abbrev any_value : Schema ℕ
any_value v = some v

abbrev twice_a_minute : HeartbeatOptions
twice_a_minute = record { interval_ms = 30000; missed_intervals = 2 }

abbrev options : Options ℕ
options = record {
  max_frame_bytes = 100;
  heartbeat = some twice_a_minute;
  handlers =
      λ method. if text_eq method (text "add") then some (answers any_value any_value) else none;
  frame_bytes = λ m. 40;
  value_bytes = λ v. 1;
}

abbrev asked : List (Operation ℕ)
asked = calls (text "list") 7 any_value none false true ∷ []

answered :
    (run options create (
      calls (text "list") 7 any_value none false true
      ∷ receives (chars 30 (replies (some 1) (result_of 8))) true
      ∷ [])).1
    ≡ wrote (request 1 (text "list") 7) ∷ settled 1 ∷ resolved 1 8 ∷ []
unfolding rpc
answered = refl

served :
    (run options create (
      receives (chars 30 (asks 5 (text "add") 2)) true
      ∷ finishes 5 any_value (returned 3) true true
      ∷ [])).1
    ≡ queued 5 (text "add") 2 ∷ wrote (result 5 3) ∷ []
unfolding rpc
served = refl

unsolicited :
    (run options create (receives (chars 30 (replies (some 1) (result_of 8))) true ∷ [])).1
    ≡ beat_cleared ∷ socket_closed ∷ []
unfolding rpc
unsolicited = refl

run-create-settled_once_example :
    outcomes 1
        (run options create (calls (text "list") 7 any_value none false true ∷ closes ∷ [])).1
      + count_key 1
          (run options create
            (calls (text "list") 7 any_value none false true ∷ closes ∷ [])).0.pending
    ≡ issued 1
        (run options create
          (calls (text "list") 7 any_value none false true ∷ closes ∷ [])).0.next_id
run-create-settled_once_example =
    run-create-settled_once 1 options
      (calls (text "list") 7 any_value none false true ∷ closes ∷ [])

abbrev served_twice : List (Operation ℕ)
served_twice =
    receives (chars 30 (asks 5 (text "add") 2)) true
    ∷ receives (chars 30 (asks 6 (text "add") 3)) true
    ∷ finishes 5 any_value (returned 3) true true
    ∷ []

run-create-IsBounded_example :
    IsBounded (run options create served_twice).0
    × (in_flight options create served_twice 0 ≤ max_in_flight)
run-create-IsBounded_example = run-create-IsBounded options served_twice

is_closed : (run options create (closes ∷ [])).0.closed ≡ true
unfolding rpc
is_closed = refl

run-closed_silent_example :
    ((run options (run options create (closes ∷ [])).0 asked).0.closed ≡ true)
    × ((run options (run options create (closes ∷ [])).0 asked).1 ≡ refusals asked)
run-closed_silent_example = run-closed_silent options (closes ∷ []) asked is_closed

silent-closed_example : (run options create (silent 3)).0.closed ≡ true
unfolding create
silent-closed_example =
    silent-closed options twice_a_minute refl (omega arith) 2 create refl refl (omega arith)

abbrev listing : Call ℕ
listing = record { schema = any_value; error_data = none }

is_pending : lookup 1 (run options create asked).0.pending ≡ some listing
unfolding rpc
is_pending = refl

abbrev timed_out : Peer ℕ
timed_out = (abandon (run options create asked).0 1 (text "Call timed out after 5ms")).0

-- Another call is given up before the late reply.
abbrev another : List (Operation ℕ)
another = calls (text "list") 7 any_value none false true ∷ abandons 2 (text "Call timed out") ∷ []

still_open : (run options timed_out another).0.closed ≡ false
unfolding rpc
still_open = refl

receive-abandon_late_example :
    let q = (run options timed_out another).0 in
    let late = receive options q (chars 30 (replies (some 1) (result_of 8))) true in
    (late.1 ≡ []) × (late.0.closed ≡ false)
receive-abandon_late_example =
    receive-abandon_late options asked another 1 30 (text "Call timed out after 5ms") listing
      (result_of 8) true is_pending (omega arith) refl still_open (omega arith)
