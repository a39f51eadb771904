-- ===== src/Chat/Tests.antt =====
-- chat-state.ts: a short run with one tool call; what is passed on unread is a number.
use reins.Base.{
  ℕ, ◌≡◌, refl, true, false, none, some, List, [], ◌∷◌, ◌++◌, map, Text, text, find, flatten,
}
use reins.Chat.State.{
  assistant, text_block, Message, ToolExecution, StreamingAssistant, text_delta, thinking_delta,
  Event, agent_start, message_start, message_end, message_update, tool_execution_start,
  tool_execution_update, tool_execution_end, ChatState, initial_chat_state,
}
use reins.Chat.Reducer.{
  has_stream, at_stream, upsert_assistant_snapshot, apply_stream_step, stepped,
  apply_assistant_delta, mark_streams_stale, is_persisted, remove_persisted, find_tool, put_tool,
  set_tool_execution, last_error, end_error, apply_chat_event, apply_all,
}
use reins.Chat.Streams.{apply_deltas, with_text, apply_deltas-message_end, apply_deltas-text_delta}
use reins.Chat.Changes.{Change, event, gap, run_over, change_all, change}
use reins.Chat.Distinct.{IsDistinct, change_all-IsDistinct}
use reins.Chat.Tools.{Ended, apply_chat_event-Ended}

run_chat : Unit {0}
unfolding at_stream upsert_assistant_snapshot apply_stream_step stepped apply_assistant_delta
    mark_streams_stale is_persisted remove_persisted find_tool put_tool set_tool_execution
    last_error end_error apply_chat_event apply_all initial_chat_state apply_deltas flatten
run_chat = tt

abbrev said : Text → Message ℕ
said t = record {
  role = assistant;
  content = text_block t 7 ∷ [];
  stopped_by_error = false;
  error_message = none;
  rest = 0;
}

abbrev ended : ToolExecution ℕ
ended = record { done = true; result = some 5; is_error = none }

abbrev events : List (Event ℕ)
events =
    agent_start
    ∷ message_start (said (text "He")) (text "s1")
    ∷ message_update none (text "s1") (text_delta 0 (text "llo"))
    ∷ tool_execution_start (text "t1")
    ∷ tool_execution_end (text "t1") (some 5) none
    ∷ tool_execution_update (text "t1") (some 4)
    ∷ []

abbrev shown : ChatState ℕ
shown = record {
  streaming_assistants =
      record {
        stream_id = text "s1";
        durable_id = none;
        message = said (text "Hello");
        stale = false;
      }
      ∷ [];
  tool_executions = (text "t1", ended) ∷ [];
  is_compacting = false;
  error_message = [];
}

shows : apply_all initial_chat_state events ≡ shown
unfolding run_chat
shows = refl

misfit :
    apply_chat_event shown (message_update none (text "s1") (thinking_delta 0 (text "x")))
    ≡ record shown {
      streaming_assistants =
          record {
            stream_id = text "s1";
            durable_id = none;
            message = said (text "Hello");
            stale = true;
          }
          ∷ [];
    }
unfolding run_chat
misfit = refl

abbrev changes : List (Change ℕ)
changes = gap ∷ map event events ++ gap ∷ run_over ∷ map event events

change_all-IsDistinct_example : IsDistinct (change_all initial_chat_state changes)
change_all-IsDistinct_example = change_all-IsDistinct changes

changed : change_all initial_chat_state (map event events) ≡ apply_all initial_chat_state events
unfolding run_chat change_all change
changed = refl

shown-Ended : Ended (text "t1") shown
unfolding run_chat
shown-Ended = (ended, refl, refl)

apply_chat_event-Ended_example :
    Ended (text "t1") (apply_chat_event shown (tool_execution_update (text "t1") (some 9)))
apply_chat_event-Ended_example =
    apply_chat_event-Ended (text "t1") shown (tool_execution_update (text "t1") (some 9)) tt
      shown-Ended

apply_deltas-message_end_example :
    apply_chat_event
      (apply_deltas shown (text "s1") (text_delta 0 (text "!") ∷ []))
      (message_end (said (text "Bye")) (text "s1") none)
    ≡ apply_chat_event shown (message_end (said (text "Bye")) (text "s1") none)
apply_deltas-message_end_example =
    apply_deltas-message_end shown (text "s1") (text_delta 0 (text "!") ∷ []) (said (text "Bye"))
      none refl

abbrev live : StreamingAssistant ℕ
live = record {
  stream_id = text "s1";
  durable_id = none;
  message = said (text "Hello");
  stale = false;
}

apply_deltas-text_delta_example :
    find
      (has_stream (text "s1"))
      (apply_deltas shown
        (text "s1")
        (map (text_delta 0) (text " " ∷ text "you" ∷ []))).streaming_assistants
    ≡ some (with_text live 0 (text "Hello" ++ flatten (text " " ∷ text "you" ∷ [])) 7)
apply_deltas-text_delta_example =
    apply_deltas-text_delta (text " " ∷ text "you" ∷ []) shown (text "s1") live 0 (text "Hello") 7
      refl refl refl
