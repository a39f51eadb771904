-- ===== src/Chat/Changes.antt =====
-- chat-state.ts and conversations-store.ts: what changes the live messages of a conversation.
use reins.Base.{List, [], ◌∷◌, Text}
use reins.Chat.State.{Event, ChatState, initial_chat_state}
use reins.Chat.Reducer.{mark_streams_stale, remove_persisted, apply_chat_event}

-- `endRun`. Where nothing is left to drop, the source leaves the state as it is.
unfoldable pub end_run : {J : Type 0} → ChatState J → ChatState J
end_run st = record st { streaming_assistants = []; tool_executions = [] }

-- An event, a gap in the numbers of the events, the entries that were loaded, a run that is over, and
-- the pruning of a conversation that nobody shows.
pub data Change (J : Type 0) : Type 0 where
  event : Event J → Change J
  gap : Change J
  entries : List Text → Change J
  run_over pruned : Change J

unfoldable pub change : {J : Type 0} → ChatState J → Change J → ChatState J
change st (event e) = apply_chat_event st e
change st gap = mark_streams_stale st
change st (entries ids) = remove_persisted st ids
change st run_over = end_run st
change st pruned = initial_chat_state

unfoldable pub change_all : {J : Type 0} → ChatState J → List (Change J) → ChatState J
change_all st [] = st
change_all st (c ∷ cs) = change_all (change st c) cs
