-- ===== src/Chat/Reducer.antt =====
-- chat-state.ts: the reducer. The identity of an unchanged state is not modelled.
use reins.Base.{
  ℕ, Bool, true, false, not, Option, none, some, List, [], ◌∷◌, ◌++◌, map, Text, text, text_eq,
  if◌then◌else◌, any, keep, get_elem?, set, decimal, ◌&&◌, reverse,
}
use reins.Chat.State.{
  Role, assistant, Block, text_block, thinking_block, tool_block, Message, ToolExecution,
  StreamingAssistant, Step, text_start, thinking_start, toolcall_start, text_delta, thinking_delta,
  toolcall_delta, text_end, thinking_end, toolcall_end, Event, agent_start, entry_added,
  message_start, message_end, message_update, tool_execution_start, tool_execution_update,
  tool_execution_end, agent_end, compaction_start, compaction_end, auto_retry_start, auto_retry_end,
  ChatState,
}

-- A string that the source tests for truth: the empty one counts as absent.
abbrev pub non_empty : Option Text → Option Text
non_empty none = none
non_empty (some []) = none
non_empty (some (c ∷ cs)) = some (c ∷ cs)

abbrev pub or_else : {A : Type 0} → Option A → A → A
or_else none a = a
or_else (some b) a = b

abbrev pub is_assistant : Role → Bool
is_assistant assistant = true
is_assistant _ = false

abbrev pub has_stream : {J : Type 0} → Text → StreamingAssistant J → Bool
has_stream s a = text_eq a.stream_id s

-- A change to the first assistant of a stream, if there is one.
unfoldable pub at_stream :
    {J : Type 0}
    → Text
    → (StreamingAssistant J → StreamingAssistant J)
    → List (StreamingAssistant J)
    → List (StreamingAssistant J)
at_stream s f [] = []
at_stream s f (a ∷ xs) = if has_stream s a then f a ∷ xs else a ∷ at_stream s f xs

-- An overlay that a full snapshot replaced.
abbrev pub refreshed :
    {J : Type 0} → Message J → Option Text → StreamingAssistant J → StreamingAssistant J
refreshed m entry_id a = record a {
  durable_id = elim (non_empty entry_id) [ none ↦ a.durable_id | some id ↦ some id ];
  message = m;
  stale = false;
}

-- `upsertAssistantSnapshot`.
unfoldable pub upsert_assistant_snapshot :
    {J : Type 0} → ChatState J → Text → Message J → Option Text → ChatState J
upsert_assistant_snapshot st s m entry_id =
    if not (is_assistant m.role)
    then st
    else if any (has_stream s) st.streaming_assistants
    then record st {
      streaming_assistants = at_stream s (refreshed m entry_id) st.streaming_assistants;
    }
    else record st {
      streaming_assistants =
          st.streaming_assistants
          ++ record { stream_id = s; durable_id = non_empty entry_id; message = m; stale = false }
            ∷ [];
    }

abbrev pub content_index : {J : Type 0} → Step J → ℕ
content_index (text_start i) = i
content_index (thinking_start i) = i
content_index (toolcall_start i) = i
content_index (text_delta i d) = i
content_index (thinking_delta i d) = i
content_index (toolcall_delta i d) = i
content_index (text_end i t) = i
content_index (thinking_end i t) = i
content_index (toolcall_end i c) = i

-- `applyStreamStep`.
unfoldable pub apply_stream_step : {J : Type 0} → Option (Block J) → Step J → Option (Block J)
apply_stream_step (some (text_block t r)) (text_delta i d) = some (text_block (t ++ d) r)
apply_stream_step (some (text_block t r)) (text_end i c) = some (text_block c r)
apply_stream_step (some (thinking_block t r)) (thinking_delta i d) =
    some (thinking_block (t ++ d) r)
apply_stream_step (some (thinking_block t r)) (thinking_end i c) = some (thinking_block c r)
apply_stream_step (some (tool_block k)) (toolcall_delta i d) =
    some (tool_block (record k { partial_json = some (or_else k.partial_json [] ++ d) }))
apply_stream_step (some (tool_block k)) (toolcall_end i c) =
    if text_eq k.id c.id then some (tool_block c) else none
apply_stream_step _ _ = none

-- An overlay after a step without a snapshot.
unfoldable pub stepped : {J : Type 0} → Step J → StreamingAssistant J → StreamingAssistant J
stepped step a =
    if a.stale
    then a
    else elim (apply_stream_step (get_elem? a.message.content (content_index step)) step) [
      | none ↦ record a { stale = true }
      | some block ↦ record a {
        message = record a.message { content = set a.message.content (content_index step) block };
      }
    ]

-- `applyAssistantDelta`.
unfoldable pub apply_assistant_delta : {J : Type 0} → ChatState J → Text → Step J → ChatState J
apply_assistant_delta st s step = record st {
  streaming_assistants = at_stream s (stepped step) st.streaming_assistants;
}

abbrev pub marked : {J : Type 0} → StreamingAssistant J → StreamingAssistant J
marked a = record a { stale = true }

-- `markStreamsStale`.
unfoldable pub mark_streams_stale : {J : Type 0} → ChatState J → ChatState J
mark_streams_stale st = record st { streaming_assistants = map marked st.streaming_assistants }

unfoldable pub is_persisted : {J : Type 0} → List Text → StreamingAssistant J → Bool
is_persisted ids a = elim (non_empty a.durable_id) [ none ↦ false | some id ↦ any (text_eq id) ids ]

-- `removePersistedStreamingAssistants`.
unfoldable pub remove_persisted : {J : Type 0} → ChatState J → List Text → ChatState J
remove_persisted st ids = record st {
  streaming_assistants = keep (λ a. not (is_persisted ids a)) st.streaming_assistants;
}

unfoldable pub find_tool :
    {J : Type 0} → Text → List (Text × ToolExecution J) → Option (ToolExecution J)
find_tool id [] = none
find_tool id ((k, e) ∷ xs) = if text_eq k id then some e else find_tool id xs

unfoldable pub put_tool :
    {J : Type 0}
    → Text
    → ToolExecution J
    → List (Text × ToolExecution J)
    → List (Text × ToolExecution J)
put_tool id e [] = (id, e) ∷ []
put_tool id e ((k, old) ∷ xs) = if text_eq k id then (k, e) ∷ xs else (k, old) ∷ put_tool id e xs

-- `setToolExecution`.
unfoldable pub set_tool_execution :
    {J : Type 0} → ChatState J → Text → ToolExecution J → ChatState J
set_tool_execution st id e = record st { tool_executions = put_tool id e st.tool_executions }

-- The error of the last failed assistant, over the messages from the last to the first.
unfoldable pub last_error : {J : Type 0} → Text → List (Message J) → Text
last_error before [] = before
last_error before (m ∷ ms) = elim (non_empty m.error_message) [
  | none ↦ last_error before ms
  | some e ↦ if is_assistant m.role && m.stopped_by_error then e else last_error before ms
]

unfoldable pub end_error : {J : Type 0} → Option (List (Message J)) → Option Text → Text → Text
end_error messages (some e) before = e
end_error none none before = before
end_error (some messages) none before = last_error before (reverse messages)

-- `applyChatEvent`.
unfoldable pub apply_chat_event : {J : Type 0} → ChatState J → Event J → ChatState J
apply_chat_event st agent_start = st
apply_chat_event st entry_added = st
apply_chat_event st (message_start m s) = upsert_assistant_snapshot st s m none
apply_chat_event st (message_end m s entry_id) = upsert_assistant_snapshot st s m entry_id
apply_chat_event st (message_update (some m) s step) = upsert_assistant_snapshot st s m none
apply_chat_event st (message_update none s step) = apply_assistant_delta st s step
apply_chat_event st (tool_execution_start id) = elim (find_tool id st.tool_executions) [
  | some _ ↦ st
  | none ↦ set_tool_execution st id (record { done = false; result = none; is_error = none })
]
apply_chat_event st (tool_execution_update id partial) =
    let next =
      set_tool_execution st id (record { done = false; result = partial; is_error = none }) in
    elim (find_tool id st.tool_executions) [ none ↦ next | some e ↦ if e.done then st else next ]
apply_chat_event st (tool_execution_end id result is_error) =
    set_tool_execution st id (record { done = true; result = result; is_error = is_error })
apply_chat_event st (agent_end messages error) = record st {
  streaming_assistants = [];
  tool_executions = [];
  error_message = end_error messages error st.error_message;
}
apply_chat_event st compaction_start = record st { is_compacting = true }
apply_chat_event st (compaction_end error) = elim (non_empty error) [
  | none ↦ record st { is_compacting = false }
  | some e ↦ record st { is_compacting = false; error_message = e }
]
apply_chat_event st (auto_retry_start attempt max_attempts e) = record st {
  error_message =
      text "Retrying (" ++ decimal attempt ++ text "/" ++ decimal max_attempts ++ text ")… " ++ e;
}
apply_chat_event st (auto_retry_end success final_error) = record st {
  error_message =
      if success then [] else or_else (non_empty final_error) (text "All retry attempts failed");
}

unfoldable pub apply_all : {J : Type 0} → ChatState J → List (Event J) → ChatState J
apply_all st [] = st
apply_all st (e ∷ es) = apply_all (apply_chat_event st e) es
