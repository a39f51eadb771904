-- ===== src/Chat/Distinct.antt =====
-- chat-state.ts: live messages are told apart by their streams.
use reins.Base.{
  ◌≤◌, ◌≡◌, refl, sym, false, Option, none, some, List, [], ◌∷◌, Text, text_eq→eq, arith, count,
  count-append, count-of_any, subst, map, not, count-keep-le,
}
use reins.Chat.State.{
  Message, StreamingAssistant, Event, agent_start, entry_added, message_start, message_end,
  message_update, tool_execution_start, tool_execution_update, tool_execution_end, agent_end,
  compaction_start, compaction_end, auto_retry_start, auto_retry_end, ChatState, initial_chat_state,
}
use reins.Chat.Reducer.{
  non_empty, has_stream, at_stream, refreshed, upsert_assistant_snapshot, stepped,
  apply_assistant_delta, set_tool_execution, apply_chat_event, marked, mark_streams_stale,
  is_persisted, remove_persisted,
}
use reins.Chat.Changes.{Change, event, gap, entries, run_over, pruned, end_run, change, change_all}
use reins.Chat.Streams.{stepped_same}

module _ {J : Type 0} where
  count-at_stream :
      (s t : Text) (g : StreamingAssistant J → StreamingAssistant J)
      → ((a : StreamingAssistant J) → (g a).stream_id ≡ a.stream_id)
      → (xs : List (StreamingAssistant J))
      → count (has_stream t) (at_stream s g xs) ≡ count (has_stream t) xs
  unfolding at_stream
  count-at_stream s t g same [] = refl
  count-at_stream s t g same (a ∷ xs) = ground (arith, same a, count-at_stream s t g same xs)

  abbrev pub IsDistinct : ChatState J → Type 0
  IsDistinct st = (s : Text) → count (has_stream s) st.streaming_assistants ≤ 1

  upsert-IsDistinct :
      (st : ChatState J) (s : Text) (m : Message J) (entry_id : Option Text)
      → IsDistinct st
      → IsDistinct (upsert_assistant_snapshot st s m entry_id)
  unfolding upsert_assistant_snapshot
  upsert-IsDistinct st s m entry_id h t = ground (
    arith,
    h t,
    text_eq→eq s t,
    count-at_stream s t (refreshed m entry_id) (λ a. refl) st.streaming_assistants,
    count-append (has_stream t) st.streaming_assistants (
        record { stream_id = s; durable_id = non_empty entry_id; message = m; stale = false } ∷ []),
    count-of_any (has_stream t) st.streaming_assistants,
  )

  apply_chat_event-IsDistinct :
      (st : ChatState J) (e : Event J) → IsDistinct st → IsDistinct (apply_chat_event st e)
  unfolding apply_chat_event apply_assistant_delta set_tool_execution
  apply_chat_event-IsDistinct st agent_start h = h
  apply_chat_event-IsDistinct st entry_added h = h
  apply_chat_event-IsDistinct st (message_start m s) h = upsert-IsDistinct st s m none h
  apply_chat_event-IsDistinct st (message_end m s entry_id) h = upsert-IsDistinct st s m entry_id h
  apply_chat_event-IsDistinct st (message_update (some m) s step) h =
      upsert-IsDistinct st s m none h
  apply_chat_event-IsDistinct st (message_update none s step) h = λ t.
      subst (λ n. n ≤ 1)
        (sym (count-at_stream s t (stepped step) (stepped_same step) st.streaming_assistants)) (h t)
  apply_chat_event-IsDistinct st (tool_execution_start id) h = λ t. ground (arith, h t)
  apply_chat_event-IsDistinct st (tool_execution_update id partial) h = λ t. ground (arith, h t)
  apply_chat_event-IsDistinct st (tool_execution_end id result is_error) h = h
  apply_chat_event-IsDistinct st (agent_end messages error) h = λ t. omega arith
  apply_chat_event-IsDistinct st compaction_start h = h
  apply_chat_event-IsDistinct st (compaction_end error) h = λ t. ground (arith, h t)
  apply_chat_event-IsDistinct st (auto_retry_start attempt max_attempts e) h = h
  apply_chat_event-IsDistinct st (auto_retry_end success final_error) h = h

  count-marked :
      (t : Text) (xs : List (StreamingAssistant J))
      → count (has_stream t) (map marked xs) ≡ count (has_stream t) xs
  count-marked t [] = refl
  count-marked t (a ∷ xs) = ground (arith, count-marked t xs)

  change-IsDistinct : (st : ChatState J) (c : Change J) → IsDistinct st → IsDistinct (change st c)
  unfolding change mark_streams_stale remove_persisted end_run initial_chat_state
  change-IsDistinct st (event e) h = apply_chat_event-IsDistinct st e h
  change-IsDistinct st gap h = λ t. ground (arith, count-marked t st.streaming_assistants, h t)
  change-IsDistinct st (entries ids) h = λ t. ground (
    arith,
    count-keep-le (has_stream t) (λ a. not (is_persisted ids a)) st.streaming_assistants,
    h t,
  )
  change-IsDistinct st run_over h = λ t. omega arith
  change-IsDistinct st pruned h = λ t. omega arith

  run-IsDistinct :
      (cs : List (Change J)) (st : ChatState J) → IsDistinct st → IsDistinct (change_all st cs)
  unfolding change_all
  run-IsDistinct [] st h = h
  run-IsDistinct (c ∷ cs) st h = run-IsDistinct cs (change st c) (change-IsDistinct st c h)

  -- In every state that a conversation can reach from the initial one, by the events of its session,
  -- gaps in their numbers, entries that are loaded, the end of a run and pruning, no two live messages
  -- have the same stream id.
  pub change_all-IsDistinct : (cs : List (Change J)) → IsDistinct (change_all initial_chat_state cs)
  unfolding initial_chat_state
  change_all-IsDistinct cs = run-IsDistinct cs initial_chat_state (λ s. omega arith)
