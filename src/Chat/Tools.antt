-- ===== src/Chat/Tools.antt =====
-- chat-state.ts: a tool call that has ended stays ended while its run goes on.
use reins.Base.{
  ◌≡◌, refl, sym, ap, ◌∙◌, true, false, Option, none, some, List, [], ◌∷◌, Text, text_eq,
  text_eq→eq, text_eq_refl, arith, Bool-cases, inl, inr, Option-cases,
}
use reins.Chat.State.{
  Message, ToolExecution, Event, agent_start, entry_added, message_start, message_end,
  message_update, tool_execution_start, tool_execution_update, tool_execution_end, agent_end,
  compaction_start, compaction_end, auto_retry_start, auto_retry_end, ChatState,
}
use reins.Chat.Reducer.{
  upsert_assistant_snapshot, apply_assistant_delta, find_tool, put_tool, set_tool_execution,
  apply_chat_event,
}

module _ {J : Type 0} where
  find_tool-put_tool :
      (id : Text) (e : ToolExecution J) (xs : List (Text × ToolExecution J))
      → find_tool id (put_tool id e xs) ≡ some e
  unfolding find_tool put_tool
  find_tool-put_tool id e [] = ground (arith, text_eq_refl id)
  find_tool-put_tool id e ((k, old) ∷ xs) = ground (arith, find_tool-put_tool id e xs)

  find_tool-put_tool_other :
      (id other : Text) (e : ToolExecution J) (xs : List (Text × ToolExecution J))
      → text_eq other id ≡ false
      → find_tool id (put_tool other e xs) ≡ find_tool id xs
  unfolding find_tool put_tool
  find_tool-put_tool_other id other e [] h = ground arith
  find_tool-put_tool_other id other e ((k, old) ∷ xs) h =
      ground (arith, text_eq→eq k other, find_tool-put_tool_other id other e xs)

  abbrev pub Ended : Text → ChatState J → Type 0
  Ended id st = (e : ToolExecution J) × (find_tool id st.tool_executions ≡ some e) × (e.done ≡ true)

  abbrev pub IsWithinRun : Event J → Type 0
  IsWithinRun (agent_end messages error) = ⊥
  IsWithinRun _ = Unit

  put_done :
      (id other : Text) (new : ToolExecution J) (st : ChatState J)
      → new.done ≡ true
      → Ended id st
      → Ended id (set_tool_execution st other new)
  unfolding set_tool_execution
  put_done id other new st d (e, f, g) = elim (Bool-cases (text_eq other id)) [
    | inl same ↦ (
      new,
      ap (λ k. find_tool id (put_tool k new st.tool_executions)) (text_eq→eq other id same)
          ∙ find_tool-put_tool id new st.tool_executions,
      d,
    )
    | inr apart ↦ (e, find_tool-put_tool_other id other new st.tool_executions apart ∙ f, g)
  ]

  put_other :
      (id other : Text) (new : ToolExecution J) (st : ChatState J)
      → text_eq other id ≡ false
      → Ended id st
      → Ended id (set_tool_execution st other new)
  unfolding set_tool_execution
  put_other id other new st apart (e, f, g) =
      (e, find_tool-put_tool_other id other new st.tool_executions apart ∙ f, g)

  -- The call that an event would set back to running is not one that has ended.
  apart_of :
      (id other : Text) (st : ChatState J) (o : Option (ToolExecution J))
      → find_tool other st.tool_executions ≡ o
      → ((e : ToolExecution J) → o ≡ some e → e.done ≡ false)
      → Ended id st
      → text_eq other id ≡ false
  apart_of id other st o q running (e, f, g) = elim (Bool-cases (text_eq other id)) [
    | inr apart ↦ apart
    | inl same ↦ absurd (
        ground (
          arith,
          running e
              (sym q ∙ ap (λ k. find_tool k st.tool_executions) (text_eq→eq other id same) ∙ f),
          g,
        ))
  ]

  upsert-Ended :
      (id : Text) (st : ChatState J) (s : Text) (m : Message J) (entry_id : Option Text)
      → Ended id st
      → Ended id (upsert_assistant_snapshot st s m entry_id)
  unfolding upsert_assistant_snapshot
  upsert-Ended id st s m entry_id (e, f, g) = (e, ground (arith, f), g)

  start-Ended :
      (id : Text) (st : ChatState J) (other : Text)
      → Ended id st
      → Ended id (apply_chat_event st (tool_execution_start other))
  unfolding apply_chat_event
  start-Ended id st other h = elim (Option-cases (find_tool other st.tool_executions)) [
    | inr (e, f) ↦ rw (f, apply_chat_event) (h)
    | inl f ↦
        rw (f, apply_chat_event)
          (put_other id other (record { done = false; result = none; is_error = none }) st
            (apart_of id other st none f (λ e k. ground arith) h) h)
  ]

  update-Ended :
      (id : Text) (st : ChatState J) (other : Text) (partial : Option J)
      → Ended id st
      → Ended id (apply_chat_event st (tool_execution_update other partial))
  unfolding apply_chat_event
  update-Ended id st other partial h =
      let next : ToolExecution J = record { done = false; result = partial; is_error = none } in
      elim (Option-cases (find_tool other st.tool_executions)) [
        | inl f ↦
            rw (f, apply_chat_event)
              (put_other id other next st (apart_of id other st none f (λ e k. ground arith) h) h)
        | inr (e, f) ↦ elim (Bool-cases e.done) [
          | inl d ↦ rw (f, d, apply_chat_event) (h)
          | inr d ↦
              rw (f, d, apply_chat_event)
                (put_other id other next st
                  (apart_of id other st (some e) f (λ x k. ground (arith, d, k)) h) h)
        ]
      ]

  compaction-Ended :
      (id : Text) (st : ChatState J) (error : Option Text)
      → Ended id st
      → Ended id (apply_chat_event st (compaction_end error))
  unfolding apply_chat_event
  compaction-Ended id st error (e, f, g) = (e, ground (arith, f), g)

  -- While a run goes on, no event of it takes an ended tool call back: each event but the end of the
  -- run leaves an ended call ended.
  pub apply_chat_event-Ended :
      (id : Text) (st : ChatState J) (e : Event J)
      → IsWithinRun e
      → Ended id st
      → Ended id (apply_chat_event st e)
  unfolding apply_chat_event
  apply_chat_event-Ended id st agent_start w h = h
  apply_chat_event-Ended id st entry_added w h = h
  apply_chat_event-Ended id st (message_start m s) w h = upsert-Ended id st s m none h
  apply_chat_event-Ended id st (message_end m s entry_id) w h = upsert-Ended id st s m entry_id h
  apply_chat_event-Ended id st (message_update (some m) s step) w h = upsert-Ended id st s m none h
  apply_chat_event-Ended id st (message_update none s step) w h = unfold apply_assistant_delta in h
  apply_chat_event-Ended id st (tool_execution_start other) w h = start-Ended id st other h
  apply_chat_event-Ended id st (tool_execution_update other partial) w h =
      update-Ended id st other partial h
  apply_chat_event-Ended id st (tool_execution_end other result is_error) w h =
      put_done id other (record { done = true; result = result; is_error = is_error }) st refl h
  apply_chat_event-Ended id st (agent_end messages error) w h = absurd w
  apply_chat_event-Ended id st compaction_start w h = h
  apply_chat_event-Ended id st (compaction_end error) w h = compaction-Ended id st error h
  apply_chat_event-Ended id st (auto_retry_start attempt max_attempts e) w h = h
  apply_chat_event-Ended id st (auto_retry_end success final_error) w h = h
