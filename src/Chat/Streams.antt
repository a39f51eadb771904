-- ===== src/Chat/Streams.antt =====
-- chat-state.ts: the live messages, under lost and repeated steps.
use reins.Base.{
  ℕ, zero, suc, ◌≡◌, refl, ap, ◌∙◌, true, false, Option, some, List, [], ◌∷◌, ◌++◌, map, Text, any,
  find, get_elem?, set, arith, flatten, append_assoc, append-nil,
}
use reins.Chat.State.{
  Block, text_block, Message, StreamingAssistant, Step, text_delta, message_end, ChatState,
}
use reins.Chat.Reducer.{
  is_assistant, has_stream, at_stream, refreshed, upsert_assistant_snapshot, apply_stream_step,
  stepped, apply_assistant_delta, apply_chat_event,
}

-- A run of steps without a snapshot.
unfoldable pub apply_deltas : {J : Type 0} → ChatState J → Text → List (Step J) → ChatState J
apply_deltas st s [] = st
apply_deltas st s (d ∷ ds) = apply_deltas (apply_assistant_delta st s d) s ds

module _ {J : Type 0} where
  at_stream_twice :
      (s : Text) (f g : StreamingAssistant J → StreamingAssistant J)
      → ((a : StreamingAssistant J) → (g a).stream_id ≡ a.stream_id)
      → ((a : StreamingAssistant J) → f (g a) ≡ f a)
      → (xs : List (StreamingAssistant J)) → at_stream s f (at_stream s g xs) ≡ at_stream s f xs
  unfolding at_stream
  at_stream_twice s f g same absorbs [] = refl
  at_stream_twice s f g same absorbs (a ∷ xs) =
      ground (arith, same a, absorbs a, at_stream_twice s f g same absorbs xs)

  any-at_stream :
      (s t : Text) (g : StreamingAssistant J → StreamingAssistant J)
      → ((a : StreamingAssistant J) → (g a).stream_id ≡ a.stream_id)
      → (xs : List (StreamingAssistant J))
      → any (has_stream t) (at_stream s g xs) ≡ any (has_stream t) xs
  unfolding at_stream
  any-at_stream s t g same [] = refl
  any-at_stream s t g same (a ∷ xs) = ground (arith, same a, any-at_stream s t g same xs)

  pub stepped_same : (d : Step J) (a : StreamingAssistant J) → (stepped d a).stream_id ≡ a.stream_id
  unfolding stepped
  stepped_same d a = ground arith

  stepped_durable :
      (d : Step J) (a : StreamingAssistant J) → (stepped d a).durable_id ≡ a.durable_id
  unfolding stepped
  stepped_durable d a = ground arith

  refreshed_absorbs :
      (m : Message J) (entry_id : Option Text) (d : Step J) (a : StreamingAssistant J)
      → refreshed m entry_id (stepped d a) ≡ refreshed m entry_id a
  refreshed_absorbs m entry_id d a = ground (arith, stepped_same d a, stepped_durable d a)

  at_stream_absent :
      (s : Text) (g : StreamingAssistant J → StreamingAssistant J)
      (xs : List (StreamingAssistant J))
      → any (has_stream s) xs ≡ false
      → at_stream s g xs ≡ xs
  unfolding at_stream
  at_stream_absent s g [] h = refl
  at_stream_absent s g (a ∷ xs) h = ground (arith, at_stream_absent s g xs)

  upsert-delta :
      (st : ChatState J) (s : Text) (d : Step J) (m : Message J) (entry_id : Option Text)
      → is_assistant m.role ≡ true
      → upsert_assistant_snapshot (apply_assistant_delta st s d) s m entry_id
        ≡ upsert_assistant_snapshot st s m entry_id
  unfolding upsert_assistant_snapshot apply_assistant_delta
  upsert-delta st s d m entry_id h = ground (
    arith,
    any-at_stream s s (stepped d) (stepped_same d) st.streaming_assistants,
    at_stream_twice s (refreshed m entry_id) (stepped d) (stepped_same d)
        (refreshed_absorbs m entry_id d) st.streaming_assistants,
    at_stream_absent s (stepped d) st.streaming_assistants,
  )

  -- A full snapshot of a message makes good whatever was done with its steps before: after any steps
  -- of the stream, the end of its message leaves the state that it leaves without them.
  pub apply_deltas-message_end :
      (st : ChatState J) (s : Text) (ds : List (Step J)) (m : Message J) (entry_id : Option Text)
      → is_assistant m.role ≡ true
      → apply_chat_event (apply_deltas st s ds) (message_end m s entry_id)
        ≡ apply_chat_event st (message_end m s entry_id)
  unfolding apply_deltas apply_chat_event
  apply_deltas-message_end st s [] m entry_id h = refl
  apply_deltas-message_end st s (d ∷ ds) m entry_id h =
      apply_deltas-message_end (apply_assistant_delta st s d) s ds m entry_id h
      ∙ upsert-delta st s d m entry_id h

  find-at_stream :
      (s : Text) (g : StreamingAssistant J → StreamingAssistant J)
      (xs : List (StreamingAssistant J)) (a : StreamingAssistant J)
      → ((b : StreamingAssistant J) → (g b).stream_id ≡ b.stream_id)
      → find (has_stream s) xs ≡ some a
      → find (has_stream s) (at_stream s g xs) ≡ some (g a)
  unfolding at_stream
  find-at_stream s g [] a same e = absurd (ground arith)
  find-at_stream s g (b ∷ xs) a same e = ground (arith, same b, find-at_stream s g xs a same)

  get_elem?-set :
      (xs : List (Block J)) (i : ℕ) (b c : Block J)
      → get_elem? xs i ≡ some b
      → get_elem? (set xs i c) i ≡ some c
  get_elem?-set [] i b c e = absurd (ground arith)
  get_elem?-set (x ∷ xs) zero b c e = refl
  get_elem?-set (x ∷ xs) (suc i) b c e = get_elem?-set xs i b c e

  set_twice : (xs : List (Block J)) (i : ℕ) (b c : Block J) → set (set xs i b) i c ≡ set xs i c
  set_twice [] i b c = refl
  set_twice (x ∷ xs) zero b c = refl
  set_twice (x ∷ xs) (suc i) b c = ap (◌∷◌ x) (set_twice xs i b c)

  set_same : (xs : List (Block J)) (i : ℕ) (b : Block J) → get_elem? xs i ≡ some b → set xs i b ≡ xs
  set_same [] i b e = refl
  set_same (x ∷ xs) zero b e = ground arith
  set_same (x ∷ xs) (suc i) b e = ap (◌∷◌ x) (set_same xs i b e)

  abbrev pub with_text : StreamingAssistant J → ℕ → Text → J → StreamingAssistant J
  with_text a i t r = record a {
    message = record a.message { content = set a.message.content i (text_block t r) };
  }

  stepped-text_delta :
      (a : StreamingAssistant J) (i : ℕ) (t d : Text) (r : J)
      → a.stale ≡ false
      → get_elem? a.message.content i ≡ some (text_block t r)
      → stepped (text_delta i d) a ≡ with_text a i (t ++ d) r
  unfolding stepped apply_stream_step
  stepped-text_delta a i t d r l h = ground arith

  -- Text steps of a live message that was kept up to date add their pieces, in order, to its block and
  -- change nothing else of it.
  pub apply_deltas-text_delta :
      (ds : List Text) (st : ChatState J) (s : Text) (a : StreamingAssistant J) (i : ℕ) (t : Text)
      (r : J)
      → find (has_stream s) st.streaming_assistants ≡ some a
      → a.stale ≡ false
      → get_elem? a.message.content i ≡ some (text_block t r)
      → find (has_stream s) (apply_deltas st s (map (text_delta i) ds)).streaming_assistants
        ≡ some (with_text a i (t ++ flatten ds) r)
  unfolding apply_deltas apply_assistant_delta flatten
  apply_deltas-text_delta [] st s a i t r e l h =
      ground (arith, e, append-nil t, set_same a.message.content i (text_block t r) h)
  apply_deltas-text_delta (d ∷ ds) st s a i t r e l h =
      apply_deltas-text_delta ds (apply_assistant_delta st s (text_delta i d)) s
        (with_text a i (t ++ d) r) i (t ++ d) r
        (find-at_stream s (stepped (text_delta i d)) st.streaming_assistants a
            (stepped_same (text_delta i d)) e
          ∙ ap some (stepped-text_delta a i t d r l h))
        l (get_elem?-set a.message.content i (text_block t r) (text_block (t ++ d) r) h)
      ∙ ground (
        arith,
        append_assoc t d (flatten ds),
        set_twice a.message.content i (text_block (t ++ d) r)
            (text_block (t ++ (d ++ flatten ds)) r),
      )
