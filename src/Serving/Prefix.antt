-- ===== src/Serving/Prefix.antt =====
-- streams.ts: what a stream sends, whatever the link says.
use reins.Base.{
  ℕ, ◌+◌, ◌≡◌, refl, sym, ap, ◌∙◌, false, none, Text, List, [], ◌∷◌, ◌++◌, length, flatten,
  append_assoc, append-nil, if◌then◌else◌, arith, inl, inr, subst, if_ind,
}
use reins.Serving.Pump.{
  Answer, Frame, finish, Ending, done, fails, Sender, as_it_is, nothing, send, send_chunks, failed,
  complete, unsent, pump,
}
use reins.Serving.Frames.{
  Answer-cases, carried, Follows, carried-append, Follows-append, IsPart, IsPart-quiet,
}
use reins.Serving.Sends.{send_accepted, send_aborted, send_refused, send_chunks-Sends}

-- `held d` is what a decoder has taken and not given yet.
module _ {D : Type 0} (decode : D → List ℕ → D × List ℕ) (rest held : D → List ℕ)
    (decode_held : (d : D) (piece : List ℕ)
      → held d ++ piece ≡ (decode d piece).1 ++ held (decode d piece).0)
    (rest_held : (d : D) → rest d ≡ held d) (answer : ℕ → Answer) where
  failed-Follows :
      (s : Sender D) (message : Text) (offset : ℕ)
      → Follows offset (failed decode rest answer s message)
  unfolding failed
  failed-Follows s message offset = ground arith

  carried-failed :
      (s : Sender D) (message : Text) → carried (failed decode rest answer s message) ≡ []
  unfolding failed carried
  carried-failed s message = ground arith

  failed-part :
      (s : Sender D) (message : Text) (offset : ℕ) (input : List ℕ)
      → IsPart offset input (failed decode rest answer s message)
  failed-part s message offset input = (
    failed-Follows s message offset,
    input,
    ap (λ t. t ++ input) (sym (carried-failed s message)),
  )

  -- What is sent of one chunk is all of it or nothing.
  pub send-part :
      (s : Sender D) (bytes : List ℕ)
      → s.stopped ≡ false
      → IsPart s.offset bytes (send decode rest answer s bytes).1
  unfolding carried
  send-part s [] h = unfold send in (tt, [], refl)
  send-part s (b ∷ bytes) h = elim (Answer-cases (answer s.sent)) [
    | inl e ↦
        rw (send_accepted decode rest held decode_held rest_held answer s b bytes h e)
          ((refl, tt), [], all_of (b ∷ bytes))
    | inr (inl e) ↦
        rw (send_aborted decode rest held decode_held rest_held answer s b bytes h e)
          ((refl, tt), [], all_of (b ∷ bytes))
    | inr (inr e) ↦
        rw (send_refused decode rest held decode_held rest_held answer s b bytes h e)
          (tt, b ∷ bytes, refl)
  ]
    where
      all_of : (xs : List ℕ) → xs ≡ (xs ++ []) ++ []
      all_of xs = sym (append-nil (xs ++ []) ∙ append-nil xs)

  complete-prefix :
      (s : Sender D) (ending : Ending)
      → s.stopped ≡ false
      → let fs = complete decode rest answer s ending in
        Follows s.offset fs × (left : List ℕ) × (held s.decoder ≡ carried fs ++ left)
  unfolding complete
  complete-prefix s (fails message) h = failed-part s message s.offset (held s.decoder)
  complete-prefix s (done exit) h =
      let r = send decode rest answer s (rest s.decoder) in
      let part : IsPart s.offset (held s.decoder) r.1 =
        subst (λ t. IsPart s.offset t r.1) (rest_held s.decoder) (send-part s (rest s.decoder) h) in
      if_ind {A = List Frame} (IsPart s.offset (held s.decoder)) r.2
        (λ _. failed-part r.0 (unsent decode rest answer) s.offset (held s.decoder))
        (λ _.
          IsPart-quiet s.offset (held s.decoder) r.1
            (if r.0.stopped then [] else finish none exit ∷ []) part
            (unfold carried in ground arith) (λ at. ground arith))

  -- The frames of the ending, behind those of all chunks.
  ended :
      (s : Sender D) (cs : List (List ℕ)) (ending : Ending) (fs : List Frame) (t : Sender D)
      (input : List ℕ)
      → IsPart 0 input fs
      → t.offset ≡ 0 + length (carried fs)
      → input ≡ carried fs ++ held t.decoder
      → t.stopped ≡ false
      → IsPart 0 input (fs ++ complete decode rest answer t ending)
  ended s cs ending fs t input part at e f =
      let last = complete-prefix t ending f in
      let gs = complete decode rest answer t ending in
      (
        Follows-append 0 fs gs part.0 (subst (λ n. Follows n gs) at last.0),
        last.1,
        e
            ∙ ap (◌++◌ (carried fs)) last.2
            ∙ sym (append_assoc (carried fs) (carried gs) last.1)
            ∙ ap (λ t. t ++ last.1) (sym (carried-append fs gs)),
      )

  pump-prefix_of_decoded :
      (s : Sender D) (cs : List (List ℕ)) (ending : Ending)
      → s.stopped ≡ false
      → s.offset ≡ 0
      → held s.decoder ≡ []
      → IsPart 0 (flatten cs) (pump decode rest answer s cs ending)
  unfolding pump
  pump-prefix_of_decoded s cs ending h z k =
      let r = send_chunks decode rest answer s cs in
      let all = send_chunks-Sends decode rest held decode_held rest_held answer s cs h in
      let input : flatten cs ≡ carried r.1 ++ all.left =
        ap (λ t. t ++ flatten cs) (sym k) ∙ all.prefix in
      let part : IsPart 0 (flatten cs) r.1 =
        (subst (λ n. Follows n r.1) z all.follows, all.left, input) in
      if_ind {A = List Frame} (λ gs. IsPart 0 (flatten cs) (r.1 ++ gs)) r.2
        (λ _.
          IsPart-quiet 0 (flatten cs) r.1
            (failed decode rest answer r.0 (unsent decode rest answer)) part
            (carried-failed r.0 (unsent decode rest answer))
            (failed-Follows r.0 (unsent decode rest answer)))
        (λ e.
          if_ind {A = List Frame} (λ gs. IsPart 0 (flatten cs) (r.1 ++ gs)) r.0.stopped
            (λ _. IsPart-quiet 0 (flatten cs) r.1 [] part (unfold carried in refl) (λ at. tt))
            (λ f.
              ended s cs ending r.1 r.0 (flatten cs) part
                (all.at ∙ ap (λ n. n + length (carried r.1)) z)
                (input ∙ ap (◌++◌ (carried r.1)) (all.whole e f)) f))

-- Whatever the link says and wherever the stream is stopped, the chunks of a new binary stream follow
-- on from 0, and they hold a first part of what the source gives.
pub pump-prefix :
    (answer : ℕ → Answer) (s : Sender (Unit {0})) (cs : List (List ℕ)) (ending : Ending)
    → s.stopped ≡ false
    → s.offset ≡ 0
    → IsPart 0 (flatten cs) (pump as_it_is nothing answer s cs ending)
pump-prefix answer s cs ending h z =
    pump-prefix_of_decoded as_it_is nothing nothing (λ d piece. sym (append-nil piece)) (λ d. refl)
      answer s cs ending h z refl
