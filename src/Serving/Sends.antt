-- ===== src/Serving/Sends.antt =====
-- streams.ts: what each part of the work sends, whatever the link says.
use reins.Base.{
  ℕ, suc, ◌+◌, ◌≡◌, refl, sym, ap, ◌∙◌, Bool, true, false, ◌||◌, List, [], ◌∷◌, ◌++◌, length,
  length-append, flatten, append_assoc, append-nil, arith, inl, inr, subst, if_ind,
}
use reins.Serving.Pump.{
  Answer, accepted, aborted, refused, Frame, chunk, Sender, advanced, pieces, send, send_pieces,
  send_chunks,
}
use reins.Serving.Frames.{
  Answer-cases, carried, Follows, carried-append, Follows-append, flatten-pieces,
}

-- `held d` is what a decoder has taken and not given yet.
module _ {D : Type 0} (decode : D → List ℕ → D × List ℕ) (rest held : D → List ℕ)
    (decode_held : (d : D) (piece : List ℕ)
      → held d ++ piece ≡ (decode d piece).1 ++ held (decode d piece).0)
    (rest_held : (d : D) → rest d ≡ held d) (answer : ℕ → Answer) where
  -- What a part of the work did: its chunks follow on, and they hold a first part of `input`, all of
  -- it but what the decoder holds back if it was not broken off.
  pub record Sends (s : Sender D) (input : List ℕ) (r : Sender D × List Frame × Bool) : Type 0 where
    pub follows : Follows s.offset r.1
    pub at : r.0.offset ≡ s.offset + length (carried r.1)
    pub left : List ℕ
    pub prefix : input ≡ carried r.1 ++ left
    pub whole : r.2 ≡ false → r.0.stopped ≡ false → left ≡ held r.0.decoder

  pub send_accepted :
      (s : Sender D) (b : ℕ) (bytes : List ℕ)
      → s.stopped ≡ false
      → answer s.sent ≡ accepted
      → send decode rest answer s (b ∷ bytes)
        ≡ (advanced decode rest answer s (b ∷ bytes), chunk s.offset (b ∷ bytes) ∷ [], false)
  unfolding send
  send_accepted s b bytes h e = ground (arith, h, e)

  pub send_aborted :
      (s : Sender D) (b : ℕ) (bytes : List ℕ)
      → s.stopped ≡ false
      → answer s.sent ≡ aborted
      → send decode rest answer s (b ∷ bytes) ≡ (
        record (advanced decode rest answer s (b ∷ bytes)) { stopped = true },
        chunk s.offset (b ∷ bytes) ∷ [],
        false,
      )
  unfolding send
  send_aborted s b bytes h e = ground (arith, h, e)

  pub send_refused :
      (s : Sender D) (b : ℕ) (bytes : List ℕ)
      → s.stopped ≡ false
      → answer s.sent ≡ refused
      → send decode rest answer s (b ∷ bytes) ≡ (record s { sent = suc s.sent }, [], true)
  unfolding send
  send_refused s b bytes h e = ground (arith, h, e)

  -- One chunk, when the decoder `d` of the sender has just given it.
  send-Sends :
      (s : Sender D) (bytes : List ℕ)
      → s.stopped ≡ false
      → Sends s (bytes ++ held s.decoder) (send decode rest answer s bytes)
  unfolding send carried
  send-Sends s [] h = record {
    follows = tt;
    at = omega arith;
    left = held s.decoder;
    prefix = refl;
    whole = λ _ _. refl;
  }
  send-Sends s (b ∷ bytes) h = elim (Answer-cases (answer s.sent)) [
    | inl e ↦
        subst (Sends s ((b ∷ bytes) ++ held s.decoder)) (sym (send_accepted s b bytes h e))
          (record {
            follows = (refl, tt);
            at = ground (arith, append-nil bytes);
            left = held s.decoder;
            prefix = ground (arith, append-nil bytes);
            whole = λ _ _. refl;
          })
    | inr (inl e) ↦
        subst (Sends s ((b ∷ bytes) ++ held s.decoder)) (sym (send_aborted s b bytes h e)) (record {
          follows = (refl, tt);
          at = ground (arith, append-nil bytes);
          left = held s.decoder;
          prefix = ground (arith, append-nil bytes);
          whole = λ _ k. absurd (ground (arith, k));
        })
    | inr (inr e) ↦
        subst (Sends s ((b ∷ bytes) ++ held s.decoder)) (sym (send_refused s b bytes h e)) (record {
          follows = tt;
          at = omega arith;
          left = (b ∷ bytes) ++ held s.decoder;
          prefix = refl;
          whole = λ k _. absurd (ground (arith, k));
        })
  ]

  -- Work that goes on behind work that was not broken off.
  Sends-then :
      (s : Sender D) (input more : List ℕ) (r q : Sender D × List Frame × Bool)
      → r.2 ≡ false
      → r.0.stopped ≡ false
      → Sends s input r
      → Sends r.0 (held r.0.decoder ++ more) q
      → Sends s (input ++ more) (q.0, r.1 ++ q.1, q.2)
  Sends-then s input more r q e f one two = record {
    follows =
        Follows-append s.offset r.1 q.1 one.follows (subst (λ n. Follows n q.1) one.at two.follows);
    at =
        ground (
          arith,
          one.at,
          two.at,
          carried-append r.1 q.1,
          length-append (carried r.1) (carried q.1),
        );
    left = two.left;
    prefix =
        ap (λ t. t ++ more) (one.prefix ∙ ap (◌++◌ (carried r.1)) (one.whole e f))
        ∙ append_assoc (carried r.1) (held r.0.decoder) more
        ∙ ap (◌++◌ (carried r.1)) two.prefix
        ∙ sym (append_assoc (carried r.1) (carried q.1) two.left)
        ∙ ap (λ t. t ++ two.left) (sym (carried-append r.1 q.1));
    whole = two.whole;
  }

  -- Work that was broken off leaves the rest of the input.
  Sends-broken :
      (s : Sender D) (input more : List ℕ) (r : Sender D × List Frame × Bool)
      → (r.2 || r.0.stopped) ≡ true
      → Sends s input r
      → Sends s (input ++ more) r
  Sends-broken s input more r e one = record {
    follows = one.follows;
    at = one.at;
    left = one.left ++ more;
    prefix = ap (λ t. t ++ more) one.prefix ∙ append_assoc (carried r.1) one.left more;
    whole = λ k l. absurd (ground (arith, e, k, l));
  }

  send_pieces-Sends :
      (s : Sender D) (ps : List (List ℕ))
      → s.stopped ≡ false
      → Sends s (held s.decoder ++ flatten ps) (send_pieces decode rest answer s ps)
  unfolding send_pieces flatten carried
  send_pieces-Sends s [] h = record {
    follows = tt;
    at = omega arith;
    left = held s.decoder;
    prefix = append-nil (held s.decoder);
    whole = λ _ _. refl;
  }
  send_pieces-Sends s (p ∷ ps) h =
      let ready : Sender D = record s { decoder = (decode s.decoder p).0 } in
      let r = send decode rest answer ready (decode s.decoder p).1 in
      let input = (decode s.decoder p).1 ++ held ready.decoder in
      let one : Sends s input r = record {
        follows = (send-Sends ready (decode s.decoder p).1 h).follows;
        at = (send-Sends ready (decode s.decoder p).1 h).at;
        left = (send-Sends ready (decode s.decoder p).1 h).left;
        prefix = (send-Sends ready (decode s.decoder p).1 h).prefix;
        whole = (send-Sends ready (decode s.decoder p).1 h).whole;
      } in
      subst (λ t. Sends s t (send_pieces decode rest answer s (p ∷ ps)))
        (ap (λ t. t ++ flatten ps) (sym (decode_held s.decoder p))
          ∙ append_assoc (held s.decoder) p (flatten ps))
        (if_ind {A = Sender D × List Frame × Bool} (Sends s (input ++ flatten ps))
          (r.2 || r.0.stopped) (λ e. Sends-broken s input (flatten ps) r e one)
          (λ e.
            Sends-then s input (flatten ps) r (send_pieces decode rest answer r.0 ps)
              (ground (arith, e)) (ground (arith, e)) one
              (send_pieces-Sends r.0 ps (ground (arith, e)))))

  pub send_chunks-Sends :
      (s : Sender D) (cs : List (List ℕ))
      → s.stopped ≡ false
      → Sends s (held s.decoder ++ flatten cs) (send_chunks decode rest answer s cs)
  unfolding send_chunks flatten carried
  send_chunks-Sends s [] h = record {
    follows = tt;
    at = omega arith;
    left = held s.decoder;
    prefix = append-nil (held s.decoder);
    whole = λ _ _. refl;
  }
  send_chunks-Sends s (c ∷ cs) h =
      let r = send_pieces decode rest answer s (pieces c) in
      let one : Sends s (held s.decoder ++ c) r =
        subst (λ t. Sends s (held s.decoder ++ t) r) (flatten-pieces c)
          (send_pieces-Sends s (pieces c) h) in
      subst (λ t. Sends s t (send_chunks decode rest answer s (c ∷ cs)))
        (append_assoc (held s.decoder) c (flatten cs))
        (if_ind {A = Sender D × List Frame × Bool} (Sends s ((held s.decoder ++ c) ++ flatten cs))
          s.stopped (λ e. absurd (ground (arith, h, e)))
          (λ _.
            if_ind {A = Sender D × List Frame × Bool}
              (Sends s ((held s.decoder ++ c) ++ flatten cs)) (r.2 || r.0.stopped)
              (λ e. Sends-broken s (held s.decoder ++ c) (flatten cs) r e one)
              (λ e.
                Sends-then s (held s.decoder ++ c) (flatten cs) r
                  (send_chunks decode rest answer r.0 cs) (ground (arith, e)) (ground (arith, e))
                  one (send_chunks-Sends r.0 cs (ground (arith, e))))))
