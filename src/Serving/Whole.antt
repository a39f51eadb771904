-- ===== src/Serving/Whole.antt =====
-- streams.ts: a stream whose chunks are all sent.
use reins.Base.{
  ℕ, ◌+◌, ◌≡◌, refl, sym, ap, ◌∙◌, Bool, false, ◌||◌, Option, none, List, [], ◌∷◌, ◌++◌, length,
  flatten, append_assoc, append-nil, if◌then◌else◌, arith, subst, All, All-append, if_ind,
}
use reins.Serving.Pump.{
  Answer, accepted, Frame, chunk, finish, done, Sender, pieces, send, send_pieces, send_chunks,
  complete, pump,
}
use reins.Serving.Frames.{carried, Follows, Follows-append, carried-append}
use reins.Serving.Sends.{send_chunks-Sends}
use reins.Serving.Prefix.{send-part}

abbrev pub always : ℕ → Answer
always n = accepted

abbrev pub IsChunk : Frame → Type 0
IsChunk (chunk offset bytes) = Unit
IsChunk (finish error exit) = ⊥

abbrev pub Smooth : {D : Type 0} → Sender D × List Frame × Bool → Type 0
Smooth r = (r.2 ≡ false) × (r.0.stopped ≡ false) × All IsChunk r.1

module _ {D : Type 0} (decode : D → List ℕ → D × List ℕ) (rest : D → List ℕ) where
  send-Smooth :
      (s : Sender D) (bytes : List ℕ) → s.stopped ≡ false → Smooth (send decode rest always s bytes)
  unfolding send
  send-Smooth s [] h = (refl, h, tt)
  send-Smooth s (b ∷ bytes) h = ground (arith, h)

  carried-send :
      (s : Sender D) (bytes : List ℕ)
      → s.stopped ≡ false
      → carried (send decode rest always s bytes).1 ≡ bytes
  unfolding send carried
  carried-send s [] h = refl
  carried-send s (b ∷ bytes) h = ground (arith, h, append-nil bytes)

  Smooth-then :
      (r q : Sender D × List Frame × Bool)
      → Smooth r
      → Smooth q
      → Smooth (if r.2 || r.0.stopped then r else (q.0, r.1 ++ q.1, q.2))
  Smooth-then r q a b =
      if_ind {A = Sender D × List Frame × Bool} Smooth (r.2 || r.0.stopped) (λ _. a)
        (λ _. (b.0, b.1, All-append IsChunk r.1 q.1 a.2 b.2))

  send_pieces-Smooth :
      (s : Sender D) (ps : List (List ℕ))
      → s.stopped ≡ false
      → Smooth (send_pieces decode rest always s ps)
  unfolding send_pieces
  send_pieces-Smooth s [] h = (refl, h, tt)
  send_pieces-Smooth s (p ∷ ps) h =
      let ready : Sender D = record s { decoder = (decode s.decoder p).0 } in
      let one = send-Smooth ready (decode s.decoder p).1 h in
      let r = send decode rest always ready (decode s.decoder p).1 in
      Smooth-then r (send_pieces decode rest always r.0 ps) one (send_pieces-Smooth r.0 ps one.1)

  pub send_chunks-Smooth :
      (s : Sender D) (cs : List (List ℕ))
      → s.stopped ≡ false
      → Smooth (send_chunks decode rest always s cs)
  unfolding send_chunks
  send_chunks-Smooth s [] h = (refl, h, tt)
  send_chunks-Smooth s (c ∷ cs) h =
      let one = send_pieces-Smooth s (pieces c) h in
      let r = send_pieces decode rest always s (pieces c) in
      if_ind {A = Sender D × List Frame × Bool} Smooth s.stopped (λ e. (refl, h, tt))
        (λ _.
          Smooth-then r (send_chunks decode rest always r.0 cs) one
            (send_chunks-Smooth r.0 cs one.1))

-- What a whole stream is: chunks that follow on from 0 and hold the content, and the end.
pub record IsWhole (content : List ℕ) (exit : Option ℕ) (fs : List Frame) : Type 0 where
  pub front : List Frame
  pub chunks : All IsChunk front
  pub follows : Follows 0 front
  pub content_carried : carried front ≡ content
  pub ends : fs ≡ front ++ finish none exit ∷ []

module _ {D : Type 0} (decode : D → List ℕ → D × List ℕ) (rest held : D → List ℕ)
    (decode_held : (d : D) (piece : List ℕ)
      → held d ++ piece ≡ (decode d piece).1 ++ held (decode d piece).0)
    (rest_held : (d : D) → rest d ≡ held d) where
  pub pump-IsWhole :
      (s : Sender D) (cs : List (List ℕ)) (exit : Option ℕ)
      → s.stopped ≡ false
      → s.offset ≡ 0
      → held s.decoder ≡ []
      → IsWhole (flatten cs) exit (pump decode rest always s cs (done exit))
  unfolding pump complete
  pump-IsWhole s cs exit h z k =
      let r = send_chunks decode rest always s cs in
      let all = send_chunks-Sends decode rest held decode_held rest_held always s cs h in
      let smooth = send_chunks-Smooth decode rest s cs h in
      let last = send decode rest always r.0 (rest r.0.decoder) in
      let end = send-Smooth decode rest r.0 (rest r.0.decoder) smooth.1 in
      let part =
        send-part decode rest held decode_held rest_held always r.0 (rest r.0.decoder) smooth.1 in
      record {
        front = r.1 ++ last.1;
        chunks = All-append IsChunk r.1 last.1 smooth.2 end.2;
        follows =
            Follows-append 0 r.1 last.1 (subst (λ n. Follows n r.1) z all.follows) (
              subst (λ n. Follows n last.1) (all.at ∙ ap (λ n. n + length (carried r.1)) z) part.0);
        content_carried =
            carried-append r.1 last.1
            ∙ ap (◌++◌ (carried r.1))
                (carried-send decode rest r.0 (rest r.0.decoder) smooth.1 ∙ rest_held r.0.decoder)
            ∙ ap (◌++◌ (carried r.1)) (sym (all.whole smooth.0 smooth.1))
            ∙ sym all.prefix
            ∙ ap (λ t. t ++ flatten cs) k;
        ends = ground (
          arith,
          smooth.0,
          smooth.1,
          end.0,
          end.1,
          append_assoc r.1 last.1 (finish none exit ∷ []),
        );
      }
