-- ===== src/Link/Rpc/Late.antt =====
-- rpc.ts: a reply that comes after its call was given up.
use reins.Base.{
  ℕ, suc, ◌+◌, ◌≤◌, ◌<◌, ◌≡◌, refl, sym, ap, ◌∙◌, subst, Bool, true, false, not, none, some, List,
  [], ◌∷◌, Text, arith, lookup, delete, any, ◌==◌, ==_refl, ==→eq, keep, count_key,
  count_key-delete, Bool-cases, inl, inr,
}
use reins.Link.Rpc.Effects.{Call, Options, Peer, create, max_expired}
use reins.Link.Rpc.Calls.{expire, abandon}
use reins.Link.Rpc.Inbound.{
  Reply, unparsable, unknown, asks, tells, replies, binary, chars, on_response, on_content,
  on_frame, receive,
}
use reins.Link.Rpc.Trace.{
  Operation, calls, abandons, notifies, receives, beats, finishes, closes, step, run,
}
use reins.Link.Rpc.Settling.{step-Accounts, issued}
use reins.Link.Rpc.Bounds.{IsBounded, abandon-IsBounded, step-IsBounded, run-create-IsBounded}
use reins.Link.Rpc.Remembered.{
  IsRemembered, any-IsRemembered, expire-IsRemembered, expire-IsRemembered_new, any-expire_other,
  any-keep, keep-IsRemembered,
}
use reins.Link.Rpc.Evolving.{
  abandoned, is_reply, Evolution, same, given_up, forgotten, step-Evolution,
}

issued-le : (k next : ℕ) → issued k next ≤ 1
issued-le k next = ground arith

count_key-of_lookup {ℓ} :
    {A : Type ℓ} (id : ℕ) (v : A) (xs : List (ℕ × A)) → lookup id xs ≡ some v → 0 < count_key id xs
count_key-of_lookup id v [] h = absurd (ground (arith, h))
count_key-of_lookup id v ((j, w) ∷ xs) h = ground (arith, h, count_key-of_lookup id v xs)

lookup_of_count_key {ℓ} :
    {A : Type ℓ} (id : ℕ) (m : List (ℕ × A)) → count_key id m ≡ 0 → lookup id m ≡ none
lookup_of_count_key id [] h = refl
lookup_of_count_key id ((j, v) ∷ m) h = ground (arith, lookup_of_count_key id m)

-- A call was issued and is not pending any more.
abbrev IsSpent : {V : Type 0} → ℕ → Peer V → Type 0
IsSpent k p = (count_key k p.pending ≡ 0) × (issued k p.next_id ≡ 1)

-- A pending call was issued, and no remembered one is pending.
record IsKnown {V : Type 0} (k : ℕ) (p : Peer V) : Type 0 where
  fresh : count_key k p.pending ≤ issued k p.next_id
  spent : any (λ i. i == k) p.expired ≡ true → IsSpent k p

module _ {V : Type 0} (o : Options V) where
  stays-IsSpent : (k : ℕ) (p : Peer V) (op : Operation V) → IsSpent k p → IsSpent k (step o p op).0
  stays-IsSpent k p op (h, l) =
      let a = step-Accounts k o p op in
      let b = issued-le k (step o p op).0.next_id in
      (omega (arith, a, b, h, l), omega (arith, a, b, h, l))

  given_up-IsSpent :
      (k : ℕ) (p q : Peer V) (c : Call V)
      → lookup k p.pending ≡ some c
      → q.pending ≡ delete k p.pending
      → q.next_id ≡ p.next_id
      → count_key k p.pending ≤ issued k p.next_id
      → IsSpent k q
  given_up-IsSpent k p q c l d n f =
      let some_left = count_key-of_lookup k c p.pending l in
      let gone = count_key-delete k k c p.pending l in
      let most = issued-le k p.next_id in
      (
        ap (count_key k) d ∙ ground (arith, gone, most, f, ==_refl k),
        ap (issued k) n ∙ omega (arith, some_left, most, f),
      )

  evolved-IsSpent :
      (k : ℕ) (p : Peer V) (op : Operation V)
      → IsKnown k p
      → Evolution p (step o p op).0 op
      → any (λ i. i == k) (step o p op).0.expired ≡ true
      → IsSpent k (step o p op).0
  evolved-IsSpent k p op v (same e) h =
      stays-IsSpent k p op (v.spent (ap (any (λ i. i == k)) (sym e) ∙ h))
  evolved-IsSpent k p op v (given_up j c l d n e z) h = elim (Bool-cases (j == k)) [
    | inl s ↦
        let is_k = ==→eq j k s in
        given_up-IsSpent k p (step o p op).0 c (ap (λ i. lookup i p.pending) (sym is_k) ∙ l)
          (d ∙ ap (λ i. delete i p.pending) is_k) n v.fresh
    | inr s ↦
        stays-IsSpent k p op
          (v.spent (any-expire_other k j p.expired s (ap (any (λ i. i == k)) (sym e) ∙ h)))
  ]
  evolved-IsSpent k p op v (forgotten j r e) h =
      stays-IsSpent k p op
        (v.spent (any-keep k (λ i. not (i == j)) p.expired (ap (any (λ i. i == k)) (sym e) ∙ h)))

  step-IsKnown : (k : ℕ) (p : Peer V) (op : Operation V) → IsKnown k p → IsKnown k (step o p op).0
  step-IsKnown k p op v = record {
    fresh = omega (arith, step-Accounts k o p op, v.fresh);
    spent = evolved-IsSpent k p op v (step-Evolution o p op);
  }

  run-IsKnown :
      (k : ℕ) (p : Peer V) (ops : List (Operation V)) → IsKnown k p → IsKnown k (run o p ops).0
  unfolding run
  run-IsKnown k p [] v = v
  run-IsKnown k p (op ∷ ops) v = run-IsKnown k (step o p op).0 ops (step-IsKnown k p op v)

  -- A call that was given up and whose reply may still come, with at most `n` given up after it.
  record IsAwaited (id n : ℕ) (p : Peer V) : Type 0 where
    bounded : IsBounded p
    remembered : IsRemembered id n p.expired
    gone : IsSpent id p

  is_reply-other :
      (id j : ℕ) (op : Operation V)
      → is_reply j op ≡ true
      → is_reply id op ≡ false
      → (j == id) ≡ false
  is_reply-other id j (receives (chars bytes (replies (some k) r)) ok) h l =
      ground (arith, h, l, ==→eq k j, ap (λ i. i == id))
  is_reply-other id j (receives (chars bytes (replies none r)) ok) h l = absurd (ground (arith, h))
  is_reply-other id j (receives (chars bytes unparsable) ok) h l = absurd (ground (arith, h))
  is_reply-other id j (receives (chars bytes unknown) ok) h l = absurd (ground (arith, h))
  is_reply-other id j (receives (chars bytes (asks a m v)) ok) h l = absurd (ground (arith, h))
  is_reply-other id j (receives (chars bytes (tells m v)) ok) h l = absurd (ground (arith, h))
  is_reply-other id j (receives binary ok) h l = absurd (ground (arith, h))
  is_reply-other id j (calls _ _ _ _ _ _) h l = absurd (ground (arith, h))
  is_reply-other id j (abandons _ _) h l = absurd (ground (arith, h))
  is_reply-other id j (notifies _ _ _) h l = absurd (ground (arith, h))
  is_reply-other id j (beats _) h l = absurd (ground (arith, h))
  is_reply-other id j (finishes _ _ _ _ _) h l = absurd (ground (arith, h))
  is_reply-other id j closes h l = absurd (ground (arith, h))

  IsRemembered-more :
      (id n m : ℕ) (ids : List ℕ) → n ≤ m → IsRemembered id n ids → IsRemembered id m ids
  IsRemembered-more id n m ids h (older, newer, e, l) = (older, newer, e, omega (arith, l, h))

  evolved-IsRemembered :
      (id n : ℕ) (p q : Peer V) (op : Operation V)
      → IsBounded p
      → IsRemembered id n p.expired
      → n + abandoned (op ∷ []) < max_expired
      → is_reply id op ≡ false
      → Evolution p q op
      → IsRemembered id (n + abandoned (op ∷ [])) q.expired
  evolved-IsRemembered id n p q op v r m h (same e) =
      subst (IsRemembered id (n + abandoned (op ∷ []))) (sym e)
        (IsRemembered-more id n (n + abandoned (op ∷ [])) p.expired (omega arith) r)
  evolved-IsRemembered id n p q op v r m h (given_up j c l d x e z) =
      let one : suc n ≡ n + abandoned (op ∷ []) = omega (arith, z) in
      subst (IsRemembered id (n + abandoned (op ∷ []))) (sym e) (
        subst (λ i. IsRemembered id i (expire j p.expired)) one
          (expire-IsRemembered id n j p.expired v.ids (omega (arith, m, z)) r))
  evolved-IsRemembered id n p q op v r m h (forgotten j is e) =
      subst (IsRemembered id (n + abandoned (op ∷ []))) (sym e) (
        IsRemembered-more id n (n + abandoned (op ∷ [])) (keep (λ i. not (i == j)) p.expired)
          (omega arith) (keep-IsRemembered id n j p.expired (is_reply-other id j op is h) r))

  abandoned-cons :
      (op : Operation V) (ops : List (Operation V))
      → abandoned (op ∷ ops) ≡ abandoned (op ∷ []) + abandoned ops
  abandoned-cons (calls _ _ _ _ _ _) ops = omega arith
  abandoned-cons (abandons _ _) ops = omega arith
  abandoned-cons (notifies _ _ _) ops = omega arith
  abandoned-cons (receives _ _) ops = omega arith
  abandoned-cons (beats _) ops = omega arith
  abandoned-cons (finishes _ _ _ _ _) ops = omega arith
  abandoned-cons closes ops = omega arith

  run-IsAwaited :
      (id n : ℕ) (p : Peer V) (more : List (Operation V))
      → IsAwaited id n p
      → n + abandoned more < max_expired
      → any (is_reply id) more ≡ false
      → IsAwaited id (n + abandoned more) (run o p more).0
  unfolding run
  run-IsAwaited id n p [] v m h = record {
    bounded = v.bounded;
    remembered = IsRemembered-more id n (n + 0) p.expired (omega arith) v.remembered;
    gone = v.gone;
  }
  run-IsAwaited id n p (op ∷ more) v m h =
      let split = abandoned-cons op more in
      let now : IsAwaited id (n + abandoned (op ∷ [])) (step o p op).0 = record {
        bounded = step-IsBounded o p op v.bounded;
        remembered =
            evolved-IsRemembered id n p (step o p op).0 op v.bounded v.remembered
              (omega (arith, m, split)) (ground (arith, h)) (step-Evolution o p op);
        gone = stays-IsSpent id p op v.gone;
      } in
      subst (λ i. IsAwaited id i (run o (step o p op).0 more).0) (omega (arith, split))
        (run-IsAwaited id (n + abandoned (op ∷ [])) (step o p op).0 more now
          (omega (arith, m, split)) (ground (arith, h)))

  abandoned-IsAwaited :
      (p : Peer V) (id : ℕ) (why : Text) (c : Call V)
      → lookup id p.pending ≡ some c
      → IsBounded p
      → IsKnown id p
      → IsAwaited id 0 (abandon p id why).0
  abandoned-IsAwaited p id why c l v k =
      let some_left = count_key-of_lookup id c p.pending l in
      let new : any (λ i. i == id) p.expired ≡ false =
        elim (Bool-cases (any (λ i. i == id) p.expired)) [
          | inl e ↦ absurd (omega (arith, some_left, (k.spent e).0))
          | inr e ↦ e
        ] in
      let q : Peer V = record p { pending = delete id p.pending; expired = expire id p.expired } in
      let same : (abandon p id why).0 ≡ q = unfold abandon in rw (l, abandon) refl in
      subst (IsAwaited id 0) (sym same) (record {
        bounded = subst IsBounded same (abandon-IsBounded p id why v);
        remembered = expire-IsRemembered_new id p.expired new;
        gone = given_up-IsSpent id p q c l refl refl k.fresh;
      })

  -- A call of any run is given up, and then come any other operations, with fewer than 1024 further
  -- calls given up and no reply to the call among them. If the peer is still open then, the reply, in a
  -- frame under the cap, is dropped without an effect and the peer stays open.
  pub receive-abandon_late :
      (ops more : List (Operation V)) (id bytes : ℕ) (why : Text) (c : Call V) (r : Reply V)
      (ok : Bool)
      → lookup id (run o create ops).0.pending ≡ some c
      → abandoned more < max_expired
      → any (is_reply id) more ≡ false
      → (run o (abandon (run o create ops).0 id why).0 more).0.closed ≡ false
      → bytes ≤ o.max_frame_bytes
      → let q = (run o (abandon (run o create ops).0 id why).0 more).0 in
        let late = receive o q (chars bytes (replies (some id) r)) ok in
        (late.1 ≡ []) × (late.0.closed ≡ false)
  unfolding receive on_frame on_content on_response
  receive-abandon_late ops more id bytes why c r ok l m h still small =
      let p = (run o create ops).0 in
      let known : IsKnown id p = run-IsKnown id create ops (
        unfold create in record { fresh = omega arith; spent = λ e. absurd (ground (arith, e)) }) in
      let q = (run o (abandon p id why).0 more).0 in
      let v : IsAwaited id (0 + abandoned more) q =
        run-IsAwaited id 0 (abandon p id why).0 more
          (abandoned-IsAwaited p id why c l (run-create-IsBounded o ops).0 known) (omega (arith, m))
          h in
      ground (
        arith,
        still,
        small,
        lookup_of_count_key id q.pending v.gone.0,
        any-IsRemembered id (0 + abandoned more) q.expired v.remembered,
      )
