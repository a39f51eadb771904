-- ===== src/Serving/Frames.antt =====
-- streams.ts: the frames of a stream and what they carry.
use reins.Base.{
  ℕ, zero, suc, ◌+◌, ◌≡◌, ◌≤◌, refl, sym, ap, ◌∙◌, List, [], ◌∷◌, ◌++◌, length, length-append,
  length-drop, take, drop, take-append-drop, flatten, append_assoc, append-nil, arith, inl, inr,
  subst, ◌⊎◌,
}
use reins.Serving.Pump.{
  Answer, accepted, aborted, refused, Frame, chunk, finish, pieces_from, pieces, stream_chunk_bytes,
}

pub Answer-cases : (a : Answer) → (a ≡ accepted) ⊎ ((a ≡ aborted) ⊎ (a ≡ refused))
Answer-cases accepted = inl refl
Answer-cases aborted = inr (inl refl)
Answer-cases refused = inr (inr refl)

-- The bytes of the chunks, in order.
unfoldable pub carried : List Frame → List ℕ
carried [] = []
carried (chunk offset bytes ∷ fs) = bytes ++ carried fs
carried (finish error exit ∷ fs) = carried fs

-- Each chunk begins where the one before ended, the first at `offset`.
abbrev pub Follows : ℕ → List Frame → Type 0
Follows offset [] = Unit
Follows offset (chunk at bytes ∷ fs) = (at ≡ offset) × Follows (offset + length bytes) fs
Follows offset (finish error exit ∷ fs) = Follows offset fs

pub carried-append : (fs gs : List Frame) → carried (fs ++ gs) ≡ carried fs ++ carried gs
unfolding carried
carried-append [] gs = refl
carried-append (chunk offset bytes ∷ fs) gs =
    ground (arith, carried-append fs gs, append_assoc bytes (carried fs) (carried gs))
carried-append (finish error exit ∷ fs) gs = carried-append fs gs

pub Follows-append :
    (offset : ℕ) (fs gs : List Frame)
    → Follows offset fs
    → Follows (offset + length (carried fs)) gs
    → Follows offset (fs ++ gs)
unfolding carried
Follows-append offset [] gs h k = subst (λ n. Follows n gs) (omega arith) k
Follows-append offset (chunk at bytes ∷ fs) gs h k = (
  h.0,
  Follows-append (offset + length bytes) fs gs h.1
      (subst (λ n. Follows n gs) (omega (arith, length-append bytes (carried fs))) k),
)
Follows-append offset (finish error exit ∷ fs) gs h k = Follows-append offset fs gs h k

flatten-pieces_from :
    (fuel : ℕ) (bytes : List ℕ) → length bytes ≤ fuel → flatten (pieces_from fuel bytes) ≡ bytes
unfolding pieces_from flatten
flatten-pieces_from zero [] h = refl
flatten-pieces_from zero (b ∷ bytes) h = absurd (omega (arith, h))
flatten-pieces_from (suc fuel) [] h = refl
flatten-pieces_from (suc fuel) (b ∷ bytes) h =
    ap (◌++◌ (take stream_chunk_bytes (b ∷ bytes))) (
      flatten-pieces_from fuel (drop stream_chunk_bytes (b ∷ bytes))
        (omega (arith, h, length-drop stream_chunk_bytes (b ∷ bytes))))
    ∙ take-append-drop stream_chunk_bytes (b ∷ bytes)

-- The pieces of a chunk hold its bytes.
pub flatten-pieces : (bytes : List ℕ) → flatten (pieces bytes) ≡ bytes
unfolding pieces
flatten-pieces bytes = flatten-pieces_from (length bytes) bytes (omega arith)

-- Frames whose chunks follow on and hold a first part of the input.
abbrev pub IsPart : ℕ → List ℕ → List Frame → Type 0
IsPart offset input fs = Follows offset fs × (left : List ℕ) × (input ≡ carried fs ++ left)

-- Frames that carry nothing change neither.
pub IsPart-quiet :
    (offset : ℕ) (input : List ℕ) (fs gs : List Frame)
    → IsPart offset input fs
    → carried gs ≡ []
    → ((at : ℕ) → Follows at gs)
    → IsPart offset input (fs ++ gs)
IsPart-quiet offset input fs gs (f, left, e) q k = (
  Follows-append offset fs gs f (k (offset + length (carried fs))),
  left,
  e
      ∙ ap (λ t. t ++ left)
          (sym (carried-append fs gs ∙ ap (◌++◌ (carried fs)) q ∙ append-nil (carried fs))),
)
