-- ===== src/Link/Rpc/Remembered.antt =====
-- rpc.ts: `expired`, the ids of the calls that were given up.
use reins.Base.{
  if_ind, ◌||◌, ℕ, suc, ◌≤◌, ◌<◌, ◌≡◌, refl, sym, ap, ◌∙◌, subst, Bool, true, false, not, List, [],
  ◌∷◌, ◌++◌, arith, leb, length, length-append, any, ◌==◌, tail, keep, Bool-cases, inl, inr,
  if◌then◌else◌, append_assoc, length-keep-le,
}
use reins.Link.Rpc.Effects.{max_expired}
use reins.Link.Rpc.Calls.{expire}

-- The id is remembered, with at most `n` ids that were remembered after it.
abbrev pub IsRemembered : ℕ → ℕ → List ℕ → Type 0
IsRemembered id n ids =
    (older : List ℕ) × (newer : List ℕ) × (ids ≡ older ++ id ∷ newer) × (length newer ≤ n)

pub any-IsRemembered :
    (id n : ℕ) (ids : List ℕ) → IsRemembered id n ids → any (λ k. k == id) ids ≡ true
any-IsRemembered id n ids (older, newer, e, l) = rw e (within older)
  where
    within : (xs : List ℕ) → any (λ k. k == id) (xs ++ id ∷ newer) ≡ true
    within [] = ground arith
    within (x ∷ xs) = ground (arith, within xs)

tail-IsRemembered :
    (id n : ℕ) (older newer : List ℕ)
    → length newer ≤ n
    → n < max_expired
    → max_expired < length (older ++ id ∷ newer)
    → IsRemembered id n (tail (older ++ id ∷ newer))
tail-IsRemembered id n [] newer l m h = absurd (omega (arith, l, m, h))
tail-IsRemembered id n (x ∷ older) newer l m h = (older, newer, refl, l)

-- What `expire` makes of the ids: nothing new, or the id at the end, less the oldest one.
expire-known :
    (k : ℕ) (ids : List ℕ)
    → length ids ≤ max_expired
    → any (λ j. j == k) ids ≡ true
    → expire k ids ≡ ids
unfolding expire
expire-known k ids h e = ground (arith, h, e)

abbrev at_end : ℕ → List ℕ → List ℕ
at_end k ids =
    if leb (length (ids ++ k ∷ [])) max_expired then ids ++ k ∷ [] else tail (ids ++ k ∷ [])

expire-new : (k : ℕ) (ids : List ℕ) → any (λ j. j == k) ids ≡ false → expire k ids ≡ at_end k ids
unfolding expire
expire-new k ids e = ground (arith, e)

at_end-IsRemembered :
    (id n k : ℕ) (ids older newer : List ℕ)
    → n < max_expired
    → ids ++ k ∷ [] ≡ older ++ id ∷ newer
    → length newer ≤ n
    → IsRemembered id n (at_end k ids)
at_end-IsRemembered id n k ids older newer m e l =
    if_ind {A = List ℕ} (IsRemembered id n) (leb (length (ids ++ k ∷ [])) max_expired)
      (λ _. (older, newer, e, l))
      (λ no.
        subst (λ t. IsRemembered id n (tail t)) (sym e)
          (tail-IsRemembered id n older newer l m (ground (arith, no, ap length e))))

-- A further id takes the place of the oldest one at most.
pub expire-IsRemembered :
    (id n k : ℕ) (ids : List ℕ)
    → length ids ≤ max_expired
    → suc n < max_expired
    → IsRemembered id n ids
    → IsRemembered id (suc n) (expire k ids)
expire-IsRemembered id n k ids h m (older, newer, e, l) =
    elim (Bool-cases (any (λ j. j == k) ids)) [
      | inl q ↦
          subst (IsRemembered id (suc n)) (sym (expire-known k ids h q))
            (older, newer, e, omega (arith, l))
      | inr q ↦ subst (IsRemembered id (suc n)) (sym (expire-new k ids q)) (
          at_end-IsRemembered id (suc n) k ids older (newer ++ k ∷ []) m
            (ap (λ t. t ++ k ∷ []) e ∙ append_assoc older (id ∷ newer) (k ∷ []))
            (omega (arith, l, length-append newer (k ∷ []))))
    ]

-- An id that is given up and was not remembered yet is the newest one.
pub expire-IsRemembered_new :
    (id : ℕ) (ids : List ℕ) → any (λ j. j == id) ids ≡ false → IsRemembered id 0 (expire id ids)
expire-IsRemembered_new id ids q =
    subst (IsRemembered id 0) (sym (expire-new id ids q))
      (at_end-IsRemembered id 0 id ids ids [] (omega arith) refl (omega arith))

any-append_last :
    (k j : ℕ) (ids : List ℕ) → any (λ i. i == k) (ids ++ j ∷ []) ≡ any (λ i. i == k) ids || j == k
any-append_last k j [] = ground arith
any-append_last k j (x ∷ ids) = ground (arith, any-append_last k j ids)

any-tail :
    (k : ℕ) (ids : List ℕ) → any (λ i. i == k) (tail ids) ≡ true → any (λ i. i == k) ids ≡ true
any-tail k [] h = h
any-tail k (x ∷ ids) h = ground (arith, h)

-- An id that `expire` did not add was there before.
pub any-expire_other :
    (k j : ℕ) (ids : List ℕ)
    → (j == k) ≡ false
    → any (λ i. i == k) (expire j ids) ≡ true
    → any (λ i. i == k) ids ≡ true
unfolding expire
any-expire_other k j ids h e =
    ground (arith, h, e, any-append_last k j ids, any-tail k (ids ++ j ∷ []), any-tail k ids)

pub any-keep :
    (k : ℕ) (p : ℕ → Bool) (ids : List ℕ)
    → any (λ i. i == k) (keep p ids) ≡ true
    → any (λ i. i == k) ids ≡ true
any-keep k p [] h = h
any-keep k p (x ∷ ids) h = ground (arith, h, any-keep k p ids)

keep-append : (p : ℕ → Bool) (xs ys : List ℕ) → keep p (xs ++ ys) ≡ keep p xs ++ keep p ys
keep-append p [] ys = refl
keep-append p (x ∷ xs) ys = ground (arith, keep-append p xs ys)

pub keep-IsRemembered :
    (id n k : ℕ) (ids : List ℕ)
    → (k == id) ≡ false
    → IsRemembered id n ids
    → IsRemembered id n (keep (λ j. not (j == k)) ids)
keep-IsRemembered id n k ids h (older, newer, e, l) = (
  keep (λ j. not (j == k)) older,
  keep (λ j. not (j == k)) newer,
  ap (keep (λ j. not (j == k))) e
      ∙ keep-append (λ j. not (j == k)) older (id ∷ newer)
      ∙ ap (λ t. keep (λ j. not (j == k)) older ++ t) (ground (arith, h)),
  omega (arith, l, length-keep-le (λ (j : ℕ). not (j == k)) newer),
)
