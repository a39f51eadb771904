-- ===== src/Base/Table.antt =====
-- A JavaScript `Map` as an association list in insertion order: `set` on a key that is present keeps
-- its place, `delete` takes the entry out. Keys are compared by a Boolean test.
use Prim.Native.Nat.{ℕ, suc, ◌≤◌, ◌+◌}
use mathlib.Core.Path.{◌≡◌, refl}
use mathlib.Core.Option.{Option, none, some}
use mathlib.Core.List.{List, [], ◌∷◌, ◌++◌}
use native.Mathlib.Omega.{arith}
use reins.Base.Tests.{◌==◌, if◌then◌else◌}
use reins.Base.Lists.{length, length-append}

module _ {ℓ} {V : Type ℓ} where
  abbrev pub lookup : ℕ → List (ℕ × V) → Option V
  lookup k [] = none
  lookup k ((j, v) ∷ m) = if j == k then some v else lookup k m

  abbrev pub insert : ℕ → V → List (ℕ × V) → List (ℕ × V)
  insert k v [] = (k, v) ∷ []
  insert k v ((j, w) ∷ m) = if j == k then (j, v) ∷ m else (j, w) ∷ insert k v m

  abbrev pub delete : ℕ → List (ℕ × V) → List (ℕ × V)
  delete k [] = []
  delete k ((j, w) ∷ m) = if j == k then m else (j, w) ∷ delete k m

  -- How often a key stands in the table.
  abbrev pub count_key : ℕ → List (ℕ × V) → ℕ
  count_key k [] = 0
  count_key k ((j, w) ∷ m) = if j == k then suc (count_key k m) else count_key k m

  pub lookup-insert :
      (k j : ℕ) (v : V) (m : List (ℕ × V))
      → lookup j (insert k v m) ≡ (if k == j then some v else lookup j m)
  lookup-insert k j v [] = refl
  lookup-insert k j v ((i, w) ∷ m) = ground (arith, lookup-insert k j v m)

  pub count_key-append :
      (k : ℕ) (m n : List (ℕ × V)) → count_key k (m ++ n) ≡ count_key k m + count_key k n
  count_key-append k [] n = omega arith
  count_key-append k ((j, w) ∷ m) n = ground (arith, count_key-append k m n)

  -- A deletion takes out one entry of a key that is present.
  pub count_key-delete :
      (k id : ℕ) (v : V) (m : List (ℕ × V))
      → lookup id m ≡ some v
      → count_key k m ≡ (if id == k then 1 else 0) + count_key k (delete id m)
  count_key-delete k id v [] h = cc
  count_key-delete k id v ((i, w) ∷ m) h = ground (arith, count_key-delete k id v m)

  -- What was put at the end and is deleted again leaves every count as it was.
  pub count_key-delete_append :
      (k id : ℕ) (v : V) (m : List (ℕ × V))
      → count_key k (delete id (m ++ (id, v) ∷ [])) ≡ count_key k m
  count_key-delete_append k id v [] = ground arith
  count_key-delete_append k id v ((i, w) ∷ m) =
      ground (arith, count_key-delete_append k id v m, count_key-append k m ((id, v) ∷ []))

  pub length-delete_append :
      (id : ℕ) (v : V) (m : List (ℕ × V)) → length (delete id (m ++ (id, v) ∷ [])) ≡ length m
  length-delete_append id v [] = ground arith
  length-delete_append id v ((i, w) ∷ m) =
      ground (arith, length-delete_append id v m, length-append m ((id, v) ∷ []))

  pub length-delete-le : (k : ℕ) (m : List (ℕ × V)) → length (delete k m) ≤ length m
  length-delete-le k [] = omega arith
  length-delete-le k ((j, w) ∷ m) = ground (arith, length-delete-le k m)
