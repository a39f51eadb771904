-- ===== src/Base/Splits.antt =====
-- What `split` of a text gives, and the texts that a separator is not in.
use Prim.Native.Nat.{ℕ}
use mathlib.Core.Path.{◌≡◌, sym, ap}
use mathlib.Core.Bool.{Bool, false}
use mathlib.Core.List.{List, [], ◌∷◌, ◌++◌, append_assoc, append-nil}
use native.Mathlib.Omega.{arith}
use reins.Base.Tests.{◌==◌, ==_refl, if◌then◌else◌}
use reins.Base.Lists.{any}
use reins.Base.Strings.{Text}

-- `text.split(separator)`, with `part` the piece so far.
unfoldable pub split_at : ℕ → Text → Text → List Text
split_at c part [] = part ∷ []
split_at c part (d ∷ ds) =
    let closed = part ∷ split_at c [] ds in
    let longer = split_at c (part ++ d ∷ []) ds in if d == c then closed else longer

abbrev pub has : ℕ → Text → Bool
has c t = any (λ d. d == c) t

pub split_at-free : (c : ℕ) (part t : Text) → has c t ≡ false → split_at c part t ≡ (part ++ t) ∷ []
unfolding split_at
split_at-free c part [] h = ap (λ p. p ∷ []) (sym (append-nil part))
split_at-free c part (d ∷ ds) h =
    ground (arith, h, split_at-free c (part ++ d ∷ []) ds, append_assoc part (d ∷ []) ds)

pub split_at-append :
    (c : ℕ) (part t rest : Text)
    → has c t ≡ false
    → split_at c part (t ++ c ∷ rest) ≡ (part ++ t) ∷ split_at c [] rest
unfolding split_at
split_at-append c part [] rest h = ground (arith, ==_refl c, append-nil part)
split_at-append c part (d ∷ ds) rest h =
    ground (arith, h, split_at-append c (part ++ d ∷ []) ds rest, append_assoc part (d ∷ []) ds)

pub has-append : (c : ℕ) (s t : Text) → has c s ≡ false → has c t ≡ false → has c (s ++ t) ≡ false
has-append c [] t h k = k
has-append c (d ∷ s) t h k = ground (arith, h, has-append c s t)
