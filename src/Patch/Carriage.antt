-- ===== src/Patch/Carriage.antt =====
-- patch.ts: patch lines that end in a carriage return.
use reins.Base.{◌≡◌, ◌≢◌, refl, [], ◌∷◌, ◌++◌, Text, arith, All}
use reins.Patch.Hunks.{physical_from}

-- A patch line without a newline of its own, read from a text in which it ends in CR LF, is read as
-- an empty line.
pub physical_from-carriage :
    (line t rest : Text)
    → All (λ c. c ≢ 10) t
    → physical_from line (t ++ 13 ∷ 10 ∷ rest) ≡ [] ∷ physical_from [] rest
unfolding physical_from
physical_from-carriage [] [] rest h = refl
physical_from-carriage (d ∷ line) [] rest h = refl
physical_from-carriage [] (c ∷ t) rest h =
    ground (arith, physical_from-carriage [] t rest, physical_from-carriage (c ∷ []) t rest)
physical_from-carriage (d ∷ line) (c ∷ t) rest h =
    ground (
      arith,
      physical_from-carriage [] t rest,
      physical_from-carriage ((d ∷ line) ++ c ∷ []) t rest,
    )
