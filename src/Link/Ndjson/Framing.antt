-- ===== src/Link/Ndjson/Framing.antt =====
-- local-socket.ts: the receiving side, `receive` with `shut` and `overflow`.
use mathlib.Core.List.{flatten}
use reins.Base.{
  ℕ, zero, suc, ◌+◌, Bool, true, Option, none, some, List, [], ◌∷◌, ◌++◌, Text, ltb, ◌==◌,
  if◌then◌else◌, length, take, drop,
}

abbrev pub newline : ℕ
newline = 10

-- `chunk.indexOf(NEWLINE, start)`, from `start`.
unfoldable pub index_of_newline : List ℕ → Option ℕ
index_of_newline [] = none
index_of_newline (b ∷ bytes) =
    if b == newline
    then some 0
    else elim (index_of_newline bytes) [ none ↦ none | some i ↦ some (suc i) ]

-- `sink` is what the consumer of the messages holds.
pub record Reader (S : Type 0) : Type 0 where
  pub closed : Bool
  pub parts : List (List ℕ)
  pub part_bytes : ℕ
  pub sink : S

unfoldable pub shut : {S : Type 0} → Reader S → Reader S
shut r = record r { closed = true; parts = []; part_bytes = 0 }

-- The decoder refuses what is not UTF-8; the consumer says whether its callback closed the socket.
module _ {S : Type 0} (max_frame_bytes : ℕ) (decode : List ℕ → Option Text)
    (deliver : S → Text → S × Bool) where
  -- A frame whose newline has come.
  unfoldable pub complete : Reader S → List ℕ → Reader S
  unfolding shut
  complete r frame = elim (decode frame) [
    | none ↦ shut (record r { parts = []; part_bytes = 0 })
    | some text ↦
        let (sink, closes) = deliver r.sink text in
        record r { closed = closes; parts = []; part_bytes = 0; sink = sink }
  ]

  -- The loop of `receive` on what is left of the chunk; a round takes at least one byte.
  unfoldable pub receive_loop : ℕ → Reader S → List ℕ → Reader S
  receive_loop zero r rest = r
  receive_loop (suc fuel) r [] = r
  receive_loop (suc fuel) r (b ∷ bytes) =
      if r.closed then r else elim (index_of_newline (b ∷ bytes)) [
        | none ↦
            if ltb max_frame_bytes (r.part_bytes + length (b ∷ bytes)) then shut r else record r {
              parts = r.parts ++ (b ∷ bytes) ∷ [];
              part_bytes = r.part_bytes + length (b ∷ bytes);
            }
        | some end ↦
            if ltb max_frame_bytes (r.part_bytes + length (take end (b ∷ bytes)))
            then shut r
            else receive_loop fuel (complete r (flatten r.parts ++ take end (b ∷ bytes)))
                (drop (suc end) (b ∷ bytes))
      ]

  -- `receive`. A chunk of n bytes takes n rounds at most.
  unfoldable pub receive : Reader S → List ℕ → Reader S
  receive r chunk = receive_loop (length chunk) r chunk
