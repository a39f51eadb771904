-- ===== src/Routing/Splitting.antt =====
-- router.ts: what `split` gives of texts put together, and what a hash is split into.
use reins.Base.{
  has-append, split_at, has, split_at-free, split_at-append, ◌≡◌, refl, true, false, List, [], ◌∷◌,
  ◌++◌, append_assoc, Text, text, join, keep, All, arith,
}
use reins.Routing.Router.{is_present, segments_of, split_hash}

-- A segment of a path that a router can split: it is not empty and holds no separator.
abbrev pub IsSegment : Text → Type 0
IsSegment t = (is_present t ≡ true) × (has b'/' t ≡ false)

keep-split_at-join :
    (ts : List Text)
    → All IsSegment ts
    → keep is_present (split_at b'/' [] (join (text "/") ts)) ≡ ts
unfolding split_at
keep-split_at-join [] h = refl
keep-split_at-join (t ∷ []) h = ground (arith, h, split_at-free b'/' [] t)
keep-split_at-join (t ∷ u ∷ ts) h = ground (
  arith,
  h,
  split_at-append b'/' [] t (join (text "/") (u ∷ ts)),
  keep-split_at-join (u ∷ ts) h.1,
)

-- A path whose segments have no `?` has none.
pub has-join :
    (ts : List Text) → All (λ t. has b'?' t ≡ false) ts → has b'?' (join (text "/") ts) ≡ false
has-join [] h = refl
has-join (t ∷ []) h = h.0
has-join (t ∷ u ∷ ts) h =
    has-append b'?' t (text "/" ++ join (text "/") (u ∷ ts)) h.0 (has-join (u ∷ ts) h.1)

-- A path is split into the segments it was joined of.
pub segments_of-join :
    (ts : List Text) → All IsSegment ts → segments_of (text "/" ++ join (text "/") ts) ≡ ts
unfolding segments_of split_at
segments_of-join ts h = keep-split_at-join ts h

-- A hash without a query.
pub split_hash-path :
    (path : Text) → has b'?' path ≡ false → split_hash (text "#/" ++ path) ≡ (text "/" ++ path, [])
unfolding split_hash
split_hash-path path h = rw (split_at-free b'?' [] (text "/" ++ path) h) refl

-- A hash with one.
pub split_hash-query :
    (path query : Text)
    → has b'?' path ≡ false
    → has b'?' query ≡ false
    → split_hash (text "#/" ++ path ++ text "?" ++ query) ≡ (text "/" ++ path, query)
unfolding split_hash
split_hash-query path query h k =
    rw
      (
        append_assoc path (text "?") query,
        split_at-append b'?' [] (text "/" ++ path) query h,
        split_at-free b'?' [] query k,
      )
      refl
