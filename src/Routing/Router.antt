-- ===== src/Routing/Router.antt =====
-- router.ts: `FrontendRouter`. The coding of URI components and of queries is the platform's and a
-- parameter. A page's rendering is left out.
use reins.Base.{
  split_at, Bool, true, false, not, Option, none, some, List, [], ◌∷◌, ◌++◌, Text, text, text_eq,
  starts_with, drop, length, join, any, keep, ◌==◌, if◌then◌else◌,
}

abbrev pub Params : Type 0
Params = List (Text × Text)

-- The platform's functions: `encodeURIComponent`, which throws on a lone surrogate,
-- `decodeURIComponent`, which throws on malformed text, and the printing and parsing of `URLSearchParams`.
pub record Platform : Type 0 where
  pub encode : Text → Option Text
  pub decode : Text → Option Text
  pub print_query : Params → Text
  pub parse_query : Text → Params

pub record Route : Type 0 where
  pub name : Text
  pub params : Params

pub record Registration : Type 0 where
  pub name : Text
  pub segments : List Text
  pub validate : Params → Bool

abbrev pub empty_route : Route
empty_route = record { name = text "empty"; params = [] }

-- `params[key] = value`, and `params[key]`.
unfoldable pub put : Text → Text → Params → Params
put key value [] = (key, value) ∷ []
put key value ((k, v) ∷ ps) = if text_eq k key then (k, value) ∷ ps else (k, v) ∷ put key value ps

unfoldable pub get : Text → Params → Option Text
get key [] = none
get key ((k, v) ∷ ps) = if text_eq k key then some v else get key ps

-- `Object.fromEntries`.
unfoldable pub from_entries : Params → Params → Params
from_entries acc [] = acc
from_entries acc ((k, v) ∷ ps) = from_entries (put k v acc) ps

abbrev pub is_present : Text → Bool
is_present [] = false
is_present (c ∷ cs) = true

-- `split("/").filter(Boolean)`.
unfoldable pub segments_of : Text → List Text
segments_of path = keep is_present (split_at b'/' [] path)

abbrev pub first_or_empty : List Text → Text
first_or_empty [] = []
first_or_empty (t ∷ ts) = t

abbrev pub second_or_empty : List Text → Text
second_or_empty [] = []
second_or_empty (t ∷ ts) = first_or_empty ts

-- `splitHash`: the path and the text of the query.
unfoldable pub split_hash : Text → Text × Text
split_hash hash =
    let parts = split_at b'?' [] (if starts_with hash (text "#") then drop 1 hash else hash) in
    let path = first_or_empty parts in
    (if starts_with path (text "/") then path else b'/' ∷ path, second_or_empty parts)

-- `register`, and the removal that it returns.
unfoldable pub register : Registration → List Registration → Option (List Registration)
register r routes =
    if any (λ route. text_eq route.name r.name) routes then none else some (routes ++ r ∷ [])

unfoldable pub unregister : Text → List Registration → List Registration
unregister name routes = keep (λ route. not (text_eq route.name name)) routes

module _ (platform : Platform) where
  -- The loop over the segments of a route.
  unfoldable pub match_segments : List Text → List Text → Params → Option Params
  match_segments [] [] params = some params
  match_segments (p ∷ pattern) (v ∷ values) params =
      if starts_with p (text ":")
      then elim (platform.decode v) [
        | none ↦ none
        | some value ↦ match_segments pattern values (put (drop 1 p) value params)
      ]
      else if text_eq p v
      then match_segments pattern values params
      else none
  match_segments [] (v ∷ values) params = none
  match_segments (p ∷ pattern) [] params = none

  unfoldable pub first_match : List Registration → List Text → Params → Route
  first_match [] values query = empty_route
  first_match (r ∷ routes) values query =
      let later = first_match routes values query in
      if length values == length r.segments
      then elim (match_segments r.segments values (from_entries [] query)) [
        | none ↦ later
        | some params ↦
            if r.validate params then record { name = r.name; params = params } else later
      ]
      else later

  -- `resolve`.
  unfoldable pub resolve : List Registration → Text → Route
  resolve routes hash =
      let (path, query) = split_hash hash in
      first_match routes (segments_of path) (platform.parse_query query)

  -- The segments of a path, and what is left for the query; `none` for a missing parameter.
  unfoldable pub print_segments : List Text → Params → Params → Option (List Text × Params)
  print_segments [] params query = some ([], query)
  print_segments (p ∷ pattern) params query =
      if starts_with p (text ":")
      then elim (get (drop 1 p) params) [
        | none ↦ none
        | some value ↦ elim (platform.encode value) [
          | none ↦ none
          | some encoded ↦
              elim (print_segments pattern params
                (keep (λ e. not (text_eq e.0 (drop 1 p))) query)) [
                  | none ↦ none
                  | some (path, rest) ↦ some (encoded ∷ path, rest)
                ]
        ]
      ]
      else elim (print_segments pattern params query) [
        | none ↦ none
        | some (path, rest) ↦ some (p ∷ path, rest)
      ]

  abbrev pub with_query : List Text → Params → Text
  with_query path [] = text "#/" ++ join (text "/") path
  with_query path (e ∷ query) =
      text "#/" ++ join (text "/") path ++ text "?" ++ platform.print_query (e ∷ query)

  -- `hash`; `none` for what it throws.
  unfoldable pub hash_of : List Registration → Text → Params → Option Text
  hash_of [] name params = none
  hash_of (r ∷ routes) name params =
      if text_eq r.name name
      then elim (print_segments r.segments params params) [
        | none ↦ none
        | some (path, query) ↦ some (with_query path query)
      ]
      else hash_of routes name params
