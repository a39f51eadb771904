-- ===== src/Routing/Tests.antt =====
-- router.ts and app-router.ts: a session, a new session of a task and a page that is none.
use reins.Base.{
  has, split_at, ℕ, ◌+◌, ◌-◌, ◌≡◌, refl, sym, ap, ◌∙◌, true, false, none, some, [], ◌∷◌, ◌++◌,
  append_assoc, append-nil, Text, text, map, ◌==◌, if◌then◌else◌, arith, ◌⊎◌, inl, inr,
}
use reins.Routing.Router.{
  Params, Platform, empty_route, put, get, from_entries, segments_of, split_hash, register,
  unregister, match_segments, first_match, resolve, print_segments, hash_of, is_present,
}
use reins.Routing.AppRoutes.{app_routes, is_new_session, parse_hash, session_hash, new_session_hash}
use reins.Routing.RoundTrip.{
  IsCodec, session, new_session_of, is_well_formed, hash_for, route_for, hash_for-parse_hash,
}

run_router : Unit {0}
unfolding put get from_entries split_at segments_of split_hash register unregister match_segments
    first_match resolve print_segments hash_of is_new_session parse_hash session_hash
    new_session_hash hash_for route_for
run_router = tt

abbrev shifted : Text → Text
shifted t = map (λ c. c + 100) t

abbrev restored : Text → Text
restored t = map (λ c. c - 100) t

-- Each name ends with a 1 and each value with a 2.
abbrev printed : Params → Text
printed [] = []
printed ((k, v) ∷ ps) = shifted k ++ (1 ∷ (shifted v ++ (2 ∷ printed ps)))

abbrev parsed : Text → Text → Text → Params
parsed key part [] = []
parsed key part (c ∷ t) =
    let named = parsed part [] t in
    let ended = (key, part) ∷ parsed [] [] t in
    let longer = parsed key (part ++ (c - 100) ∷ []) t in
    if c == 1 then named else if c == 2 then ended else longer

abbrev platform : Platform
platform = record {
  encode = λ t. if is_well_formed t then some (shifted t) else none;
  decode = λ t. some (restored t);
  print_query = printed;
  parse_query = parsed [] [];
}

restored-shifted : (t : Text) → restored (shifted t) ≡ t
restored-shifted [] = refl
restored-shifted (c ∷ t) = ground (arith, restored-shifted t)

has-shifted : (c : ℕ) (t rest : Text) → (c ≡ 47) ⊎ (c ≡ 63) → has c (shifted t ++ rest) ≡ has c rest
has-shifted c [] rest h = refl
has-shifted c (d ∷ t) rest h = ground (arith, h, has-shifted c t rest h)

parsed-shifted :
    (key part t rest : Text) → parsed key part (shifted t ++ rest) ≡ parsed key (part ++ t) rest
parsed-shifted key part [] rest = ap (λ p. parsed key p rest) (sym (append-nil part))
parsed-shifted key part (c ∷ t) rest =
    ground (arith, parsed-shifted key (part ++ c ∷ []) t rest, append_assoc part (c ∷ []) t)

parsed-printed : (q : Params) → parsed [] [] (printed q) ≡ q
parsed-printed [] = refl
parsed-printed ((k, v) ∷ q) =
    parsed-shifted [] [] k (1 ∷ (shifted v ++ (2 ∷ printed q)))
    ∙ parsed-shifted k [] v (2 ∷ printed q)
    ∙ ap (λ ps. (k, v) ∷ ps) (parsed-printed q)

has-printed : (q : Params) → has 63 (printed q) ≡ false
has-printed [] = refl
has-printed ((k, v) ∷ q) = ground (
  arith,
  has-shifted 63 k (1 ∷ (shifted v ++ (2 ∷ printed q))) (inr refl),
  has-shifted 63 v (2 ∷ printed q) (inr refl),
  has-printed q,
)

shifted-is_present : (t : Text) → is_present t ≡ true → is_present (shifted t) ≡ true
shifted-is_present [] h = h
shifted-is_present (c ∷ t) h = refl

has-encode : (c : ℕ) (t : Text) → (c ≡ 47) ⊎ (c ≡ 63) → has c (shifted t) ≡ false
has-encode c t h = ground (arith, has-shifted c t [] h, append-nil (shifted t))

platform-IsCodec : IsCodec platform
platform-IsCodec = record {
  encodes = λ t h. record {
    code = shifted t;
    encoded = rw h refl;
    decoded = ap some (restored-shifted t);
    stays_present = shifted-is_present t;
    slash = has-encode 47 t (inl refl);
    question = has-encode 63 t (inr refl);
  };
  parse_query-print_query = λ q h. parsed-printed q;
  parse_query-nil = refl;
  print_query-question = has-printed;
}

resolves_nothing : parse_hash platform (text "#/settings/other") ≡ empty_route
unfolding put get from_entries split_at segments_of split_hash match_segments first_match resolve
    parse_hash
resolves_nothing = refl

registers_once :
    register (record { name = text "session"; segments = []; validate = λ params. true }) app_routes
    ≡ none
unfolding register
registers_once = refl

hash_for-parse_hash_example :
    (hash : Text) × ((hash_for platform (new_session_of (text "12") (text "7")) ≡ some hash)
      × (parse_hash platform hash ≡ route_for (new_session_of (text "12") (text "7"))))
hash_for-parse_hash_example =
    hash_for-parse_hash platform (new_session_of (text "12") (text "7")) platform-IsCodec
      (refl, refl, refl, refl)

-- A lone surrogate has no hash, a pair of surrogates has one.
surrogates :
    (hash_for platform (session (55296 ∷ [])) ≡ none) × (is_well_formed (55357 ∷ 56832 ∷ []) ≡ true)
unfolding run_router
surrogates = (refl, refl)
