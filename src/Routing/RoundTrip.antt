-- ===== src/Routing/RoundTrip.antt =====
-- router.ts and app-router.ts: a hash of the app resolves to the page that it was made for.
use reins.Base.{
  has, ◌≡◌, refl, ◌∙◌, true, false, Option, none, some, List, [], ◌∷◌, Text, text, join, All, Bool,
  not, leb, ◌&&◌,
}
use reins.Routing.Router.{
  Params, Platform, Route, Registration, is_present, resolve, first_match, with_query,
  match_segments, print_segments, hash_of, put, get, from_entries,
}
use reins.Routing.AppRoutes.{
  app_routes, parse_hash, session_hash, new_session_hash, project_history_hash, settings_hash,
  settings_extension_hash, settings_extension_details_hash, is_id, is_settings_section,
  is_extension_name, is_new_session,
}
use reins.Routing.Splitting.{
  IsSegment, has-join, segments_of-join, split_hash-path, split_hash-query,
}

-- A text of UTF-16 code units without a lone surrogate; `after_high` says that a high one came last.
abbrev is_well_formed_after : (after_high : Bool) → Text → Bool
is_well_formed_after after_high [] = not after_high
is_well_formed_after true (c ∷ t) = leb 56320 c && (leb c 57343 && is_well_formed_after false t)
is_well_formed_after false (c ∷ t) =
    not (leb 56320 c && leb c 57343) && is_well_formed_after (leb 55296 c && leb c 56319) t

abbrev pub is_well_formed : Text → Bool
is_well_formed t = is_well_formed_after false t

abbrev pub are_well_formed : Params → Bool
are_well_formed [] = true
are_well_formed ((k, v) ∷ q) = is_well_formed k && (is_well_formed v && are_well_formed q)

-- A text is encoded, decoded again, and the characters that separate the parts of a hash are escaped.
pub record Encoded (platform : Platform) (t : Text) : Type 0 where
  pub code : Text
  pub encoded : platform.encode t ≡ some code
  pub decoded : platform.decode code ≡ some t
  pub stays_present : is_present t ≡ true → is_present code ≡ true
  pub slash : has b'/' code ≡ false
  pub question : has b'?' code ≡ false

-- What the platform documents of its codings, of well-formed texts: each is undone by its inverse.
pub record IsCodec (platform : Platform) : Type 0 where
  pub encodes : (t : Text) → is_well_formed t ≡ true → Encoded platform t
  pub parse_query-print_query :
      (q : Params) → are_well_formed q ≡ true → platform.parse_query (platform.print_query q) ≡ q
  pub parse_query-nil : platform.parse_query [] ≡ []
  pub print_query-question : (q : Params) → has b'?' (platform.print_query q) ≡ false

-- A segment that survives both splits.
abbrev pub IsPlain : Text → Type 0
IsPlain t = IsSegment t × (has b'?' t ≡ false)

All-IsSegment : (ts : List Text) → All IsPlain ts → All IsSegment ts
All-IsSegment [] h = tt
All-IsSegment (t ∷ ts) h = (h.0.0, All-IsSegment ts h.1)

All-question : (ts : List Text) → All IsPlain ts → All (λ t. has b'?' t ≡ false) ts
All-question [] h = tt
All-question (t ∷ ts) h = (h.0.1, All-question ts h.1)

module _ (platform : Platform) (codec : IsCodec platform) where
  encode-IsPlain : (t : Text) (e : Encoded platform t) → is_present t ≡ true → IsPlain e.code
  encode-IsPlain t e h = ((e.stays_present h, e.slash), e.question)

  -- A printed hash is matched by its segments and its query.
  resolve-with_query :
      (routes : List Registration) (path : List Text) (query : Params)
      → are_well_formed query ≡ true
      → All IsPlain path
      → resolve platform routes (with_query platform path query)
        ≡ first_match platform routes path query
  unfolding resolve
  resolve-with_query routes path [] q h =
      rw
        (
          split_hash-path (join (text "/") path) (has-join path (All-question path h)),
          segments_of-join path (All-IsSegment path h),
          codec.parse_query-nil,
        )
        refl
  resolve-with_query routes path (e ∷ query) q h =
      rw
        (
          split_hash-query (join (text "/") path) (platform.print_query (e ∷ query))
              (has-join path (All-question path h)) (codec.print_query-question (e ∷ query)),
          segments_of-join path (All-IsSegment path h),
          codec.parse_query-print_query (e ∷ query) q,
        )
        refl

-- The pages that the app makes hashes of.
pub data Page : Type 0 where
  session : Text → Page
  new_session : Page
  new_session_in : Text → Page
  new_session_of : Text → Text → Page
  project_history : Text → Page
  settings : Page
  settings_section : Text → Page
  settings_extension : Text → Page
  settings_extension_details : Text → Page

-- Their parameters are well-formed texts: a session has an id, the ids of projects and tasks are
-- numbers, a section is one that the app knows, and an extension has the name of one.
abbrev pub IsValid : Page → Type 0
IsValid (session id) = (is_present id ≡ true) × (is_well_formed id ≡ true)
IsValid new_session = Unit
IsValid (new_session_in project) = (is_id project ≡ true) × (is_well_formed project ≡ true)
IsValid (new_session_of project task) =
    (is_id project ≡ true)
    × (is_well_formed project ≡ true)
    × (is_id task ≡ true)
    × (is_well_formed task ≡ true)
IsValid (project_history project) = (is_id project ≡ true) × (is_well_formed project ≡ true)
IsValid settings = Unit
IsValid (settings_section section) =
    (is_settings_section section ≡ true) × (is_well_formed section ≡ true)
IsValid (settings_extension extension) =
    (is_extension_name extension ≡ true) × (is_well_formed extension ≡ true)
IsValid (settings_extension_details extension) =
    (is_extension_name extension ≡ true) × (is_well_formed extension ≡ true)

unfoldable pub hash_for : Platform → Page → Option Text
hash_for platform (session id) = session_hash platform id
hash_for platform new_session = new_session_hash platform none none
hash_for platform (new_session_in project) = new_session_hash platform (some project) none
hash_for platform (new_session_of project task) =
    new_session_hash platform (some project) (some task)
hash_for platform (project_history project) = project_history_hash platform project
hash_for platform settings = settings_hash platform none
hash_for platform (settings_section section) = settings_hash platform (some section)
hash_for platform (settings_extension extension) = settings_extension_hash platform extension
hash_for platform (settings_extension_details extension) =
    settings_extension_details_hash platform extension

unfoldable pub route_for : Page → Route
route_for (session id) = record { name = text "session"; params = (text "sessionId", id) ∷ [] }
route_for new_session = record { name = text "new-session"; params = [] }
route_for (new_session_in project) = record {
  name = text "new-session";
  params = (text "project", project) ∷ [];
}
route_for (new_session_of project task) = record {
  name = text "new-session";
  params = (text "project", project) ∷ (text "task", task) ∷ [];
}
route_for (project_history project) = record {
  name = text "project-history";
  params = (text "projectId", project) ∷ [];
}
route_for settings = record { name = text "settings"; params = [] }
route_for (settings_section section) = record {
  name = text "settings-section";
  params = (text "section", section) ∷ [];
}
route_for (settings_extension extension) = record {
  name = text "settings-extension";
  params = (text "extension", extension) ∷ [];
}
route_for (settings_extension_details extension) = record {
  name = text "settings-extension-details";
  params = (text "extension", extension) ∷ [];
}

is_present-of_is_id : (t : Text) → is_id t ≡ true → is_present t ≡ true
is_present-of_is_id [] h = h
is_present-of_is_id (c ∷ t) h = refl

is_present-of_is_extension_name : (t : Text) → is_extension_name t ≡ true → is_present t ≡ true
is_present-of_is_extension_name [] h = h
is_present-of_is_extension_name (c ∷ t) h = refl

is_present-of_is_settings_section : (t : Text) → is_settings_section t ≡ true → is_present t ≡ true
is_present-of_is_settings_section [] h = h
is_present-of_is_settings_section (c ∷ t) h = refl

-- A page resolves as its path and query do.
by_path :
    (platform : Platform) (page : Page) (path : List Text) (query : Params)
    → IsCodec platform
    → are_well_formed query ≡ true
    → hash_for platform page ≡ some (with_query platform path query)
    → All IsPlain path
    → first_match platform app_routes path query ≡ route_for page
    → (hash : Text) × ((hash_for platform page ≡ some hash)
        × (parse_hash platform hash ≡ route_for page))
unfolding parse_hash
by_path platform page path query codec formed printed plain matched = (
  with_query platform path query,
  (printed, resolve-with_query platform codec app_routes path query formed plain ∙ matched),
)

-- A literal segment.
abbrev plain :
    (t : Text) → is_present t ≡ true → has b'/' t ≡ false → has b'?' t ≡ false → IsPlain t
plain t h k l = ((h, k), l)

-- On a platform whose codings undo each other on well-formed texts and escape `/` and `?`, each valid
-- page has a hash, and the hash resolves to the page's route with the page's parameters. A page is
-- valid if its parameters are well-formed texts, a session's id is not empty, the ids of a project and
-- a task are numbers, and a section or an extension is one by the app's tests.
pub hash_for-parse_hash :
    (platform : Platform) (page : Page)
    → IsCodec platform
    → IsValid page
    → (hash : Text) × ((hash_for platform page ≡ some hash)
        × (parse_hash platform hash ≡ route_for page))
unfolding hash_for route_for session_hash new_session_hash project_history_hash settings_hash
    settings_extension_hash settings_extension_details_hash hash_of print_segments get put
    match_segments first_match from_entries is_new_session
hash_for-parse_hash platform (session id) codec valid =
    let e = codec.encodes id valid.1 in
    by_path platform (session id) (text "session" ∷ e.code ∷ []) [] codec refl (rw e.encoded refl)
      (((refl, refl), refl), (encode-IsPlain platform codec id e valid.0, tt)) (rw e.decoded refl)
hash_for-parse_hash platform new_session codec valid =
    by_path platform new_session (text "new" ∷ []) [] codec refl refl (((refl, refl), refl), tt)
      refl
hash_for-parse_hash platform (new_session_in project) codec valid =
    by_path platform (new_session_in project) (text "new" ∷ []) ((text "project", project) ∷ [])
      codec (rw valid.1 refl) refl (((refl, refl), refl), tt) (rw valid.0 refl)
hash_for-parse_hash platform (new_session_of project task) codec valid =
    by_path platform (new_session_of project task) (text "new" ∷ [])
      ((text "project", project) ∷ (text "task", task) ∷ []) codec (rw (valid.1, valid.3) refl) refl
      (((refl, refl), refl), tt) (rw (valid.0, valid.2) refl)
hash_for-parse_hash platform (project_history project) codec valid =
    let e = codec.encodes project valid.1 in
    by_path platform (project_history project) (text "projects" ∷ e.code ∷ text "history" ∷ []) []
      codec refl (rw e.encoded refl)
      (
        ((refl, refl), refl),
        (
          encode-IsPlain platform codec project e (is_present-of_is_id project valid.0),
          (((refl, refl), refl), tt),
        ),
      )
      (rw (e.decoded, valid.0) refl)
hash_for-parse_hash platform settings codec valid =
    by_path platform settings (text "settings" ∷ []) [] codec refl refl (((refl, refl), refl), tt)
      refl
hash_for-parse_hash platform (settings_section section) codec valid =
    let e = codec.encodes section valid.1 in
    by_path platform (settings_section section) (text "settings" ∷ e.code ∷ []) [] codec refl
      (rw e.encoded refl)
      (
        ((refl, refl), refl),
        (
          encode-IsPlain platform codec section e
              (is_present-of_is_settings_section section valid.0),
          tt,
        ),
      )
      (rw (e.decoded, valid.0) refl)
hash_for-parse_hash platform (settings_extension extension) codec valid =
    let e = codec.encodes extension valid.1 in
    by_path platform (settings_extension extension)
      (text "settings" ∷ text "extensions" ∷ e.code ∷ []) [] codec refl (rw e.encoded refl)
      (
        ((refl, refl), refl),
        (
          ((refl, refl), refl),
          (
            encode-IsPlain platform codec extension e
                (is_present-of_is_extension_name extension valid.0),
            tt,
          ),
        ),
      )
      (rw (e.decoded, valid.0) refl)
hash_for-parse_hash platform (settings_extension_details extension) codec valid =
    let e = codec.encodes extension valid.1 in
    by_path platform (settings_extension_details extension)
      (text "settings" ∷ text "extensions" ∷ e.code ∷ text "details" ∷ []) [] codec refl
      (rw e.encoded refl)
      (
        ((refl, refl), refl),
        (
          ((refl, refl), refl),
          (
            encode-IsPlain platform codec extension e
                (is_present-of_is_extension_name extension valid.0),
            (((refl, refl), refl), tt),
          ),
        ),
      )
      (rw (e.decoded, valid.0) refl)
