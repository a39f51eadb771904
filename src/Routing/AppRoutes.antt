-- ===== src/Routing/AppRoutes.antt =====
-- app-router.ts: the routes of the app and the hashes that it makes. Ids are their texts.
use reins.Base.{
  ℕ, Bool, true, false, not, ◌&&◌, ◌||◌, Option, none, some, List, [], ◌∷◌, Text, text, text_eq,
  any, leb,
}
use reins.Routing.Router.{Params, Platform, Route, Registration, get, resolve, hash_of, is_present}

abbrev pub settings_sections : List Text
settings_sections = text "models" ∷ text "nodes" ∷ text "sidebar" ∷ text "extensions" ∷ []

abbrev pub is_settings_section : Text → Bool
is_settings_section value = any (text_eq value) settings_sections

abbrev pub is_lower : ℕ → Bool
is_lower c = leb b'a' c && leb c b'z'

abbrev pub is_digit : ℕ → Bool
is_digit c = leb b'0' c && leb c b'9'

abbrev pub all_of : (ℕ → Bool) → Text → Bool
all_of p t = not (any (λ c. not (p c)) t)

-- `EXTENSION_NAME`.
abbrev pub is_extension_name : Text → Bool
is_extension_name [] = false
is_extension_name (c ∷ cs) =
    is_lower c && all_of (λ d. is_lower d || is_digit d || text_eq (d ∷ []) (text "-")) cs

-- `ID`.
abbrev pub is_id : Text → Bool
is_id t = is_present t && all_of is_digit t

abbrev pub or_empty : Option Text → Text
or_empty none = []
or_empty (some t) = t

-- A task is of a project, so it is chosen only with one.
unfoldable pub is_new_session : Params → Bool
is_new_session params = elim (get (text "project") params) [
  | none ↦ elim (get (text "task") params) [ none ↦ true | some t ↦ false ]
  | some p ↦ is_id p && elim (get (text "task") params) [ none ↦ true | some t ↦ is_id t ]
]

abbrev pub anything : Params → Bool
anything params = true

abbrev pub extension_given : Params → Bool
extension_given params = is_extension_name (or_empty (get (text "extension") params))

-- `createAppRouter`.
abbrev pub app_routes : List Registration
app_routes =
    record { name = text "empty"; segments = []; validate = anything }
    ∷ record {
      name = text "session";
      segments = text "session" ∷ text ":sessionId" ∷ [];
      validate = anything;
    }
    ∷ record { name = text "new-session"; segments = text "new" ∷ []; validate = is_new_session }
    ∷ record {
      name = text "project-history";
      segments = text "projects" ∷ text ":projectId" ∷ text "history" ∷ [];
      validate = λ params. is_id (or_empty (get (text "projectId") params));
    }
    ∷ record { name = text "settings"; segments = text "settings" ∷ []; validate = anything }
    ∷ record {
      name = text "settings-section";
      segments = text "settings" ∷ text ":section" ∷ [];
      validate = λ params. is_settings_section (or_empty (get (text "section") params));
    }
    ∷ record {
      name = text "settings-extension";
      segments = text "settings" ∷ text "extensions" ∷ text ":extension" ∷ [];
      validate = extension_given;
    }
    ∷ record {
      name = text "settings-extension-details";
      segments = text "settings" ∷ text "extensions" ∷ text ":extension" ∷ text "details" ∷ [];
      validate = extension_given;
    }
    ∷ []

module _ (platform : Platform) where
  unfoldable pub parse_hash : Text → Route
  parse_hash hash = resolve platform app_routes hash

  unfoldable pub session_hash : Text → Option Text
  session_hash session_id =
      hash_of platform app_routes (text "session") ((text "sessionId", session_id) ∷ [])

  -- `newSessionHash`: a task is named only with its project.
  unfoldable pub new_session_hash : Option Text → Option Text → Option Text
  new_session_hash none task = hash_of platform app_routes (text "new-session") []
  new_session_hash (some project) none =
      hash_of platform app_routes (text "new-session") ((text "project", project) ∷ [])
  new_session_hash (some project) (some task) =
      hash_of platform app_routes (text "new-session")
        ((text "project", project) ∷ (text "task", task) ∷ [])

  unfoldable pub project_history_hash : Text → Option Text
  project_history_hash project_id =
      hash_of platform app_routes (text "project-history") ((text "projectId", project_id) ∷ [])

  unfoldable pub settings_hash : Option Text → Option Text
  settings_hash none = hash_of platform app_routes (text "settings") []
  settings_hash (some section) =
      hash_of platform app_routes (text "settings-section") ((text "section", section) ∷ [])

  unfoldable pub settings_extension_hash : Text → Option Text
  settings_extension_hash extension =
      hash_of platform app_routes (text "settings-extension") ((text "extension", extension) ∷ [])

  unfoldable pub settings_extension_details_hash : Text → Option Text
  settings_extension_details_hash extension =
      hash_of platform app_routes (text "settings-extension-details")
        ((text "extension", extension) ∷ [])
