-- ===== src/Cache/Details.antt =====
-- session-cache.ts: the details that are loaded and the ones that are read.
use reins.Base.{◌≡◌, refl, ap, ◌∙◌, Option, none, some, List, Text}
use reins.Cache.Sessions.{Session, written, patched}
use reins.Cache.Operations.{shown, set, Detail, get_detail, patch_of, whole}
use reins.Cache.Mirror.{get-put}

-- The type of the runtime that is known, of an answer and of what was cached.
abbrev pub known : Option Text → Option Text → Option Text
known none cached = cached
known (some t) cached = some t

written-known :
    (answered cached : Option Text)
    → written cached (elim answered [ none ↦ none | some t ↦ some (some t) ])
      ≡ known answered cached
written-known none cached = refl
written-known (some t) cached = refl

-- The details that `_loadDetail` caches are what `getDetail` gives, whatever was cached; only a type of
-- the runtime that the answer does not say stays the one that was cached.
pub get_detail-set :
    (d : Detail) (entries : List Session)
    → get_detail d.id (set d.id (patch_of d) entries).0
      ≡ some (record d { runtime_type = known d.runtime_type (shown entries d.id).runtime_type })
unfolding get_detail set patched
get_detail-set d entries =
    ap (λ o. elim o as (λ _. Option Detail) [ none ↦ none | some s ↦ whole s ])
      (get-put (patched (shown entries d.id) (patch_of d) d.id) entries)
    ∙ ap (λ t. some (record d { runtime_type = t }))
        (written-known d.runtime_type (shown entries d.id).runtime_type)
