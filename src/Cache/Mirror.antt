-- ===== src/Cache/Mirror.antt =====
-- session-cache.ts: a listener that reads the sessions it is notified of knows the cache.
use reins.Base.{
  text_eq_sym, ◌≡◌, ◌⊎◌, inl, inr, refl, sym, ap, ◌∙◌, subst, true, false, Option, none, some,
  Option-cases, Bool-cases, List, [], ◌∷◌, ◌++◌, Text, text_eq, text_eq→eq, text_eq_refl, any,
  if◌then◌else◌, if_ind, arith,
}
use reins.Cache.Sessions.{Session, Patch, empty_session, patched, session_equals}
use reins.Cache.Operations.{get, put, delete, shown, set, set_many, remove_many}
use reins.Cache.Equality.{session_equals→eq}

pub get-put : (s : Session) (entries : List Session) → get s.id (put s entries) ≡ some s
unfolding get put
get-put s [] = ground (arith, text_eq_refl s.id)
get-put s (e ∷ entries) = ground (arith, text_eq_refl s.id, get-put s entries)

get-put_other :
    (s : Session) (x : Text) (entries : List Session)
    → text_eq s.id x ≡ false
    → get x (put s entries) ≡ get x entries
unfolding get put
get-put_other s x [] h = ground (arith, h)
get-put_other s x (e ∷ entries) h = elim (Bool-cases (text_eq e.id s.id)) [
  | inl q ↦ ground (arith, q, h, text_eq→eq e.id s.id q)
  | inr q ↦ ground (arith, q, get-put_other s x entries h)
]

get-delete_other :
    (session_id x : Text) (entries : List Session)
    → text_eq session_id x ≡ false
    → get x (delete session_id entries) ≡ get x entries
unfolding get delete
get-delete_other session_id x [] h = refl
get-delete_other session_id x (e ∷ entries) h = elim (Bool-cases (text_eq e.id session_id)) [
  | inl q ↦
      ground (arith, q, h, text_eq→eq e.id session_id q, get-delete_other session_id x entries h)
  | inr q ↦ ground (arith, q, get-delete_other session_id x entries h)
]

abbrev shown_of : Text → Option Session → Session
shown_of x none = empty_session x
shown_of x (some s) = s

shown-get : (a b : List Session) (x : Text) → get x a ≡ get x b → shown a x ≡ shown b x
unfolding shown
shown-get a b x h = ap (shown_of x) h

shown-put : (s : Session) (entries : List Session) → shown (put s entries) s.id ≡ s
unfolding shown
shown-put s entries = ap (shown_of s.id) (get-put s entries)

any-append :
    (a b : List Text) (x : Text)
    → (any (text_eq x) a ≡ true) ⊎ (any (text_eq x) b ≡ true)
    → any (text_eq x) (a ++ b) ≡ true
any-append [] b x (inl h) = absurd (ground (arith, h))
any-append [] b x (inr h) = h
any-append (c ∷ a) b x h = ground (arith, h, any-append a b x)

-- The choice of `remove_many` on a look-up.
abbrev removal : Text → List Text → List Session → Option Session → List Session × List Text
removal session_id session_ids entries none = remove_many session_ids entries
removal session_id session_ids entries (some s) =
    let (left, removed) = remove_many session_ids (delete session_id entries) in
    (left, session_id ∷ removed)

-- A session is notified of, or looks as before.
abbrev Silent : List Session → List Session × List Text → Text → Type 0
Silent entries r x = (any (text_eq x) r.1 ≡ true) ⊎ (shown r.0 x ≡ shown entries x)

id-get : (entries : List Session) (x : Text) (s : Session) → get x entries ≡ some s → s.id ≡ x
unfolding get
id-get [] x s h = absurd (ground (arith, h))
id-get (e ∷ entries) x s h = elim (Bool-cases (text_eq e.id x)) [
  | inl q ↦ ground (arith, q, h, text_eq→eq e.id x q)
  | inr q ↦ id-get entries x s (ground (arith, q, h))
]

id-shown : (entries : List Session) (x : Text) → (shown entries x).id ≡ x
unfolding shown
id-shown entries x = elim (Option-cases (get x entries)) [
  | inl q ↦ ap (λ o. (shown_of x o).id) q
  | inr (s, q) ↦ ap (λ o. (shown_of x o).id) q ∙ id-get entries x s q
]

-- What `put` leaves for a session that it takes for equal, or not.
put-Silent :
    (next : Session) (entries : List Session) (x : Text)
    → Silent entries
        (put next entries, if session_equals (shown entries next.id) next then [] else next.id ∷ [])
        x
put-Silent next entries x = elim (Bool-cases (text_eq next.id x)) [
  | inr q ↦ inr (shown-get (put next entries) entries x (get-put_other next x entries q))
  | inl q ↦ elim (Bool-cases (session_equals (shown entries next.id) next)) [
    | inl e ↦ inr (
        subst (λ y. shown (put next entries) y ≡ shown entries y) (text_eq→eq next.id x q)
          (shown-put next entries
            ∙ sym (session_equals→eq (shown entries next.id) next (id-shown entries next.id) e)))
    | inr e ↦ inl (ground (arith, e, q, text_eq_sym next.id x))
  ]
]

set-Silent :
    (session_id : Text) (p : Patch) (entries : List Session) (x : Text)
    → Silent entries (set session_id p entries) x
unfolding set patched
set-Silent session_id p entries x =
    put-Silent (patched (shown entries session_id) p session_id) entries x

-- One step is silent after another where neither changes the session.
Silent-next :
    (entries middle last : List Session) (a b : List Text) (x : Text)
    → Silent entries (middle, a) x
    → Silent middle (last, b) x
    → Silent entries (last, a ++ b) x
Silent-next entries middle last a b x (inl h) k = inl (any-append a b x (inl h))
Silent-next entries middle last a b x (inr h) (inl k) = inl (any-append a b x (inr k))
Silent-next entries middle last a b x (inr h) (inr k) = inr (k ∙ h)

delete-Silent :
    (session_id : Text) (entries : List Session) (x : Text)
    → Silent entries (delete session_id entries, session_id ∷ []) x
delete-Silent session_id entries x = elim (Bool-cases (text_eq session_id x)) [
  | inl q ↦ inl (ground (arith, q, text_eq_sym session_id x))
  | inr q ↦
      inr
        (shown-get (delete session_id entries) entries x (get-delete_other session_id x entries q))
]

remove_many-Silent :
    (session_ids : List Text) (entries : List Session) (x : Text)
    → Silent entries (remove_many session_ids entries) x
unfolding remove_many
remove_many-Silent [] entries x = inr refl
remove_many-Silent (session_id ∷ session_ids) entries x =
    let (left, removed) = remove_many session_ids (delete session_id entries) in
    elim (Option-cases (get session_id entries)) [
      | inl q ↦
          subst (λ o. Silent entries (removal session_id session_ids entries o) x) (sym q)
            (remove_many-Silent session_ids entries x)
      | inr (s, q) ↦
          subst (λ o. Silent entries (removal session_id session_ids entries o) x) (sym q)
            (Silent-next entries (delete session_id entries) left (session_id ∷ []) removed x
              (delete-Silent session_id entries x)
              (remove_many-Silent session_ids (delete session_id entries) x))
    ]

set_many-Silent :
    (sessions : List (Text × Patch)) (entries : List Session) (x : Text)
    → Silent entries (set_many sessions entries) x
unfolding set_many
set_many-Silent [] entries x = inr refl
set_many-Silent ((session_id, p) ∷ sessions) entries x =
    let (one, notified) = set session_id p entries in
    let (all, later) = set_many sessions one in
    Silent-next entries one all notified later x (set-Silent session_id p entries x)
      (set_many-Silent sessions one x)

-- What happens to the cache.
pub data Operation : Type 0 where
  sets : Text → Patch → Operation
  sets_many : List (Text × Patch) → Operation
  removes_many : List Text → Operation

unfoldable pub step : Operation → List Session → List Session × List Text
step (sets session_id p) entries = set session_id p entries
step (sets_many sessions) entries = set_many sessions entries
step (removes_many session_ids) entries = remove_many session_ids entries

step-Silent :
    (op : Operation) (entries : List Session) (x : Text) → Silent entries (step op entries) x
unfolding step
step-Silent (sets session_id p) entries x = set-Silent session_id p entries x
step-Silent (sets_many sessions) entries x = set_many-Silent sessions entries x
step-Silent (removes_many session_ids) entries x = remove_many-Silent session_ids entries x

-- The cache and what a listener shows of it, which reads only the sessions that it is notified of.
unfoldable pub run_all :
    List Operation → List Session → (Text → Session) → List Session × (Text → Session)
run_all [] entries view = (entries, view)
run_all (op ∷ ops) entries view =
    let (next, notified) = step op entries in
    run_all ops next (λ x. if any (text_eq x) notified then shown next x else view x)

refreshed_lem :
    (entries : List Session) (r : List Session × List Text) (x : Text) (before : Session)
    → before ≡ shown entries x
    → Silent entries r x
    → (if any (text_eq x) r.1 then shown r.0 x else before) ≡ shown r.0 x
refreshed_lem entries r x before h (inl k) = ground (arith, k)
refreshed_lem entries r x before h (inr k) =
    if_ind (λ s. s ≡ shown r.0 x) (any (text_eq x) r.1) (λ yes. refl) (λ no. h ∙ sym k)

-- A listener that reads again the sessions it is notified of, and no others, shows every session as the
-- cache has it, whatever is written to the cache and removed; a session that the cache does not have
-- counts as empty.
pub run_all-shown :
    (ops : List Operation) (entries : List Session) (view : Text → Session) (x : Text)
    → ((y : Text) → view y ≡ shown entries y)
    → (run_all ops entries view).1 x ≡ shown (run_all ops entries view).0 x
unfolding run_all
run_all-shown [] entries view x h = h x
run_all-shown (op ∷ ops) entries view x h =
    let (next, notified) = step op entries in
    run_all-shown ops next (λ y. if any (text_eq y) notified then shown next y else view y) x
      (λ y. refreshed_lem entries (next, notified) y (view y) (h y) (step-Silent op entries y))
