-- ===== src/Runs/Budget.antt =====
-- session-runs.ts: how often a session's interrupted runs are resumed.
use reins.Base.{
  text_eq_sym, ℕ, ◌+◌, ◌≤◌, ◌<◌, ◌≡◌, inl, inr, refl, sym, ap, ◌∙◌, subst, Bool, false, ◌&&◌, none,
  some, Bool-cases, List, [], ◌∷◌, Text, text_eq, text_eq→eq, keep, count, count-append,
  count-keep-le, length, ltb, leb, if◌then◌else◌, if_ind, arith,
}
use reins.Runs.Store.{
  Row, auto_resume_limit, auto_resume_window_ms, is_recent, times_of, take_from, take_auto_resume,
  get_session,
}
use reins.Runs.Rows.{get_session-update, get_session-update_other}

-- A time of the window that begins at `from`.
abbrev pub is_within : ℕ → ℕ → Bool
is_within from time = leb from time && ltb time (from + auto_resume_window_ms)

-- The times at which a resume was allowed, of the calls at the given times.
abbrev allowed_of : List ℕ → List ℕ → List ℕ
allowed_of times [] = []
allowed_of times (now ∷ nows) =
    let (kept, allowed) = take_from now times in
    let later = allowed_of kept nows in if allowed then now ∷ later else later

abbrev IsLater : ℕ → List ℕ → Type 0
IsLater now [] = Unit
IsLater now (t ∷ ts) = (now ≤ t) × IsLater t ts

IsLater-mono : (m n : ℕ) (ts : List ℕ) → m ≤ n → IsLater n ts → IsLater m ts
IsLater-mono m n [] h k = tt
IsLater-mono m n (t ∷ ts) h k = (omega (arith, h, k.0), k.1)

-- No call of a window comes after one behind it.
count-late :
    (from now : ℕ) (times nows : List ℕ)
    → from + auto_resume_window_ms ≤ now
    → IsLater now nows
    → count (is_within from) (allowed_of times nows) ≡ 0
count-late from now times [] h k = refl
count-late from now times (t ∷ nows) h k =
    ground (arith, h, k.0, count-late from t (take_from t times).0 nows (omega (arith, h, k.0)) k.1)

-- Of a window that reaches behind `now`, the times of the past are recent.
count-recent :
    (from now : ℕ) (times : List ℕ)
    → now < from + auto_resume_window_ms
    → count (is_within from) times ≤ count (is_within from) (keep (is_recent now) times)
count-recent from now [] h = omega arith
count-recent from now (t ∷ times) h = ground (arith, h, count-recent from now times h)

count-length : (p : ℕ → Bool) (ts : List ℕ) → count p ts ≤ length ts
count-length p [] = omega arith
count-length p (t ∷ ts) = ground (arith, count-length p ts)

take_from-within :
    (times : List ℕ) (now from : ℕ)
    → count (is_within from) times ≤ auto_resume_limit
    → count (is_within from) (take_from now times).0 ≤ auto_resume_limit
unfolding take_from
take_from-within times now from h =
    let recent : List ℕ = keep (is_recent now) times in
    ground (
      arith,
      h,
      count-append (is_within from) recent (now ∷ []),
      count-length (is_within from) recent,
      count-length (is_within from) (now ∷ []),
      count-keep-le (is_within from) (is_recent now) times,
    )

-- What a call adds to a window that reaches behind it is kept for the calls after it.
take_from-counted :
    (times nows : List ℕ) (now from : ℕ)
    → now < from + auto_resume_window_ms
    → count (is_within from) times + count (is_within from) (allowed_of times (now ∷ nows))
      ≤ count (is_within from) (take_from now times).0
        + count (is_within from) (allowed_of (take_from now times).0 nows)
unfolding take_from
take_from-counted times nows now from h =
    let recent : List ℕ = keep (is_recent now) times in
    elim (Bool-cases (ltb (length recent) auto_resume_limit)) [
      | inl q ↦ ground (
        arith,
        q,
        h,
        count-recent from now times h,
        count-append (is_within from) recent (now ∷ []),
      )
      | inr q ↦ ground (arith, q, h, count-recent from now times h)
    ]

-- With at most three times in every window so far, no window gets a fourth.
count-allowed_of :
    (times nows : List ℕ) (now : ℕ)
    → IsLater now nows
    → ((from : ℕ) → count (is_within from) times ≤ auto_resume_limit)
    → (from : ℕ)
    → count (is_within from) times + count (is_within from) (allowed_of times nows)
      ≤ auto_resume_limit
count-allowed_of times [] now h k from = omega (arith, k from)
count-allowed_of times (t ∷ nows) now h k from =
    elim (Bool-cases (leb (from + auto_resume_window_ms) t)) [
      | inl q ↦
          omega (
            arith,
            k from,
            count-late from t times (t ∷ nows) (ground (arith, q)) (omega arith, h.1),
          )
      | inr q ↦ omega (
        arith,
        take_from-counted times nows t from (ground (arith, q)),
        count-allowed_of (take_from t times).0 nows t h.1 (λ f. take_from-within times t f (k f))
            from,
      )
    ]

-- The calls of `takeAutoResume`, each with its session and its time, that are allowed.
unfoldable pub take_calls : List (Text × ℕ) → List Row → List (Text × ℕ)
take_calls [] rows = []
take_calls ((id, now) ∷ calls) rows =
    let (next, allowed) = take_auto_resume id now rows in
    let later = take_calls calls next in if allowed then (id, now) ∷ later else later

-- The times of the calls of a session.
abbrev times_in : Text → List (Text × ℕ) → List ℕ
times_in id [] = []
times_in id ((k, now) ∷ calls) = if text_eq k id then now ∷ times_in id calls else times_in id calls

-- The clock does not go back.
abbrev pub IsOrdered : ℕ → List (Text × ℕ) → Type 0
IsOrdered now [] = Unit
IsOrdered now ((id, t) ∷ calls) = (now ≤ t) × IsOrdered t calls

IsOrdered-IsLater :
    (id : Text) (now : ℕ) (calls : List (Text × ℕ))
    → IsOrdered now calls
    → IsLater now (times_in id calls)
IsOrdered-IsLater id now [] h = tt
IsOrdered-IsLater id now ((k, t) ∷ calls) h =
    if_ind (λ ts. IsLater now ts) (text_eq k id) (λ yes. (h.0, IsOrdered-IsLater id t calls h.1))
      (λ no. IsLater-mono now t (times_in id calls) h.0 (IsOrdered-IsLater id t calls h.1))

take_auto_resume-session :
    (id : Text) (now : ℕ) (rows : List Row) (r : Row)
    → get_session id rows ≡ some r
    → ((take_auto_resume id now rows).1 ≡ (take_from now (times_of r.auto_resumes)).1)
      × (get_session id (take_auto_resume id now rows).0
          ≡ some (record r { auto_resumes = some (take_from now (times_of r.auto_resumes)).0 }))
unfolding take_auto_resume
take_auto_resume-session id now rows r h =
    let times : List ℕ = elim (get_session id rows) [
      | none ↦ []
      | some x ↦ times_of x.auto_resumes
    ] in
    let e : times ≡ times_of r.auto_resumes = rw (h) refl in
    (
      ap (λ ts. (take_from now ts).1) e,
      get_session-update id (λ x. record x { auto_resumes = some (take_from now times).0 }) rows r
            (λ x. refl) h
          ∙ ap (λ ts. some (record r { auto_resumes = some (take_from now ts).0 })) e,
    )

take_of_same :
    (id k : Text) (now : ℕ) (rows : List Row) (r : Row)
    → k ≡ id
    → get_session id rows ≡ some r
    → (take_auto_resume k now rows).1 ≡ (take_from now (times_of r.auto_resumes)).1
take_of_same id k now rows r e h =
    subst (λ x. (take_auto_resume x now rows).1 ≡ (take_from now (times_of r.auto_resumes)).1)
      (sym e) (take_auto_resume-session id now rows r h).0

got_of_same :
    (id k : Text) (now : ℕ) (rows : List Row) (r : Row)
    → k ≡ id
    → get_session id rows ≡ some r
    → get_session id (take_auto_resume k now rows).0
      ≡ some (record r { auto_resumes = some (take_from now (times_of r.auto_resumes)).0 })
got_of_same id k now rows r e h =
    subst
      (λ x.
        get_session id (take_auto_resume x now rows).0
        ≡ some (record r { auto_resumes = some (take_from now (times_of r.auto_resumes)).0 }))
      (sym e) (take_auto_resume-session id now rows r h).1

take_auto_resume-other :
    (id other : Text) (now : ℕ) (rows : List Row)
    → text_eq other id ≡ false
    → get_session other (take_auto_resume id now rows).0 ≡ get_session other rows
unfolding take_auto_resume
take_auto_resume-other id other now rows h =
    let times : List ℕ = elim (get_session id rows) [
      | none ↦ []
      | some x ↦ times_of x.auto_resumes
    ] in
    get_session-update_other other id
      (λ x. record x { auto_resumes = some (take_from now times).0 }) rows (λ x. refl) h

times_in-take_calls :
    (id : Text) (calls : List (Text × ℕ)) (rows : List Row) (r : Row)
    → get_session id rows ≡ some r
    → times_in id (take_calls calls rows) ≡ allowed_of (times_of r.auto_resumes) (times_in id calls)
unfolding take_calls
times_in-take_calls id [] rows r h = refl
times_in-take_calls id ((k, now) ∷ calls) rows r h =
    let next : List Row = (take_auto_resume k now rows).0 in
    elim (Bool-cases (text_eq k id)) [
      | inl q ↦ ground (
        arith,
        q,
        take_of_same id k now rows r (text_eq→eq k id q) h,
        times_in-take_calls id calls next
            (record r { auto_resumes = some (take_from now (times_of r.auto_resumes)).0 })
            (got_of_same id k now rows r (text_eq→eq k id q) h),
      )
      | inr q ↦ ground (
        arith,
        q,
        times_in-take_calls id calls next r
            (take_auto_resume-other k id now rows (text_eq_sym id k ∙ q) ∙ h),
      )
    ]

count-times_in :
    (id : Text) (p : ℕ → Bool) (calls : List (Text × ℕ))
    → count (λ c. text_eq c.0 id && p c.1) calls ≡ count p (times_in id calls)
count-times_in id p [] = refl
count-times_in id p ((k, now) ∷ calls) = ground (arith, count-times_in id p calls)

-- In every window of ten minutes at most three resumes of a session are allowed, however many times
-- and for whatever sessions the budget is asked: the clock does not go back, and the session has a row
-- and was not resumed before.
pub take_calls-within :
    (calls : List (Text × ℕ)) (rows : List Row) (id : Text) (r : Row) (start from : ℕ)
    → IsOrdered start calls
    → get_session id rows ≡ some r
    → r.auto_resumes ≡ none
    → count (λ c. text_eq c.0 id && is_within from c.1) (take_calls calls rows) ≤ auto_resume_limit
take_calls-within calls rows id r start from h k e = omega (
  arith,
  count-times_in id (is_within from) (take_calls calls rows),
  ap (count (is_within from)) (
      times_in-take_calls id calls rows r k
      ∙ ap (λ o. allowed_of (times_of o) (times_in id calls)) e),
  count-allowed_of [] (times_in id calls) start (IsOrdered-IsLater id start calls h)
      (λ f. omega arith) from,
)
