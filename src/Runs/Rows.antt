-- ===== src/Runs/Rows.antt =====
-- session-runs.ts: the rows after an update.
use reins.Base.{
  text_eq_sym, ◌≡◌, refl, false, some, List, [], ◌∷◌, Text, text_eq, text_eq→eq, arith, Bool-cases,
  inl, inr,
}
use reins.Runs.Store.{Row, get_session, update}

pub get_session-update :
    (id : Text) (change : Row → Row) (rows : List Row) (r : Row)
    → ((x : Row) → (change x).id ≡ x.id)
    → get_session id rows ≡ some r
    → get_session id (update id change rows) ≡ some (change r)
unfolding get_session update
get_session-update id change [] r keeps h = absurd (ground (arith, h))
get_session-update id change (x ∷ rows) r keeps h =
    ground (arith, h, keeps x, get_session-update id change rows r keeps)

pub get_session-update_other :
    (other id : Text) (change : Row → Row) (rows : List Row)
    → ((x : Row) → (change x).id ≡ x.id)
    → text_eq other id ≡ false
    → get_session other (update id change rows) ≡ get_session other rows
unfolding get_session update
get_session-update_other other id change [] keeps h = refl
get_session-update_other other id change (x ∷ rows) keeps h = elim (Bool-cases (text_eq x.id id)) [
  | inl q ↦ ground (arith, q, h, keeps x, text_eq→eq x.id id q, text_eq_sym other id)
  | inr q ↦ ground (arith, q, h, get_session-update_other other id change rows keeps h)
]
