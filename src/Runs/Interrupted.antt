-- ===== src/Runs/Interrupted.antt =====
-- session-runs.ts: the runs of a removed node are given up.
use reins.Base.{
  ◌≡◌, refl, ◌∙◌, Bool, true, false, Option, none, any, text_eq, if◌then◌else◌, arith, inl, inr,
  Option-cases, some, List, [], ◌∷◌, Text, keep, All,
}
use reins.Runs.Store.{Row, Pending, Storage, pending_runs, get_session, on_node}
use reins.Runs.Settling.{Effect, Outside}
use reins.Runs.Recovery.{is_left, interrupt_runs_on}
use reins.Runs.Sweep.{IsDistinct, Swept, sweep}

all_same :
    (rows : List Row) (runs : List Pending)
    → All (λ run. get_session run.session_id rows ≡ get_session run.session_id rows) runs
all_same rows [] = tt
all_same rows (run ∷ runs) = (refl, all_same rows runs)

-- The runs that the removal of a node leaves: those of the sessions named in `except`, and those whose
-- session is not on that node.
abbrev is_named : Text → List Text → Bool
is_named id [] = false
is_named id (x ∷ except) = if text_eq id x then true else is_named id except

abbrev is_at : Option Row → Text → Bool
is_at none node = false
is_at (some row) node = elim row.node_id [ none ↦ false | some n ↦ text_eq n node ]

abbrev pub is_spared : List Row → Text → List Text → Pending → Bool
is_spared rows node except run =
    if is_named run.session_id except
    then true
    else if is_at (get_session run.session_id rows) node
    then false
    else true

any-is_named : (id : Text) (except : List Text) → any (text_eq id) except ≡ is_named id except
any-is_named id [] = refl
any-is_named id (x ∷ except) = ground (arith, any-is_named id except)

is_left-is_spared :
    (rows : List Row) (node : Text) (except : List Text) (run : Pending)
    → is_left rows node except run ≡ is_spared rows node except run
unfolding on_node
is_left-is_spared rows node except run = elim (Option-cases (get_session run.session_id rows)) [
  | inl e ↦ ground (arith, e, any-is_named run.session_id except)
  | inr (row, e) ↦ elim (Option-cases row.node_id) [
    | inl n ↦ ground (arith, e, n, any-is_named run.session_id except)
    | inr (m, n) ↦ ground (arith, e, n, any-is_named run.session_id except)
  ]
]

keep-same :
    (p q : Pending → Bool)
    → ((run : Pending) → p run ≡ q run)
    → (runs : List Pending) → keep p runs ≡ keep q runs
keep-same p q h [] = refl
keep-same p q h (run ∷ runs) = rw (h run, keep-same p q h runs) refl

-- `interruptRunsOn` returns, whatever Pi's storage holds when each run is settled. Of the runs in
-- progress when it is called, at most one for each session, it gives up exactly those of sessions on
-- the node that `except` does not name; the others are left.
pub pending_runs-interrupt_runs_on :
    (o : Outside) (storage_at : Pending → Storage) (storage : Storage) (node message : Text)
    (except : List Text) (rows : List Row)
    → IsDistinct storage.pending
    → (last : List Row) × (es : List Effect) × (interrupt_runs_on o storage_at storage node message
          except rows
        ≡ some (last, es))
      × (pending_runs storage last ≡ keep (is_spared rows node except) (pending_runs storage rows))
unfolding interrupt_runs_on pending_runs
pending_runs-interrupt_runs_on o storage_at storage node message except rows d =
    let w : Swept o storage_at node message except rows rows storage.pending =
      sweep o storage_at node message except rows rows storage.pending d
        (all_same rows storage.pending) in
    (
      w.last,
      w.effects,
      w.runs_to,
      w.leaves
          ∙ keep-same (is_left rows node except) (is_spared rows node except)
              (is_left-is_spared rows node except) (pending_runs storage rows),
    )
