-- ===== src/Runs/Sweep.antt =====
-- session-runs.ts: the loop over the runs of a removed node.
use reins.Base.{
  text_eq_sym, ◌≡◌, inl, inr, refl, ap, ◌∙◌, Bool, true, false, not, ◌||◌, Option, none, some,
  Option-cases, Bool-cases, List, [], ◌∷◌, ◌++◌, Text, text_eq, text_eq_refl, any, keep, count, All,
  arith,
}
use reins.Runs.Store.{
  Row, Pending, Storage, is_given_up, given_up_in, on_node, latest_settlement, get_session, update,
  names,
}
use reins.Runs.Replies.{run_started_before_task_closed}
use reins.Runs.Settling.{
  Settled, Effect, Outside, settled_row, report, run_settled, updated, tell_extension,
}
use reins.Runs.Recovery.{interrupted, is_left, interrupt_each}
use reins.Runs.Rows.{get_session-update, get_session-update_other}

abbrev pub is_of : Text → Pending → Bool
is_of id run = text_eq id run.session_id

-- A session has one main lane, so at most one operation in progress.
abbrev pub IsDistinct : List Pending → Type 0
IsDistinct [] = Unit
IsDistinct (run ∷ runs) = (count (is_of run.session_id) runs ≡ 0) × IsDistinct runs

abbrev given_up_row : Option Row → Text → Bool
given_up_row g id = given_up_in (elim g [ none ↦ none | some r ↦ r.settlement ]) id

is_given_up-of_session :
    (a b : List Row) (run : Pending)
    → get_session run.session_id a ≡ get_session run.session_id b
    → is_given_up a run ≡ is_given_up b run
unfolding latest_settlement
is_given_up-of_session a b run h = ap (λ g. given_up_row g run.operation_id) h

is_left-of_session :
    (a b : List Row) (node : Text) (except : List Text) (run : Pending)
    → get_session run.session_id a ≡ get_session run.session_id b
    → is_left a node except run ≡ is_left b node except run
unfolding on_node
is_left-of_session a b node except run h =
    ap
      (λ g.
        any (text_eq run.session_id) except
        || not (elim g [ none ↦ false | some r ↦ names r.node_id node ]))
      h

module _ (o : Outside) (storage_at : Pending → Storage) (node message : Text)
    (except : List Text) where
  -- Giving up a run changes the row of its session only.
  run_settled-updates :
      (rows : List Row) (run : Pending) (r : Row)
      → get_session run.session_id rows ≡ some r
      → (is_quiet : Bool) × (es : List Effect) × (run_settled o
            (storage_at run)
            (interrupted run message)
            rows
          ≡ some (update run.session_id (settled_row (interrupted run message) is_quiet) rows, es))
  unfolding run_settled
  run_settled-updates rows run r h =
      let s : Settled = interrupted run message in
      let quiet : Bool =
        (report o rows r s).0
        || run_started_before_task_closed (storage_at run) r run.operation_id in
      (
        quiet,
        (report o rows r s).1
            ++ (updated run.session_id r.project_id
                ∷ elim r.source_extension as (λ _. List Effect) [
                  | none ↦ []
                  | some x ↦ tell_extension o x s
                ]),
        rw (h, run_settled) refl,
      )

  is_given_up-settled :
      (rows : List Row) (run : Pending) (r : Row) (is_quiet : Bool)
      → get_session run.session_id rows ≡ some r
      → is_given_up
          (update run.session_id (settled_row (interrupted run message) is_quiet) rows)
          run
        ≡ true
  unfolding latest_settlement
  is_given_up-settled rows run r is_quiet h =
      ap (λ g. given_up_row g run.operation_id)
        (get_session-update run.session_id (settled_row (interrupted run message) is_quiet) rows r
          (λ x. refl) h)
      ∙ text_eq_refl run.operation_id

  interrupt_each-left :
      (rows : List Row) (run : Pending) (runs : List Pending)
      → is_left rows node except run ≡ true
      → interrupt_each o storage_at node message except (run ∷ runs) rows
        ≡ interrupt_each o storage_at node message except runs rows
  unfolding interrupt_each
  interrupt_each-left rows run runs q = ground (arith, q)

  interrupt_each-settled :
      (rows next last : List Row) (run : Pending) (runs : List Pending) (es fs : List Effect)
      → is_left rows node except run ≡ false
      → run_settled o (storage_at run) (interrupted run message) rows ≡ some (next, es)
      → interrupt_each o storage_at node message except runs next ≡ some (last, fs)
      → interrupt_each o storage_at node message except (run ∷ runs) rows ≡ some (last, es ++ fs)
  unfolding interrupt_each
  interrupt_each-settled rows next last run runs es fs q h k = ground (arith, q, h, k)

  abbrev pub open_in : List Row → List Pending → List Pending
  open_in rows runs = keep (λ run. not (is_given_up rows run)) runs

  -- The sweep over the runs open in `before`, from `rows`.
  pub record Swept (before rows : List Row) (runs : List Pending) : Type 0 where
    pub last : List Row
    pub effects : List Effect
    pub runs_to :
        interrupt_each o storage_at node message except (open_in before runs) rows
        ≡ some (last, effects)
    pub others : (x : Text) → count (is_of x) runs ≡ 0 → get_session x last ≡ get_session x rows
    pub leaves : open_in last runs ≡ keep (is_left before node except) (open_in before runs)

  abbrev pub AsBefore : List Row → List Row → List Pending → Type 0
  AsBefore before rows runs =
      All (λ run. get_session run.session_id rows ≡ get_session run.session_id before) runs

  AsBefore-update :
      (before rows : List Row) (id : Text) (change : Row → Row) (runs : List Pending)
      → ((x : Row) → (change x).id ≡ x.id)
      → count (is_of id) runs ≡ 0
      → AsBefore before rows runs
      → AsBefore before (update id change rows) runs
  AsBefore-update before rows id change [] keeps c h = tt
  AsBefore-update before rows id change (run ∷ runs) keeps c h = (
    get_session-update_other run.session_id id change rows keeps
          (text_eq_sym run.session_id id ∙ ground (arith, c))
        ∙ h.0,
    AsBefore-update before rows id change runs keeps (ground (arith, c)) h.1,
  )

  -- A run that was given up before, or is left, is passed over.
  Swept-given_up :
      (before rows : List Row) (run : Pending) (runs : List Pending)
      → is_given_up before run ≡ true
      → get_session run.session_id rows ≡ get_session run.session_id before
      → count (is_of run.session_id) runs ≡ 0
      → Swept before rows runs
      → Swept before rows (run ∷ runs)
  Swept-given_up before rows run runs g h c w = record {
    last = w.last;
    effects = w.effects;
    runs_to = ground (arith, g, w.runs_to);
    others = λ x k. w.others x (ground (arith, k));
    leaves = ground (
      arith,
      g,
      is_given_up-of_session w.last before run (w.others run.session_id c ∙ h),
      w.leaves,
    );
  }

  Swept-left :
      (before rows : List Row) (run : Pending) (runs : List Pending)
      → is_given_up before run ≡ false
      → is_left before node except run ≡ true
      → get_session run.session_id rows ≡ get_session run.session_id before
      → count (is_of run.session_id) runs ≡ 0
      → Swept before rows runs
      → Swept before rows (run ∷ runs)
  Swept-left before rows run runs g l h c w = record {
    last = w.last;
    effects = w.effects;
    runs_to =
        ap (λ rs. interrupt_each o storage_at node message except rs rows) (ground (arith, g))
        ∙ interrupt_each-left rows run (open_in before runs)
            (is_left-of_session rows before node except run h ∙ l)
        ∙ w.runs_to;
    others = λ x k. w.others x (ground (arith, k));
    leaves = ground (
      arith,
      g,
      l,
      is_given_up-of_session w.last before run (w.others run.session_id c ∙ h),
      w.leaves,
    );
  }

  Swept-settled :
      (before rows : List Row) (run : Pending) (runs : List Pending) (is_quiet : Bool)
      (es : List Effect) (r : Row)
      → is_given_up before run ≡ false
      → is_left before node except run ≡ false
      → get_session run.session_id rows ≡ get_session run.session_id before
      → get_session run.session_id rows ≡ some r
      → count (is_of run.session_id) runs ≡ 0
      → run_settled o (storage_at run) (interrupted run message) rows
        ≡ some (update run.session_id (settled_row (interrupted run message) is_quiet) rows, es)
      → Swept before
          (update run.session_id (settled_row (interrupted run message) is_quiet) rows)
          runs
      → Swept before rows (run ∷ runs)
  Swept-settled before rows run runs is_quiet es r g l h f c k w =
      let next : List Row =
        update run.session_id (settled_row (interrupted run message) is_quiet) rows in
      record {
        last = w.last;
        effects = es ++ w.effects;
        runs_to =
            ap (λ rs. interrupt_each o storage_at node message except rs rows) (ground (arith, g))
            ∙ interrupt_each-settled rows next w.last run (open_in before runs) es w.effects
                (is_left-of_session rows before node except run h ∙ l) k w.runs_to;
        others = λ x n.
            w.others x (ground (arith, n))
            ∙ get_session-update_other x run.session_id
                (settled_row (interrupted run message) is_quiet) rows (λ y. refl)
                (ground (arith, n));
        leaves = ground (
          arith,
          g,
          l,
          is_given_up-of_session w.last next run (w.others run.session_id c),
          is_given_up-settled rows run r is_quiet f,
          w.leaves,
        );
      }

  none_left :
      (rows : List Row) → interrupt_each o storage_at node message except [] rows ≡ some (rows, [])
  unfolding interrupt_each
  none_left rows = refl

  is_left-of_none :
      (rows : List Row) (run : Pending)
      → get_session run.session_id rows ≡ none
      → is_left rows node except run ≡ true
  unfolding on_node
  is_left-of_none rows run h = ground (arith, h)

  pub sweep :
      (before rows : List Row) (runs : List Pending)
      → IsDistinct runs
      → AsBefore before rows runs
      → Swept before rows runs
  sweep before rows [] d h = record {
    last = rows;
    effects = [];
    runs_to = none_left rows;
    others = λ x k. refl;
    leaves = refl;
  }
  sweep before rows (run ∷ runs) d h = elim (Bool-cases (is_given_up before run)) [
    | inl g ↦ Swept-given_up before rows run runs g h.0 d.0 (sweep before rows runs d.1 h.1)
    | inr g ↦ elim (Bool-cases (is_left before node except run)) [
      | inl l ↦ Swept-left before rows run runs g l h.0 d.0 (sweep before rows runs d.1 h.1)
      | inr l ↦ elim (Option-cases (get_session run.session_id rows)) [
        | inl f ↦ absurd (
            ground (
              arith,
              l,
              is_left-of_none rows run f,
              is_left-of_session rows before node except run h.0,
            ))
        | inr (r, f) ↦
            let (is_quiet, es, k) = run_settled-updates rows run r f in
            Swept-settled before rows run runs is_quiet es r g l h.0 f d.0 k (
              sweep before
                (update run.session_id (settled_row (interrupted run message) is_quiet) rows) runs
                d.1
                (AsBefore-update before rows run.session_id
                  (settled_row (interrupted run message) is_quiet) runs (λ x. refl) d.0 h.1))
      ]
    ]
  ]
