-- ===== src/Runs/Revisions.antt =====
-- The optimistic revision check of `_transition_run`, and cancellation of a run that was already
-- asked to cancel.
use venture_capital_lead_res.Prelude.{
  ℕ, suc, String, ◌≡◌, refl, sym, ap, ◌∙◌, inl, inr, true, false, Option, some, List, [], ◌∷◌,
  arith, is_some, str_eq_refl, is_all_spaces, Bool-cases,
}
use venture_capital_lead_res.Fail.{ok, err, sqlstate, deny_exit}
use venture_capital_lead_res.Runs.Status.{
  Status, started, running, same_status, status_in, terminal_run_states,
}
use venture_capital_lead_res.Runs.Rows.{Run, Db, has_run_id, find_run, replace_run}
use venture_capital_lead_res.Runs.Sql.{select_prior, request_workflow_cancel}
use venture_capital_lead_res.Runs.Commands.{Mode, runtime_actor, transition_run}
use venture_capital_lead_res.Runs.Handlers.{
  is_other_workflow, cancel_running, cancel_row, cmd_workflow_cancel,
}
use venture_capital_lead_res.Runs.Updates.{Updated, find_run-run_id}
use venture_capital_lead_res.Runs.Handled.{transition_run-Updated}

pub find_run-replace_run :
    (run_id : String) (rows : List Run) (r s : Run)
    → find_run run_id rows ≡ some r
    → s.run_id ≡ run_id
    → find_run run_id (replace_run run_id s rows) ≡ some s
unfolding find_run replace_run
find_run-replace_run run_id [] r s h e = cc
find_run-replace_run run_id (q ∷ rows) r s h e =
    let self : has_run_id run_id s ≡ true = rw e (str_eq_refl run_id) in
    elim (Bool-cases (has_run_id run_id q)) [
      | inl this ↦ rw this (rw self refl)
      | inr other ↦ rw other (rw other (find_run-replace_run run_id rows r s (ground arith) e))
    ]

-- The row that an update has written is the row that is found afterwards.
pub Updated-found :
    {run_id : String} {db : Db} {s : Run} {db' : Db}
    → Updated run_id db s db'
    → find_run run_id db'.runs ≡ some s
Updated-found {run_id} {db} {s} {db'} u =
    let e : s.run_id ≡ run_id =
      sym u.step.request.run_id ∙ find_run-run_id run_id db.runs u.prior u.found in
    rw u.runs (find_run-replace_run run_id db.runs u.prior s u.found e)

module _ (m : Mode) (run_id : String) (target : Status) (expected : ℕ) (error : Option String)
    (result : String) (db db' : Db) (current s : Run) where
  expected-version :
      find_run run_id db.runs ≡ some current
      → transition_run m run_id target expected error result db ≡ ok (s, db')
      → current.record_version ≡ expected
  unfolding transition_run
  expected-version found h = ground arith

  -- Of two writers that read the same revision, the second loses: once a transition of a run to
  -- another status has succeeded, every transition that still expects the old revision, to
  -- whatever status and in whatever mode, is refused as a revision conflict.
  pub transition_run-stale :
      find_run run_id db.runs ≡ some current
      → same_status current.status target ≡ false
      → transition_run m run_id target expected error result db ≡ ok (s, db')
      → (m' : Mode) (target' : Status) (error' : Option String) (result' : String)
      → transition_run m' run_id target' expected error' result' db'
        ≡ deny_exit "revision_conflict" 1
  unfolding transition_run
  transition_run-stale found other h m' target' error' result' =
      let (u, status) =
        transition_run-Updated m run_id target expected error result db db' current s found other
          h in
      let now = Updated-found u in
      let was : current.record_version ≡ expected = expected-version found h in
      let same : current ≡ u.prior = ground (arith, u.found) in
      let newer : s.record_version ≡ suc expected =
        u.step.version ∙ ap suc (ap (λ (r : Run). r.record_version) (sym same) ∙ was) in
      ground arith

busy_live :
    (s : Status)
    → status_in (started ∷ running ∷ []) s ≡ true
    → status_in terminal_run_states s ≡ false
unfolding status_in
busy_live s h = ground arith

-- A run that is started or running and was already asked to cancel: the operator's terminal
-- cancellation with the current revision is refused by the database as a serialization conflict,
-- because it asks for the cooperative cancellation first.
pub cmd_workflow_cancel-requested :
    (m : Mode) (run_id reason : String) (workflow : Option String) (db : Db) (r : Run)
    → m.operator_mode ≡ true
    → find_run run_id db.runs ≡ some r
    → status_in (started ∷ running ∷ []) r.status ≡ true
    → is_some r.cancel_requested_at ≡ true
    → is_other_workflow workflow r.workflow_id ≡ false
    → is_all_spaces (runtime_actor m) ≡ false
    → is_all_spaces reason ≡ false
    → cmd_workflow_cancel m run_id r.record_version reason true workflow db ≡ err (sqlstate "40001")
unfolding cmd_workflow_cancel cancel_row cancel_running request_workflow_cancel select_prior
cmd_workflow_cancel-requested m run_id reason workflow db r op found busy asked own actor text =
    let live : status_in terminal_run_states r.status ≡ false = busy_live r.status busy in
    let same : r.run_id ≡ run_id = find_run-run_id run_id db.runs r found in
    let found' : find_run r.run_id db.runs ≡ some r = ap (λ k. find_run k db.runs) same ∙ found in
    ground arith
