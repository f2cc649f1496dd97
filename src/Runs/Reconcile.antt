-- ===== src/Runs/Reconcile.antt =====
-- `cmd_workflow_reconcile_failure`: total on live runs, and repeatable.
use venture_capital_lead_res.Prelude.{
  String, ◌≡◌, refl, ap, ◌∙◌, inl, inr, Bool, true, false, not, ◌||◌, none, some, [], ◌∷◌, arith,
  is_some, Bool-cases, Option-cases,
}
use venture_capital_lead_res.Fail.{Result, ok, deny_exit}
use venture_capital_lead_res.Runs.Status.{
  Status, succeeded, failed, cancelled, lost, same_status, same_status→eq, status_in,
  terminal_run_states, run_transitions,
}
use venture_capital_lead_res.Runs.Rows.{Run, Db, find_run, find_key}
use venture_capital_lead_res.Runs.Commands.{
  Mode, Reply, failure_reconciled, not_started, already_failed, transitioned_failed, transition_run,
}
use venture_capital_lead_res.Runs.Handlers.{reconcile_run, reconciled_result}
use venture_capital_lead_res.Runs.Parity.{gate, ends_cancelled_run}
use venture_capital_lead_res.Runs.Distinct.{IsDistinct, find_run-find_key, find_key-replace_run}
use venture_capital_lead_res.Runs.Edges.{SameRequest}
use venture_capital_lead_res.Runs.Updates.{Updated}
use venture_capital_lead_res.Runs.Handled.{transition_run-Updated}
use venture_capital_lead_res.Runs.Progress.{reached, reached_db, transition_run-succeeds}

-- Every live state has the edge to `failed`, which a cancel-requested run may take too.
live-gate_failed :
    (s : Status)
    → status_in (succeeded ∷ cancelled ∷ lost ∷ []) s ≡ false
    → same_status s failed ≡ false
    → gate s failed ≡ true
unfolding gate status_in run_transitions
live-gate_failed s h k = ground arith

ends-failed : ends_cancelled_run failed ≡ true
unfolding ends_cancelled_run status_in
ends-failed = refl

failed_free : (b : Bool) → (not b || ends_cancelled_run failed) ≡ true
failed_free b = ground (arith, ends-failed)

-- The answers of a failure reconciliation for one request, by the state of its run.
pub data ReconcileOutcome (workflow key : String) (db : Db) : Result (Reply × Db) → Type 0 where
  was_absent :
      find_key workflow key db.runs ≡ none
      → ReconcileOutcome workflow key db (ok (failure_reconciled not_started none, db))
  was_failed :
      (r : Run)
      → find_key workflow key db.runs ≡ some r
      → r.status ≡ failed
      → ReconcileOutcome workflow key db (ok (failure_reconciled already_failed (some r), db))
  was_settled :
      (r : Run)
      → find_key workflow key db.runs ≡ some r
      → status_in (succeeded ∷ cancelled ∷ lost ∷ []) r.status ≡ true
      → ReconcileOutcome workflow key db (deny_exit "terminal_reconciliation_refused" 1)
  became_failed :
      (r s : Run) (db' : Db)
      → find_key workflow key db.runs ≡ some r
      → status_in terminal_run_states r.status ≡ false
      → Updated r.run_id db s db'
      → s.status ≡ failed
      → find_key workflow key db'.runs ≡ some s
      → ReconcileOutcome workflow key db (ok (failure_reconciled transitioned_failed (some s), db'))

not_terminal :
    (s : Status)
    → status_in (succeeded ∷ cancelled ∷ lost ∷ []) s ≡ false
    → same_status s failed ≡ false
    → status_in terminal_run_states s ≡ false
unfolding status_in
not_terminal s h k = ground arith

prior_request :
    {run_id : String} {db : Db} {r s : Run} {db' : Db}
    → (u : Updated run_id db s db') → find_run run_id db.runs ≡ some r
    → SameRequest r s
prior_request {r} u row =
    let same : u.prior ≡ r = ground (arith, u.found) in rw same at u.step.request

module _ (m : Mode) (workflow key reason : String) (db : Db) where
  reconcile_run-absent :
      find_key workflow key db.runs ≡ none
      → reconcile_run m workflow key reason db ≡ ok (failure_reconciled not_started none, db)
  unfolding reconcile_run
  reconcile_run-absent h = rw (h, reconcile_run) refl

  module _ (r : Run) (found : find_key workflow key db.runs ≡ some r) where
    reconcile_run-failed :
        same_status r.status failed ≡ true
        → reconcile_run m workflow key reason db
          ≡ ok (failure_reconciled already_failed (some r), db)
    unfolding reconcile_run
    reconcile_run-failed h = ground arith

    reconcile_run-settled :
        same_status r.status failed ≡ false
        → status_in (succeeded ∷ cancelled ∷ lost ∷ []) r.status ≡ true
        → reconcile_run m workflow key reason db ≡ deny_exit "terminal_reconciliation_refused" 1
    unfolding reconcile_run
    reconcile_run-settled h k = ground arith

    reconcile_run-live :
        (s : Run) (db' : Db)
        → same_status r.status failed ≡ false
        → status_in (succeeded ∷ cancelled ∷ lost ∷ []) r.status ≡ false
        → transition_run m r.run_id failed r.record_version
            (some reason)
            (reconciled_result reason)
            db
          ≡ ok (s, db')
        → reconcile_run m workflow key reason db
          ≡ ok (failure_reconciled transitioned_failed (some s), db')
    unfolding reconcile_run
    reconcile_run-live s db' h k moved = ground arith

    live-outcome :
        IsDistinct db.runs
        → same_status r.status failed ≡ false
        → status_in (succeeded ∷ cancelled ∷ lost ∷ []) r.status ≡ false
        → ReconcileOutcome workflow key db (reconcile_run m workflow key reason db)
    live-outcome d other open_ =
        let row = find_run-find_key workflow key db.runs r d found in
        let text = reconciled_result reason in
        let s = reached m r.run_id failed (some reason) text db r in
        let db' = reached_db m r.run_id failed (some reason) text db r in
        let moved =
          transition_run-succeeds m r.run_id failed (some reason) text db r row other
            (live-gate_failed r.status open_ other) (failed_free (is_some r.cancel_requested_at)) in
        let (u, status) =
          transition_run-Updated m r.run_id failed r.record_version (some reason) text db db' r s
            row other moved in
        let same : SameRequest r s = prior_request u row in
        rw (reconcile_run-live s db' other open_ moved) (
          became_failed r s db' found (not_terminal r.status open_ other) u status (
            ap (λ rows. find_key workflow key rows) u.runs
            ∙ find_key-replace_run workflow key db.runs r s found row same))

  -- Whatever state the run of a request is in, its failure reconciliation answers, and the answer
  -- depends on the state alone: an absent run is reported as not started and a failed one as
  -- already failed, with nothing changed; a succeeded, cancelled or lost run is refused; every
  -- other run, also one that was asked to cancel, becomes failed by one audited update of its row,
  -- and the request then finds the failed row. The unique constraints are supposed to hold.
  pub reconcile_run-outcome :
      IsDistinct db.runs → ReconcileOutcome workflow key db (reconcile_run m workflow key reason db)
  reconcile_run-outcome d = elim (Option-cases (find_key workflow key db.runs)) [
    | inl missing ↦ rw (reconcile_run-absent missing) (was_absent missing)
    | inr (r, found) ↦ elim (Bool-cases (same_status r.status failed)) [
      | inl before ↦
          rw (reconcile_run-failed r found before)
            (was_failed r found (same_status→eq r.status failed before))
      | inr other ↦ elim (Bool-cases (status_in (succeeded ∷ cancelled ∷ lost ∷ []) r.status)) [
        | inl settled ↦
            rw (reconcile_run-settled r found other settled) (was_settled r found settled)
        | inr live ↦ live-outcome r found d other live
      ]
    ]
  ]
