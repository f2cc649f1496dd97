-- ===== src/Runs/Progress.antt =====
-- When a transition succeeds, and that a live run can always be reconciled as failed.
use venture_capital_lead_res.Prelude.{
  ℕ, String, ◌≡◌, refl, ap, ◌∙◌, inl, inr, true, false, not, ◌&&◌, ◌||◌, Option, none, some, arith,
  is_some, if◌then◌else◌,
}
use venture_capital_lead_res.Fail.{ok, err, Result-cases, Failure}
use venture_capital_lead_res.Runs.Status.{Status, failed, same_status}
use venture_capital_lead_res.Runs.Rows.{Run, Db, find_run}
use venture_capital_lead_res.Runs.Sql.{
  stamp, written, audit_event, guard_workflow_run_transition, check_constraints, update_run,
  select_prior, transitioned, transition_workflow_run,
}
use venture_capital_lead_res.Runs.Commands.{Mode, runtime_actor, transition_run}
use venture_capital_lead_res.Runs.Parity.{is_ok, gate, ends_cancelled_run, is_ok-guard_transitioned}
use venture_capital_lead_res.Runs.Edges.{guard-eq-stamp}

check-stamp :
    (now : ℕ) (target : Status) (revision : ℕ) (actor result : String) (message : Option String)
    (r : Run)
    → check_constraints (
        stamp now r (
          transitioned now target revision actor result
            (if same_status target failed then some "workflow_error" else none)
            message
            r))
      ≡ true
unfolding check_constraints stamp transitioned
check-stamp now target revision actor result message r = ground arith

module _ (m : Mode) (run_id : String) (target : Status) (error : Option String) (result : String)
    (db : Db) (r : Run) where
  abbrev class : Option String
  class = if same_status target failed then some "workflow_error" else none

  abbrev wanted : Run
  wanted = transitioned db.clock target r.flow_revision (runtime_actor m) result class error r

  abbrev pub reached : Run
  reached = stamp db.clock r wanted

  abbrev pub reached_db : Db
  reached_db = written (audit_event "workflow.transition" (runtime_actor m) r reached) reached db

  wanted-guarded :
      same_status r.status target ≡ false
      → gate r.status target ≡ true
      → (not (is_some r.cancel_requested_at) || ends_cancelled_run target) ≡ true
      → guard_workflow_run_transition db.clock r wanted ≡ ok reached
  wanted-guarded other edge free =
      elim (Result-cases (guard_workflow_run_transition db.clock r wanted)) [
        | inl (c, passed) ↦ passed ∙ ap ok (guard-eq-stamp db.clock r wanted c passed)
        | inr (e, refused) ↦ absurd (clash e refused)
      ]
    where
      parity : is_ok (guard_workflow_run_transition db.clock r wanted) ≡ (
          gate r.status target
          && (not (is_some r.cancel_requested_at) || ends_cancelled_run target))
      parity = is_ok-guard_transitioned db.clock target (runtime_actor m) result class error r other

      clash : (e : Failure) → guard_workflow_run_transition db.clock r wanted ≡ err e → ⊥
      clash e refused = ground (arith, parity)

  wanted-updated :
      guard_workflow_run_transition db.clock r wanted ≡ ok reached
      → update_run "workflow.transition" (runtime_actor m) r wanted db ≡ ok (reached, reached_db)
  unfolding update_run
  wanted-updated guarded =
      rw guarded
        (rw (check-stamp db.clock target r.flow_revision (runtime_actor m) result error r) refl)

  select_prior-current :
      find_run run_id db.runs ≡ some r → select_prior run_id r.record_version db ≡ ok r
  unfolding select_prior
  select_prior-current found = ground arith

  -- A transition to another status with the current revision succeeds where the state machine
  -- has the edge, unless the run was asked to cancel and the target would let it go on; the new
  -- row and the new state are those of one stamped and audited update.
  pub transition_run-succeeds :
      find_run run_id db.runs ≡ some r
      → same_status r.status target ≡ false
      → gate r.status target ≡ true
      → (not (is_some r.cancel_requested_at) || ends_cancelled_run target) ≡ true
      → transition_run m run_id target r.record_version error result db ≡ ok (reached, reached_db)
  unfolding transition_run transition_workflow_run gate
  transition_run-succeeds found other edge free =
      let updated = wanted-updated (wanted-guarded other edge free) in
      let selected = select_prior-current found in ground arith
