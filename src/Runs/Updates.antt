-- ===== src/Runs/Updates.antt =====
-- The three database functions change one row by one legal step, and record it.
use venture_capital_lead_res.Prelude.{
  ℕ, String, ◌≡◌, refl, sym, ap, ◌∙◌, inl, inr, true, false, Option, some, List, [], ◌∷◌, ◌++◌,
  arith, str_eq→eq, Bool-cases,
}
use venture_capital_lead_res.Fail.{Failure, ok, err, Result-cases}
use venture_capital_lead_res.Runs.Status.{
  Status, failed, same_status, status_in, terminal_run_states,
}
use venture_capital_lead_res.Runs.Rows.{Run, AuditEvent, Db, has_run_id, find_run, replace_run}
use venture_capital_lead_res.Runs.Sql.{
  stamp, written, audit_event, guard_workflow_run_transition, check_constraints, update_run,
  select_prior, transitioned, transition_workflow_run, cancel_requested, request_workflow_cancel,
  reopened, retry_workflow_run,
}
use venture_capital_lead_res.Runs.Edges.{
  SameRequest, LegalStep, Keeps, settled_states, guard-LegalStep, guard-eq-stamp,
}

pub SameRequest-refl : (r : Run) → SameRequest r r
SameRequest-refl r = record {
  run_id = refl;
  workflow_id = refl;
  idempotency_key = refl;
  input_hash = refl;
  input_digest = refl;
}

-- `s` is the new contents of the row of `run_id`, and the audit trail has one more entry, of it.
pub record Updated (run_id : String) (db : Db) (s : Run) (db' : Db) : Type 0 where
  pub prior : Run
  pub event : AuditEvent
  pub found : find_run run_id db.runs ≡ some prior
  pub step : LegalStep prior s
  pub checked : check_constraints s ≡ true
  pub runs : db'.runs ≡ replace_run run_id s db.runs
  pub audit : db'.audit_events ≡ db.audit_events ++ event ∷ []
  pub audit_before : event.before_status ≡ prior.status
  pub audit_after : event.after_status ≡ s.status
  pub leads : db'.leads ≡ db.leads
  pub companies : db'.companies ≡ db.companies

pub find_run-run_id :
    (run_id : String) (rows : List Run) (r : Run)
    → find_run run_id rows ≡ some r
    → r.run_id ≡ run_id
unfolding find_run
find_run-run_id run_id [] r h = cc
find_run-run_id run_id (q ∷ rows) r h = elim (Bool-cases (has_run_id run_id q)) [
  | inl this ↦ let same : q ≡ r = ground arith in rw same at (str_eq→eq q.run_id run_id this)
  | inr other ↦ find_run-run_id run_id rows r (ground arith)
]

module _ (event_type actor : String) (prior new s : Run) (db db' : Db)
    (h : update_run event_type actor prior new db ≡ ok (s, db')) where
  update_run-guard : guard_workflow_run_transition db.clock prior new ≡ ok s
  unfolding update_run
  update_run-guard = ground arith

  pub update_run-eq-stamp : s ≡ stamp db.clock prior new
  update_run-eq-stamp = guard-eq-stamp db.clock prior new s update_run-guard

  update_run-check_constraints : check_constraints s ≡ true
  unfolding update_run
  update_run-check_constraints = ground arith

  update_run-written : db' ≡ written (audit_event event_type actor prior s) s db
  unfolding update_run
  update_run-written = ground arith

  update_run-Updated :
      (run_id : String)
      → find_run run_id db.runs ≡ some prior
      → Keeps prior new
      → status_in settled_states prior.status ≡ false
      → Updated run_id db s db'
  unfolding written audit_event
  update_run-Updated run_id found keeps live =
      let step : LegalStep prior s =
        guard-LegalStep db.clock prior new s keeps live update_run-guard in
      let same : s.run_id ≡ run_id =
        sym step.request.run_id ∙ find_run-run_id run_id db.runs prior found in
      record {
        prior = prior;
        event = audit_event event_type actor prior s;
        found = found;
        step = step;
        checked = update_run-check_constraints;
        runs = ap (λ (d : Db). d.runs) update_run-written ∙ ap (λ k. replace_run k s db.runs) same;
        audit = ap (λ (d : Db). d.audit_events) update_run-written;
        audit_before = refl;
        audit_after = refl;
        leads = ap (λ (d : Db). d.leads) update_run-written;
        companies = ap (λ (d : Db). d.companies) update_run-written;
      }

select_prior-found :
    (run_id : String) (expected : ℕ) (db : Db) (p : Run)
    → select_prior run_id expected db ≡ ok p
    → find_run run_id db.runs ≡ some p
unfolding select_prior
select_prior-found run_id expected db p h = ground arith

transitioned-Keeps :
    (now : ℕ) (target : Status) (revision : ℕ) (actor result : String)
    (class message : Option String) (p : Run)
    → Keeps p (transitioned now target revision actor result class message p)
unfolding transitioned
transitioned-Keeps now target revision actor result class message p = ground arith

cancel_requested-Keeps :
    (now : ℕ) (actor reason : String) (p : Run) → Keeps p (cancel_requested now actor reason p)
unfolding cancel_requested
cancel_requested-Keeps now actor reason p = ground arith

reopened-Keeps : (p : Run) → Keeps p (reopened p)
unfolding reopened
reopened-Keeps p = ground arith

pub live_of_not_terminal :
    (s : Status) → status_in terminal_run_states s ≡ false → status_in settled_states s ≡ false
unfolding status_in
live_of_not_terminal s h = ground arith

live_of_failed : (s : Status) → same_status s failed ≡ true → status_in settled_states s ≡ false
unfolding status_in
live_of_failed s h = ground arith

module _ (run_id : String) (expected : ℕ) (actor : String) (s : Run) (db db' : Db) where
  -- The transition is legal where the row that it starts from is not settled.
  pub transition_workflow_run-Updated :
      (target : Status) (revision : ℕ) (result : String) (class message : Option String)
      → transition_workflow_run run_id expected target revision actor result class message db
        ≡ ok (s, db')
      → ((p : Run) → find_run run_id db.runs ≡ some p → status_in settled_states p.status ≡ false)
      → Updated run_id db s db' × (s.status ≡ target)
  unfolding transition_workflow_run
  transition_workflow_run-Updated target revision result class message h live =
      elim (Result-cases (select_prior run_id expected db)) [
        | inl (p, selected) ↦
            let found = select_prior-found run_id expected db p selected in
            let new = transitioned db.clock target revision actor result class message p in
            let update = update_of p selected in
            (
              update_run-Updated "workflow.transition" actor p new s db db' update run_id found
                  (transitioned-Keeps db.clock target revision actor result class message p)
                  (live p found),
              ap (λ (r : Run). r.status)
                    (update_run-eq-stamp "workflow.transition" actor p new s db db' update)
                  ∙ unfold stamp transitioned in refl,
            )
        | inr (e, refused) ↦ absurd (failure e refused)
      ]
    where
      update_of :
          (p : Run)
          → select_prior run_id expected db ≡ ok p
          → update_run "workflow.transition" actor p
              (transitioned db.clock target revision actor result class message p)
              db
            ≡ ok (s, db')
      update_of p selected = ground arith

      failure : (e : Failure) → select_prior run_id expected db ≡ err e → ⊥
      failure e refused = ground arith

  pub request_workflow_cancel-Updated :
      (reason : String)
      → request_workflow_cancel run_id expected actor reason db ≡ ok (s, db')
      → Updated run_id db s db'
  unfolding request_workflow_cancel
  request_workflow_cancel-Updated reason h = elim (Result-cases (select_prior run_id expected db)) [
    | inl (p, selected) ↦
        update_run-Updated "workflow.cancel_requested" actor p
          (cancel_requested db.clock actor reason p) s db db' (ground arith) run_id
          (select_prior-found run_id expected db p selected)
          (cancel_requested-Keeps db.clock actor reason p)
          (live_of_not_terminal p.status (ground arith))
    | inr (e, refused) ↦ absurd (ground arith)
  ]

  pub retry_workflow_run-Updated :
      retry_workflow_run run_id expected actor db ≡ ok (s, db') → Updated run_id db s db'
  unfolding retry_workflow_run
  retry_workflow_run-Updated h = elim (Result-cases (select_prior run_id expected db)) [
    | inl (p, selected) ↦
        update_run-Updated "workflow.retry" actor p (reopened p) s db db' (ground arith) run_id
          (select_prior-found run_id expected db p selected) (reopened-Keeps p)
          (live_of_failed p.status (ground arith))
    | inr (e, refused) ↦ absurd (ground arith)
  ]
