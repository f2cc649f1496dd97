-- ===== src/Runs/Replay.antt =====
-- `cmd_workflow_start` with an idempotency key that is in use.
use venture_capital_lead_res.Prelude.{
  ℕ, suc, ◌≡◌, Bool, true, false, ◌&&◌, none, some, [], ◌∷◌, arith, is_some,
}
use venture_capital_lead_res.Fail.{Result, ok, err, sqlstate, deny_exit}
use venture_capital_lead_res.Runs.Status.{
  queued, succeeded, failed, cancelled, lost, same_status, status_in, terminal_run_states,
}
use venture_capital_lead_res.Runs.Rows.{Run, Db, lead_company, find_run}
use venture_capital_lead_res.Runs.Sql.{
  stamp, written, audit_event, guard_workflow_run_transition, check_constraints, update_run,
  select_prior, reopened, retry_workflow_run, allowed, is_retry,
}
use venture_capital_lead_res.Runs.Commands.{
  Mode, Reply, workflow_started, completed, in_progress, retried, runtime_actor, digest_agrees,
}

-- The row that a retry writes, and the state with it.
unfoldable pub retried_row : Db → Run → Run
retried_row db r = stamp db.clock r (reopened r)

pub retried_db : Mode → Db → Run → Db
unfolding retried_row
retried_db m db r =
    written (audit_event "workflow.retry" (runtime_actor m) r (retried_row db r)) (retried_row db r)
      db

-- The committed request of a row is the wanted one.
abbrev pub request_matches : Run → Run → Bool
request_matches wanted r =
    digest_agrees (some wanted.input_hash) (some r.input_hash)
    && digest_agrees wanted.input_digest r.input_digest

-- The answers of a start whose key belongs to the row `r`. The INSERT comes first, and its trigger
-- refuses a lead that has no company.
pub data StartReplay (m : Mode) (db : Db) (wanted r : Run) : Result (Reply × Db) → Type 0 where
  unowned :
      (lead : ℕ)
      → wanted.lead_id ≡ some lead
      → lead_company lead db.leads ≡ some none
      → StartReplay m db wanted r (err (sqlstate "23514"))
  tampered :
      request_matches wanted r ≡ false
      → StartReplay m db wanted r (deny_exit "idempotency_payload_mismatch" 1)
  done_before :
      request_matches wanted r ≡ true
      → r.status ≡ succeeded
      → StartReplay m db wanted r (ok (workflow_started r completed false, db))
  decided_before :
      request_matches wanted r ≡ true
      → status_in (cancelled ∷ lost ∷ []) r.status ≡ true
      → StartReplay m db wanted r (deny_exit "workflow_run_not_retryable" 1)
  resumed :
      request_matches wanted r ≡ true
      → status_in terminal_run_states r.status ≡ false
      → StartReplay m db wanted r (ok (workflow_started r in_progress true, db))
  not_reopened :
      request_matches wanted r ≡ true
      → r.status ≡ failed
      → is_some r.cancel_requested_at ≡ true
      → StartReplay m db wanted r (err (sqlstate "55000"))
  reopened_run :
      request_matches wanted r ≡ true
      → r.status ≡ failed
      → is_some r.cancel_requested_at ≡ false
      → (retried_row db r).status ≡ queued
      → (retried_row db r).attempt ≡ suc r.attempt
      → (retried_row db r).error_class ≡ none
      → StartReplay m db wanted r
          (ok (workflow_started (retried_row db r) retried true, retried_db m db r))

module _ (m : Mode) (db : Db) (r : Run) where
  select_prior-row :
      find_run r.run_id db.runs ≡ some r → select_prior r.run_id r.record_version db ≡ ok r
  unfolding select_prior
  select_prior-row found = ground arith

  pub retry-cancelled :
      find_run r.run_id db.runs ≡ some r
      → same_status r.status failed ≡ true
      → is_some r.cancel_requested_at ≡ true
      → retry_workflow_run r.run_id r.record_version (runtime_actor m) db ≡ err (sqlstate "55000")
  unfolding retry_workflow_run
  retry-cancelled found f c = ground (arith, select_prior-row found)

  retry-guarded :
      same_status r.status failed ≡ true
      → is_some r.cancel_requested_at ≡ false
      → guard_workflow_run_transition db.clock r (reopened r) ≡ ok (retried_row db r)
  unfolding guard_workflow_run_transition allowed is_retry reopened same_status retried_row
  retry-guarded f c = ground arith

  retry-checked : check_constraints (retried_row db r) ≡ true
  unfolding check_constraints retried_row stamp reopened status_in
  retry-checked = ground arith

  pub retry-reopens :
      find_run r.run_id db.runs ≡ some r
      → same_status r.status failed ≡ true
      → is_some r.cancel_requested_at ≡ false
      → retry_workflow_run r.run_id r.record_version (runtime_actor m) db
        ≡ ok (retried_row db r, retried_db m db r)
  unfolding retry_workflow_run update_run retried_db
  retry-reopens found f c = ground (arith, select_prior-row found, retry-guarded f c, retry-checked)
