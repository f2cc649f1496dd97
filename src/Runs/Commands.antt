-- ===== src/Runs/Commands.antt =====
-- The workflow handlers of vcops.py: `cmd_workflow_start`, `cmd_workflow_replay_probe`,
-- `cmd_workflow_transition`, `cmd_workflow_reconcile_failure` and `cmd_workflow_cancel`, with their
-- helpers. A handler is one transaction: the state comes back only beside a reply, since
-- `psycopg.connect` as a context manager rolls back on an error.
use venture_capital_lead_res.Prelude.{
  ℕ, String, Bool, true, not, ◌&&◌, ◌||◌, Option, none, some, List, [], ◌∷◌, str_eq, is_blank, ◌==◌,
  if◌then◌else◌,
}
use venture_capital_lead_res.Fail.{Result, ok, vcops_error, deny, deny_exit, refuse_if, ◌>>=◌, ◌>>◌}
use venture_capital_lead_res.Json.{Fields}
use venture_capital_lead_res.Runs.Status.{
  Status, succeeded, failed, cancelled, lost, same_status, status_in, terminal_run_states,
  run_transitions,
}
use venture_capital_lead_res.Runs.Rows.{Run, Db, find_run}
use venture_capital_lead_res.Runs.Sql.{transition_workflow_run, retry_workflow_run}

-- The mode of the process (`WORKFLOW_MODE`, `OPERATOR_MODE`, `OPERATOR_ID`).
pub record Mode : Type 0 where
  pub workflow_mode : Bool
  pub operator_mode : Bool
  pub operator_id : String

abbrev pub fixed_workflow_ids : List String
fixed_workflow_ids =
    "inbound-intake" ∷ "outbound-scout" ∷ "evaluate-lead" ∷ "system.runtime-preflight"
    ∷ "preference-observe" ∷ "preference-forget" ∷ "document-ingest" ∷ "document-lead-intake"
    ∷ "evidence-record" ∷ "contradiction-record" ∷ "trajectory-record" ∷ "memo-record"
    ∷ "system.source-scan" ∷ "system.source-watch" ∷ "system.source-unwatch" ∷ "inbound-text-intake"
    ∷ "orchestration-record" ∷ "system.proposal-record" ∷ []

abbrev pub runner_failure_classes : List String
runner_failure_classes =
    "lobster_timeout" ∷ "lobster_output_limit" ∷ "lobster_step_failure" ∷ "lobster_invalid_output"
    ∷ "lobster_runner_failure" ∷ "lobster_no_exit" ∷ []

-- What `workflow-start` hashes beside the two version constants.
pub record HashedRequest : Type 0 where
  pub workflow : String
  pub lead_id : Option ℕ
  pub company_id : Option ℕ
  pub external_flow_id : Option String
  pub metadata : Fields
  pub input_digest : Option String

pub data Replay : Type 0 where
  opened in_progress completed retried absent unverifiable : Replay

pub data Reconciliation : Type 0 where
  not_started already_failed transitioned_failed : Reconciliation

pub data Reply : Type 0 where
  workflow_started : Run → Replay → Bool → Reply
  replay_probed : Replay → Option Run → Reply
  transitioned_run : Run → Reply
  failure_reconciled : Reconciliation → Option Run → Reply
  already_terminal : Run → Reply
  cancel_replied : Run → Bool → Reply

unfoldable pub runtime_actor : Mode → String
runtime_actor m =
    if m.operator_mode && not (is_blank m.operator_id)
    then m.operator_id
    else if m.workflow_mode
    then "vcops-workflow"
    else "vcops"

-- `stored is None or wanted is None or stored == wanted`.
abbrev pub digest_agrees : Option String → Option String → Bool
digest_agrees none stored = true
digest_agrees (some wanted) none = true
digest_agrees (some wanted) (some stored) = str_eq stored wanted

-- `_assert_replay_matches`; a `request_hash` of None is not compared.
unfoldable pub assert_replay_matches : Run → Option String → Option String → Result (Unit {0})
assert_replay_matches row request_hash input_digest = do
  refuse_if (not (digest_agrees request_hash (some row.input_hash)))
      (vcops_error "idempotency_payload_mismatch" 1)
  refuse_if (not (digest_agrees input_digest row.input_digest))
      (vcops_error "idempotency_payload_mismatch" 1)

-- `_classify_workflow_replay`.
unfoldable pub classify_workflow_replay : Mode → Run → Db → Result ((Replay × Run) × Db)
classify_workflow_replay m row db =
    if same_status row.status succeeded
    then ok ((completed, row), db)
    else if status_in (cancelled ∷ lost ∷ []) row.status
    then deny_exit "workflow_run_not_retryable" 1
    else if same_status row.status failed
    then (do
      (reopened, db') ← retry_workflow_run row.run_id row.record_version (runtime_actor m) db
      ok ((retried, reopened), db'))
    else ok ((in_progress, row), db)

-- `_transition_run`.
unfoldable pub transition_run :
    Mode → String → Status → ℕ → Option String → String → Db → Result (Run × Db)
transition_run m run_id target expected error result db = elim (find_run run_id db.runs) [
  | none ↦ deny_exit "not_found" 1
  | some current ↦
      if not (current.record_version == expected)
      then deny_exit "revision_conflict" 1
      else if same_status current.status target
      then ok (current, db)
      else if status_in terminal_run_states current.status
          || not (status_in (run_transitions current.status) target)
      then deny "invalid_transition"
      else transition_workflow_run run_id expected target current.flow_revision (runtime_actor m)
          result (if same_status target failed then some "workflow_error" else none) error db
]
