-- ===== src/Runs/Sql.antt =====
-- The database's side of a workflow run: the triggers and checks of an UPDATE, and the functions
-- `transition_workflow_run`, `request_workflow_cancel` (migrations/001_initial_v2.sql) and
-- `retry_workflow_run` (migrations/018_workflow_retry_after_failure.sql).
use venture_capital_lead_res.Prelude.{
  ℕ, suc, String, Bool, not, ◌&&◌, ◌||◌, Option, none, some, [], ◌∷◌, ◌++◌, is_some, or_else, ltb,
  ◌==◌, is_all_spaces, if◌then◌else◌,
}
use venture_capital_lead_res.Fail.{Result, ok, sqlstate, raise_sqlstate, refuse_if, ◌>>=◌, ◌>>◌}
use venture_capital_lead_res.Runs.Status.{
  Status, queued, started, running, failed, cancelled, lost, same_status, status_in,
  terminal_run_states, trigger_edges,
}
use venture_capital_lead_res.Runs.Rows.{Run, AuditEvent, Db, find_run, replace_run}

-- The retry branch of the trigger: failed to queued, with the whole reset in the same statement.
unfoldable pub is_retry : Run → Run → Bool
is_retry old new =
    same_status old.status failed
    && same_status new.status queued
    && new.attempt == suc old.attempt
    && not (is_some new.finished_at)
    && not (is_some new.error_class)

unfoldable pub allowed : Run → Run → Bool
allowed old new =
    same_status new.status old.status
    || status_in (trigger_edges old.status) new.status
    || is_retry old new

-- The columns that the trigger sets on an update that it admits.
unfoldable pub stamp : ℕ → Run → Run → Run
stamp now old new = record new {
  cancel_requested_at =
      if same_status new.status cancelled
      then or_else new.cancel_requested_at now
      else new.cancel_requested_at;
  finished_at =
      if status_in terminal_run_states new.status
      then or_else new.finished_at now
      else new.finished_at;
  started_at =
      if status_in (started ∷ running ∷ []) new.status
      then or_else new.started_at now
      else new.started_at;
  heartbeat_at =
      if same_status new.status running then or_else new.heartbeat_at now else new.heartbeat_at;
  record_version = suc old.record_version;
}

unfoldable pub guard_workflow_run_transition : ℕ → Run → Run → Result Run
guard_workflow_run_transition now old new =
    if ltb new.flow_revision old.flow_revision
    then raise_sqlstate "40001"
    else if is_some old.cancel_requested_at
        && not (same_status new.status old.status)
        && not (status_in (cancelled ∷ failed ∷ lost ∷ []) new.status)
    then raise_sqlstate "23514"
    else if not (allowed old new)
    then raise_sqlstate "23514"
    else ok (stamp now old new)

-- The CHECK constraints that an update of these columns can break.
unfoldable pub check_constraints : Run → Bool
check_constraints r =
    (not (same_status r.status cancelled) || is_some r.cancel_requested_at)
    && (not (status_in terminal_run_states r.status) || is_some r.finished_at)
    && (not (same_status r.status failed) || is_some r.error_class)

-- The audit row that follows an update, and the tables with both written.
unfoldable pub audit_event : String → String → Run → Run → AuditEvent
audit_event event_type actor prior changed = record {
  event_type = event_type;
  actor_id = actor;
  workflow_run = prior.run_id;
  before_status = prior.status;
  before_version = prior.record_version;
  after_status = changed.status;
  after_version = changed.record_version;
}

unfoldable pub written : AuditEvent → Run → Db → Db
written event changed db = record db {
  runs = replace_run changed.run_id changed db.runs;
  audit_events = db.audit_events ++ event ∷ [];
}

-- `UPDATE workflow_runs SET ... WHERE id = prior.id RETURNING *`, and the audit row after it.
unfoldable pub update_run : String → String → Run → Run → Db → Result (Run × Db)
update_run event_type actor prior new db = do
  changed ← guard_workflow_run_transition db.clock prior new
  refuse_if (not (check_constraints changed)) (sqlstate "23514")
  ok (changed, written (audit_event event_type actor prior changed) changed db)

-- `SELECT * INTO prior ... FOR UPDATE` and the check of its record version.
unfoldable pub select_prior : String → ℕ → Db → Result Run
select_prior run_id expected db = elim (find_run run_id db.runs) [
  | none ↦ raise_sqlstate "P0002"
  | some prior ↦ if prior.record_version == expected then ok prior else raise_sqlstate "40001"
]

-- The row that the UPDATE of `transition_workflow_run` asks for.
unfoldable pub transitioned :
    ℕ → Status → ℕ → String → String → Option String → Option String → Run → Run
transitioned now target flow_revision actor result error_class error_message prior = record prior {
  status = target;
  flow_revision = flow_revision;
  result = result;
  heartbeat_at = if same_status target running then some now else prior.heartbeat_at;
  error_class = elim error_class [ some e ↦ some e | none ↦ prior.error_class ];
  error_message = elim error_message [ some e ↦ some e | none ↦ prior.error_message ];
  cancelled_by = if same_status target cancelled then some actor else prior.cancelled_by;
}

unfoldable pub transition_workflow_run :
    String
    → ℕ
    → Status
    → ℕ
    → String
    → String
    → Option String
    → Option String
    → Db
    → Result (Run × Db)
transition_workflow_run run_id expected target flow_revision actor result error_class message db =
    do
      prior ← select_prior run_id expected db
      update_run "workflow.transition" actor prior
          (transitioned db.clock target flow_revision actor result error_class message prior) db

unfoldable pub cancel_requested : ℕ → String → String → Run → Run
cancel_requested now actor reason prior = record prior {
  cancel_requested_at = some now;
  cancelled_by = some actor;
  cancellation_reason = some reason;
}

unfoldable pub request_workflow_cancel : String → ℕ → String → String → Db → Result (Run × Db)
request_workflow_cancel run_id expected actor reason db = do
  refuse_if (is_all_spaces actor || is_all_spaces reason) (sqlstate "22023")
  prior ← select_prior run_id expected db
  refuse_if (status_in terminal_run_states prior.status) (sqlstate "40001")
  refuse_if (is_some prior.cancel_requested_at) (sqlstate "40001")
  update_run "workflow.cancel_requested" actor prior (cancel_requested db.clock actor reason prior)
      db

unfoldable pub reopened : Run → Run
reopened prior = record prior {
  status = queued;
  attempt = suc prior.attempt;
  started_at = none;
  heartbeat_at = none;
  finished_at = none;
  error_class = none;
  error_message = none;
  result = "{}";
}

unfoldable pub retry_workflow_run : String → ℕ → String → Db → Result (Run × Db)
retry_workflow_run run_id expected actor db = do
  prior ← select_prior run_id expected db
  refuse_if (not (same_status prior.status failed)) (sqlstate "55000")
  refuse_if (is_some prior.cancel_requested_at) (sqlstate "55000")
  update_run "workflow.retry" actor prior (reopened prior) db
