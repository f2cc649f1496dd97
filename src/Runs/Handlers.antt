-- ===== src/Runs/Handlers.antt =====
-- The workflow commands of vcops.py over the helpers of Runs/Commands.antt. A handler is one
-- transaction: the new state comes back only beside a reply, since `psycopg.connect` as a context
-- manager rolls back on an error.
use Prim.Native.String
use venture_capital_lead_res.Prelude.{
  ℕ, String, Bool, true, false, not, ◌&&◌, Option, none, some, [], ◌∷◌, str_eq, member, ◌==◌,
  if◌then◌else◌,
}
use venture_capital_lead_res.Fail.{Result, ok, vcops_error, deny_exit, refuse_if, ◌>>=◌, ◌>>◌}
use venture_capital_lead_res.Json.{Fields, argument}
use venture_capital_lead_res.Validate.Checks.{
  require_text, Loaded, parse_json_object, require_input_digest,
}
use venture_capital_lead_res.Runs.Status.{
  Status, started, running, succeeded, failed, cancelled, lost, same_status, status_in,
  terminal_run_states,
}
use venture_capital_lead_res.Runs.Rows.{Run, Db, lead_company, find_run, find_key}
use venture_capital_lead_res.Runs.Sql.{request_workflow_cancel}
use venture_capital_lead_res.Runs.Insert.{queued_run, insert_run}
use venture_capital_lead_res.Runs.Commands.{
  Mode, fixed_workflow_ids, runner_failure_classes, HashedRequest, Replay, opened, completed,
  absent, unverifiable, not_started, already_failed, transitioned_failed, Reply, workflow_started,
  replay_probed, transitioned_run, failure_reconciled, already_terminal, cancel_replied,
  runtime_actor, assert_replay_matches, classify_workflow_replay, transition_run,
}

-- `sha256_json` of the hashed request, and `db_json` of the metadata and the result: code that is not modelled.
pub record Digests : Type 0 where
  pub sha256_json : HashedRequest → String
  pub db_json : Fields → String

-- `run_id` is the fresh `uuid4`. Identifiers are in canonical decimal form.
pub record StartArgs : Type 0 where
  pub run_id : String
  pub workflow : Option String
  pub idempotency_key : Option String
  pub lead_id : Option ℕ
  pub company_id : Option ℕ
  pub external_flow_id : Option String
  pub metadata : Loaded
  pub input_digest : Option String

-- `company_id is not None and str(company_id) != str(lead["company_id"])`.
abbrev pub names_other : Option ℕ → Option ℕ → Bool
names_other none owner = false
names_other (some named) none = true
names_other (some named) (some c) = not (named == c)

-- The lead's company, if it has one; a company that the caller names beside a lead must be that one.
unfoldable pub run_lineage : Option ℕ → Option ℕ → Db → Result (Option ℕ)
run_lineage none company db = ok company
run_lineage (some lead) company db = elim (lead_company lead db.leads) [
  | none ↦ deny_exit "not_found" 1
  | some owner ↦ if names_other company owner then deny_exit "lineage_mismatch" 1 else ok owner
]

abbrev pub is_completed : Replay → Bool
is_completed completed = true
is_completed _ = false

-- The classification of an existing row, and the reply that is made of it.
unfoldable pub answer_replay : (Replay → Run → Reply) → Mode → Run → Db → Result (Reply × Db)
answer_replay say m existing db = do
  ((outcome, row), db') ← classify_workflow_replay m existing db
  ok (say outcome row, db')

-- After the conflict: the existing row must be that of the same request.
unfoldable pub replay_start : Mode → Run → Db → Result (Reply × Db)
replay_start m wanted db = elim (find_key wanted.workflow_id wanted.idempotency_key db.runs) [
  | none ↦ deny_exit "not_found" 1
  | some existing ↦ do
    assert_replay_matches existing (some wanted.input_hash) wanted.input_digest
    answer_replay (λ outcome row. workflow_started row outcome (not (is_completed outcome))) m
        existing db
]

unfoldable pub open_run : Mode → Run → Db → Result (Reply × Db)
open_run m wanted db = do
  (inserted, db') ← insert_run wanted db
  elim inserted [
    | some row ↦ ok (workflow_started row opened true, db')
    | none ↦ replay_start m wanted db'
  ]

-- The values that the checks before the INSERT leave.
pub record StartInput : Type 0 where
  pub workflow : String
  pub key : String
  pub company : Option ℕ
  pub digest : Option String
  pub metadata : Fields

unfoldable pub start_input : Mode → StartArgs → Db → Result StartInput
start_input m args db = do
  metadata ← parse_json_object args.metadata
  digest ← require_input_digest args.input_digest
  company ← run_lineage args.lead_id args.company_id db
  workflow ← require_text (argument args.workflow) 200
  refuse_if (m.workflow_mode && not (member workflow fixed_workflow_ids))
      (vcops_error "unsupported_workflow" 2)
  key ← require_text (argument args.idempotency_key) 300
  ok (record {
    workflow = workflow;
    key = key;
    company = company;
    digest = digest;
    metadata = metadata;
  })

-- The row of the INSERT, whose `input_hash` covers the lineage, the metadata and the digest.
unfoldable pub requested_run : Digests → StartArgs → StartInput → Run
requested_run digests args i =
    let hashed : HashedRequest = record {
      workflow = i.workflow;
      lead_id = args.lead_id;
      company_id = i.company;
      external_flow_id = args.external_flow_id;
      metadata = i.metadata;
      input_digest = i.digest;
    } in
    queued_run args.run_id i.workflow i.key args.lead_id i.company (digests.sha256_json hashed)
      i.digest (digests.db_json i.metadata)

unfoldable pub cmd_workflow_start : Digests → Mode → StartArgs → Db → Result (Reply × Db)
cmd_workflow_start digests m args db = do
  input ← start_input m args db
  open_run m (requested_run digests args input) db

abbrev pub lacks_digest : Option String → Option String → Bool
lacks_digest (some _) none = true
lacks_digest _ _ = false

-- The two texts that the probe and the reconciliation check first.
unfoldable pub fixed_request : Option String → Option String → Result (String × String)
fixed_request workflow idempotency_key = do
  name ← require_text (argument workflow) 200
  refuse_if (not (member name fixed_workflow_ids)) (vcops_error "workflow_not_fixed" 1)
  key ← require_text (argument idempotency_key) 300
  ok (name, key)

unfoldable pub probe_run : Mode → String → String → Option String → Db → Result (Reply × Db)
probe_run m workflow key digest db = elim (find_key workflow key db.runs) [
  | none ↦ ok (replay_probed absent none, db)
  | some existing ↦
      if lacks_digest digest existing.input_digest
      then ok (replay_probed unverifiable (some existing), db)
      else (do
        assert_replay_matches existing none digest
        answer_replay (λ outcome row. replay_probed outcome (some row)) m existing db)
]

unfoldable pub cmd_workflow_replay_probe :
    Mode → Option String → Option String → Option String → Db → Result (Reply × Db)
cmd_workflow_replay_probe m workflow idempotency_key input_digest db = do
  (name, key) ← fixed_request workflow idempotency_key
  digest ← require_input_digest input_digest
  probe_run m name key digest db

unfoldable pub cmd_workflow_transition :
    Digests → Mode → String → Status → ℕ → Option String → Loaded → Db → Result (Reply × Db)
cmd_workflow_transition digests m run_id target expected error result db = do
  fields ← parse_json_object result
  (row, db') ← transition_run m run_id target expected error (digests.db_json fields) db
  ok (transitioned_run row, db')

-- The JSON text of `{"reconciled_by": "fixed_vcrun", "failure_class": reason}`.
abbrev pub reconciled_result : String → String
reconciled_result reason =
    String.◌++◌ "{\"failure_class\":\"" (String.◌++◌ reason "\",\"reconciled_by\":\"fixed_vcrun\"}")

unfoldable pub reconcile_run : Mode → String → String → String → Db → Result (Reply × Db)
reconcile_run m workflow key reason db = elim (find_key workflow key db.runs) [
  | none ↦ ok (failure_reconciled not_started none, db)
  | some current ↦
      if same_status current.status failed
      then ok (failure_reconciled already_failed (some current), db)
      else if status_in (succeeded ∷ cancelled ∷ lost ∷ []) current.status
      then deny_exit "terminal_reconciliation_refused" 1
      else (do
        (row, db') ←
            transition_run m current.run_id failed current.record_version (some reason)
              (reconciled_result reason) db
        ok (failure_reconciled transitioned_failed (some row), db'))
]

unfoldable pub cmd_workflow_reconcile_failure :
    Mode → Option String → Option String → String → Db → Result (Reply × Db)
cmd_workflow_reconcile_failure m workflow idempotency_key reason db = do
  (name, key) ← fixed_request workflow idempotency_key
  refuse_if (not (member reason runner_failure_classes)) (vcops_error "invalid_failure_class" 2)
  reconcile_run m name key reason db

-- A running run is asked to cancel, and is ended at once only under `--terminal`.
unfoldable pub cancel_running : Mode → Bool → Run → ℕ → String → Db → Result (Reply × Db)
cancel_running m terminal row expected reason db = do
  (asked, db') ← request_workflow_cancel row.run_id expected (runtime_actor m) reason db
  elim terminal [
    | true ↦ do
      (ended, db'') ←
          transition_run m row.run_id cancelled asked.record_version (some reason) "{}" db'
      ok (cancel_replied ended false, db'')
    | false ↦ ok (cancel_replied asked true, db')
  ]

abbrev pub is_other_workflow : Option String → String → Bool
is_other_workflow none workflow = false
is_other_workflow (some wanted) workflow = not (str_eq workflow wanted)

unfoldable pub cancel_row : Mode → Bool → Run → ℕ → String → Db → Result (Reply × Db)
cancel_row m terminal row expected reason db =
    if status_in terminal_run_states row.status
    then ok (already_terminal row, db)
    else if status_in (started ∷ running ∷ []) row.status
    then cancel_running m terminal row expected reason db
    else (do
      (ended, db') ← transition_run m row.run_id cancelled expected (some reason) "{}" db
      ok (cancel_replied ended false, db'))

unfoldable pub cmd_workflow_cancel :
    Mode → String → ℕ → String → Bool → Option String → Db → Result (Reply × Db)
cmd_workflow_cancel m run_id expected reason terminal expected_workflow db = do
  refuse_if (terminal && not m.operator_mode) (vcops_error "operator_required" 1)
  elim (find_run run_id db.runs) [
    | none ↦ deny_exit "not_found" 1
    | some row ↦ do
      refuse_if (is_other_workflow expected_workflow row.workflow_id)
          (vcops_error "workflow_mismatch" 1)
      refuse_if (not (row.record_version == expected)) (vcops_error "revision_conflict" 1)
      cancel_row m terminal row expected reason db
  ]
