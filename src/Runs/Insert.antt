-- ===== src/Runs/Insert.antt =====
-- The INSERT of `cmd_workflow_start` into `workflow_runs`, with the trigger and the
-- constraints that it can meet: the lineage trigger of migrations/004, the scope check of migrations/011, UNIQUE (workflow_id, idempotency_key) as the conflict target,
-- UNIQUE (run_id), and the reference to `companies`.
use text.Mathlib.Text.{starts_with}
use venture_capital_lead_res.Prelude.{
  ℕ, String, Bool, true, not, ◌||◌, Option, none, some, List, [], ◌∷◌, ◌++◌, is_some, any, member,
  ◌==◌, if◌then◌else◌,
}
use venture_capital_lead_res.Fail.{Result, ok, raise_sqlstate, ◌>>◌}
use venture_capital_lead_res.Runs.Status.{queued}
use venture_capital_lead_res.Runs.Rows.{Run, Db, lead_company, find_run, find_key}

-- `workflow_runs_scope_check`.
unfoldable pub scope_check : Run → Bool
scope_check r =
    is_some r.lead_id
    || is_some r.company_id
    || starts_with r.workflow_id "system."
    || member r.workflow_id ("preference-observe" ∷ "preference-forget" ∷ "document-ingest" ∷ [])

abbrev known_company : List ℕ → Option ℕ → Bool
known_company companies none = true
known_company companies (some c) = any (λ k. k == c) companies

-- The row of the VALUES list; the columns it leaves out have their defaults.
unfoldable pub queued_run :
    String → String → String → Option ℕ → Option ℕ → String → Option String → String → Run
queued_run run_id workflow key lead company hash digest result = record {
  run_id = run_id;
  workflow_id = workflow;
  idempotency_key = key;
  lead_id = lead;
  company_id = company;
  input_hash = hash;
  input_digest = digest;
  status = queued;
  flow_revision = 0;
  record_version = 1;
  attempt = 1;
  started_at = none;
  heartbeat_at = none;
  finished_at = none;
  cancel_requested_at = none;
  cancelled_by = none;
  cancellation_reason = none;
  error_class = none;
  error_message = none;
  result = result;
}

-- The trigger `guard_workflow_lineage`: the lead of a run exists, has a company, and that is the run's.
unfoldable pub guard_workflow_lineage : Run → Db → Result (Unit {0})
guard_workflow_lineage r db = elim r.lead_id [
  | none ↦ ok tt
  | some lead ↦ elim (lead_company lead db.leads) [
    | none ↦ raise_sqlstate "23503"
    | some none ↦ raise_sqlstate "23514"
    | some (some owner) ↦ elim r.company_id [
      | none ↦ raise_sqlstate "23514"
      | some c ↦ if c == owner then ok tt else raise_sqlstate "23514"
    ]
  ]
]

-- `INSERT ... ON CONFLICT (workflow_id,idempotency_key) DO NOTHING RETURNING ...`: no row comes
-- back where the key is taken.
unfoldable pub insert_run : Run → Db → Result (Option Run × Db)
insert_run r db = do
  guard_workflow_lineage r db
  if not (scope_check r)
      then raise_sqlstate "23514"
      else if is_some (find_key r.workflow_id r.idempotency_key db.runs)
      then ok (none, db)
      else if is_some (find_run r.run_id db.runs)
      then raise_sqlstate "23505"
      else if not (known_company db.companies r.company_id)
      then raise_sqlstate "23503"
      else ok (some r, record db { runs = db.runs ++ r ∷ [] })
