-- ===== src/Runs/Rows.antt =====
-- The row of `workflow_runs` and the tables that the handlers read and write
-- (migrations/001_initial_v2.sql, 011, 012 and 018).
use venture_capital_lead_res.Prelude.{
  ℕ, String, Bool, ◌&&◌, Option, List, [], ◌∷◌, str_eq, find, if◌then◌else◌, none, some, ◌==◌,
}
use venture_capital_lead_res.Runs.Status.{Status}

-- Times are seconds of `clock_timestamp()`; `input_hash` and `input_digest` are texts of digests.
pub record Run : Type 0 where
  pub run_id : String
  pub workflow_id : String
  pub idempotency_key : String
  pub lead_id : Option ℕ
  pub company_id : Option ℕ
  pub input_hash : String
  pub input_digest : Option String
  pub status : Status
  pub flow_revision : ℕ
  pub record_version : ℕ
  pub attempt : ℕ
  pub started_at : Option ℕ
  pub heartbeat_at : Option ℕ
  pub finished_at : Option ℕ
  pub cancel_requested_at : Option ℕ
  pub cancelled_by : Option String
  pub cancellation_reason : Option String
  pub error_class : Option String
  pub error_message : Option String
  pub result : String

pub record AuditEvent : Type 0 where
  pub event_type : String
  pub actor_id : String
  pub workflow_run : String
  pub before_status : Status
  pub before_version : ℕ
  pub after_status : Status
  pub after_version : ℕ

-- `leads` gives a lead's company, if it has one. `clock` is the time of the statement that runs.
pub record Db : Type 0 where
  pub runs : List Run
  pub audit_events : List AuditEvent
  pub leads : List (ℕ × Option ℕ)
  pub companies : List ℕ
  pub clock : ℕ

-- `SELECT company_id FROM leads WHERE id = ...`.
unfoldable pub lead_company : ℕ → List (ℕ × Option ℕ) → Option (Option ℕ)
lead_company lead [] = none
lead_company lead ((l, c) ∷ rest) =
    let later = lead_company lead rest in if l == lead then some c else later

-- `WHERE run_id = ...` and `WHERE workflow_id = ... AND idempotency_key = ...`.
abbrev pub has_run_id : String → Run → Bool
has_run_id run_id r = str_eq r.run_id run_id

abbrev pub has_key : String → String → Run → Bool
has_key workflow key r = str_eq r.workflow_id workflow && str_eq r.idempotency_key key

unfoldable pub find_run : String → List Run → Option Run
find_run run_id rows = find (has_run_id run_id) rows

unfoldable pub find_key : String → String → List Run → Option Run
find_key workflow key rows = find (has_key workflow key) rows

-- `UPDATE ... WHERE id = prior.id`: the row that a `SELECT ... WHERE run_id = ...` has found.
unfoldable pub replace_run : String → Run → List Run → List Run
replace_run run_id new [] = []
replace_run run_id new (r ∷ rows) =
    let rest = replace_run run_id new rows in if has_run_id run_id r then new ∷ rows else r ∷ rest
