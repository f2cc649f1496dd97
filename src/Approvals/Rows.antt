-- ===== src/Approvals/Rows.antt =====
-- The table `approvals` of migrations/001_initial_v2.sql, and what the erasure of a lead reads and
-- writes of `leads` and `facts`. The columns of the target's tenant and channel, of the company and
-- the run, of the preview, the limits and the note are left out.
use venture_capital_lead_res.Prelude.{ℕ, String, Bool, Option, List, ◌==◌}
use venture_capital_lead_res.Json.{Fields}

pub data ApprovalStatus : Type 0 where
  pending approved rejected revoked expired consumed : ApprovalStatus

abbrev pub number_of : ApprovalStatus → ℕ
number_of pending = 0
number_of approved = 1
number_of rejected = 2
number_of revoked = 3
number_of expired = 4
number_of consumed = 5

unfoldable pub is_status : ApprovalStatus → ApprovalStatus → Bool
is_status a b = number_of a == number_of b

pub record Approval : Type 0 where
  pub request_id : String
  pub idempotency_key : String
  pub token_hash : String
  pub scope_hash : String
  pub scope : Fields
  pub action_type : String
  pub target_system : String
  pub lead_id : Option ℕ
  pub payload_hash : String
  pub status : ApprovalStatus
  pub requested_by : String
  pub approver_id : Option String
  pub approval_channel_id : Option String
  pub requested_at : ℕ
  pub issued_at : Option ℕ
  pub expires_at : ℕ
  pub consumed_at : Option ℕ
  pub governed_transaction_id : Option String

-- `values` stands for the columns that carry what the fact says: `original_value`, the five value
-- columns and `claim_hash`.
pub record FactRow : Type 0 where
  pub id : ℕ
  pub lead_id : Option ℕ
  pub fact_type : String
  pub values : Option String
  pub is_retracted : Bool
  pub supersedes : Option ℕ
  pub version : ℕ

pub record LeadRow : Type 0 where
  pub id : ℕ
  pub status : String

-- `next_fact` is the sequence of `facts.id`; `clock` is the time of the statement that runs.
pub record Ledger : Type 0 where
  pub approvals : List Approval
  pub leads : List LeadRow
  pub facts : List FactRow
  pub next_fact : ℕ
  pub clock : ℕ
