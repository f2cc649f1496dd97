-- ===== src/Approvals/Handlers.antt =====
-- `cmd_approval_request`, `cmd_approval_decide`, `cmd_approval_consume` and `cmd_data_erase_lead` of
-- vcops.py.
use venture_capital_lead_res.Prelude.{
  ℕ, ◌+◌, ◌*◌, String, Bool, not, ◌&&◌, Option, none, some, str_eq, is_blank, leb, if◌then◌else◌,
}
use venture_capital_lead_res.Fail.{vcops_error, Result, ok, deny, deny_exit, refuse_if, ◌>>=◌, ◌>>◌}
use venture_capital_lead_res.Json.{Json, Fields, get, argument}
use venture_capital_lead_res.Validate.Checks.{
  require_text, is_hex_text, is_operator_id, positive_bigint, Loaded, parse_json_object,
}
use venture_capital_lead_res.Approvals.Rows.{Approval, pending, Ledger}
use venture_capital_lead_res.Approvals.Sql.{
  insert_approval, decide_approval, consume_approval_and_erase_lead,
}

-- `hmac` is the HMAC-SHA-256 of a key and a text in hexadecimal, `pepper` the deployment's key;
-- `sha256_json` digests an object; `py_str` is Python's `str` of a JSON value, `sql_text` is
-- PostgreSQL's `->>` and `decimal` the text of a number.
pub record Keys : Type 0 where
  pub hmac : String → String → String
  pub pepper : String
  pub sha256_json : Fields → String
  pub py_str : Json → String
  pub sql_text : Json → Option String
  pub decimal : ℕ → String

-- `expires_minutes` is a number that is not negative: a negative one is refused as 0 is. The expiry
-- is computed by the clock of the database. `request_id` is the fresh `uuid4`, `token` the fresh random token.
pub record RequestArgs : Type 0 where
  pub request_id : String
  pub token : String
  pub idempotency_key : Option String
  pub expires_minutes : ℕ
  pub scope : Loaded
  pub limits : Loaded
  pub action_preview : Loaded
  pub payload_hash : Option String
  pub action : Option String
  pub target_system : Option String
  pub lead_id : Option ℕ
  pub requested_by : Option String

pub record DecideArgs : Type 0 where
  pub request_id : String
  pub approve : Bool
  pub approver : Option String
  pub approval_channel : Option String
  pub reason : Option String

pub record EraseArgs : Type 0 where
  pub lead_id : Option String
  pub scope : Loaded
  pub payload_hash : Option String
  pub token : Option String
  pub target_system : Option String
  pub transaction_id : Option String
  pub actor : Option String

-- `AGENT_MODE`, and the operator mode and the stripped operator id of the environment.
pub record Lane : Type 0 where
  pub agent_mode : Bool
  pub operator_mode : Bool
  pub operator_id : String

unfoldable pub approval_token_hash : Keys → String → Result String
approval_token_hash k token =
    if is_blank k.pepper then deny_exit "approval_pepper_missing" 3 else ok (k.hmac k.pepper token)

-- `args.payload_hash or sha256_json(action_preview)`.
abbrev pub given_or : Option String → String → String
given_or none computed = computed
given_or (some text) computed = if is_blank text then computed else text

unfoldable pub requested : Keys → RequestArgs → Fields → String → String → Ledger → Result Approval
requested k args scope payload_hash token_hash db = do
  key ← require_text (argument args.idempotency_key) 300
  action ← require_text (argument args.action) 200
  target ← require_text (argument args.target_system) 200
  by ← require_text (argument args.requested_by) 300
  ok (record {
    request_id = args.request_id;
    idempotency_key = key;
    token_hash = token_hash;
    scope_hash = k.sha256_json scope;
    scope = scope;
    action_type = action;
    target_system = target;
    lead_id = args.lead_id;
    payload_hash = payload_hash;
    status = pending;
    requested_by = by;
    approver_id = none;
    approval_channel_id = none;
    requested_at = db.clock;
    issued_at = none;
    expires_at = db.clock + args.expires_minutes * 60;
    consumed_at = none;
    governed_transaction_id = none;
  })

-- The one INSERT: the raw token goes out beside the new row.
unfoldable pub store_request : Approval → String → Ledger → Result ((Approval × String) × Ledger)
store_request row token db = do
  (inserted, db') ← insert_approval row db
  elim inserted [
    | none ↦ deny_exit "idempotency_conflict" 1
    | some stored ↦ ok ((stored, token), db')
  ]

unfoldable pub cmd_approval_request :
    Keys → RequestArgs → Ledger → Result ((Approval × String) × Ledger)
cmd_approval_request k args db = do
  refuse_if (not (leb 1 args.expires_minutes && leb args.expires_minutes 10080))
      (vcops_error "invalid_expiry" 2)
  scope ← parse_json_object args.scope
  limits ← parse_json_object args.limits
  preview ← parse_json_object args.action_preview
  refuse_if (not (is_hex_text 64 (given_or args.payload_hash (k.sha256_json preview))))
      (vcops_error "invalid_hash" 2)
  token_hash ← approval_token_hash k args.token
  row ← requested k args scope (given_or args.payload_hash (k.sha256_json preview)) token_hash db
  store_request row args.token db

unfoldable pub is_authenticated : Lane → String → Bool
is_authenticated lane approver =
    (not lane.agent_mode && lane.operator_mode)
    && (not (is_blank lane.operator_id)
        && (is_operator_id approver && str_eq lane.operator_id approver))

unfoldable pub cmd_approval_decide : Lane → DecideArgs → Ledger → Result (Approval × Ledger)
cmd_approval_decide lane args db = do
  approver ← require_text (argument args.approver) 300
  refuse_if (not (is_authenticated lane approver)) (vcops_error "operator_context_required" 1)
  channel ← require_text (argument args.approval_channel) 300
  reason ← require_text (argument args.reason) 2000
  decide_approval args.request_id args.approve approver channel db

unfoldable pub cmd_approval_consume : Ledger → Result (Approval × Ledger)
cmd_approval_consume db = deny_exit "atomic_governed_action_required" 1

-- The values that the checks before the transaction leave.
pub record Erasure : Type 0 where
  pub lead : ℕ
  pub scope : Fields
  pub payload_hash : String
  pub token_hash : String

unfoldable pub lead_input : Keys → EraseArgs → ℕ → Result Erasure
lead_input k args lead = do
  scope ← parse_json_object args.scope
  refuse_if (not (str_eq (k.py_str (get "lead_id" scope)) (k.decimal lead)))
      (vcops_error "scope_lead_mismatch" 1)
  payload_hash ← require_text (argument args.payload_hash) 64
  refuse_if (not (is_hex_text 64 payload_hash)) (vcops_error "invalid_hash" 2)
  token ← require_text (argument args.token) 500
  token_hash ← approval_token_hash k token
  ok (record { lead = lead; scope = scope; payload_hash = payload_hash; token_hash = token_hash })

unfoldable pub erase_input : Keys → EraseArgs → Result Erasure
erase_input k args = do
  named ← positive_bigint args.lead_id
  elim named [ none ↦ deny "invalid_identifier" | some lead ↦ lead_input k args lead ]

unfoldable pub cmd_data_erase_lead : Keys → EraseArgs → Ledger → Result (ℕ × Ledger)
cmd_data_erase_lead k args db = do
  input ← erase_input k args
  target ← require_text (argument args.target_system) 200
  transaction ← require_text (argument args.transaction_id) 200
  actor ← require_text (argument args.actor) 200
  consume_approval_and_erase_lead k.sql_text k.decimal input.lead input.token_hash
      (k.sha256_json input.scope) "data.erase_lead" target input.payload_hash transaction db
