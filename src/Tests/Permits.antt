-- ===== src/Tests/Permits.antt =====
-- The approval commands and the erasure at concrete arguments.
use venture_capital_lead_res.Prelude.{
  ℕ, ◌≡◌, refl, String, false, Option, none, some, List, [], ◌∷◌, map, strip, is_all_spaces,
}
use venture_capital_lead_res.Fail.{ok}
use venture_capital_lead_res.Json.{Json, str, Fields, field, end, get, get_field}
use venture_capital_lead_res.Validate.Checks.{
  require_text, is_hex_text, positive_bigint, is_positive_shape, bounded_bigint, digits_value,
  loaded, parse_json_object,
}
use venture_capital_lead_res.Table.{update_first}
use venture_capital_lead_res.Approvals.Rows.{approved, is_status, Approval, FactRow, Ledger}
use venture_capital_lead_res.Approvals.Sql.{
  spent, consume_approval, consume_approval_and_erase_lead, erase_lead, approval_edge,
  update_approval, matches_action, names_lead, tombstones, tombstone, is_live, is_superseded,
  count_rows, archive,
}
use venture_capital_lead_res.Approvals.Handlers.{
  Keys, EraseArgs, approval_token_hash, lead_input, erase_input, cmd_data_erase_lead,
}
use venture_capital_lead_res.Approvals.Serve.{Command, approval_consume, data_erase_lead, serve}
use venture_capital_lead_res.Approvals.Moves.{Evolves}
use venture_capital_lead_res.Approvals.Erase.{serve-Evolves}
use venture_capital_lead_res.Approvals.Permitted.{Permitted, cmd_data_erase_lead-Permitted}
use venture_capital_lead_res.Approvals.Once.{succeeds, cmd_data_erase_lead-once}
use venture_capital_lead_res.Approvals.Cleared.{Cleared, cmd_data_erase_lead-Cleared}
use venture_capital_lead_res.Approvals.Permits.{PermitSteps}
use venture_capital_lead_res.Approvals.Refines.{permits, serve-Steps}

abbrev digest : String
digest = "0123456789abcdef0123456789abcdef0123456789abcdef0123456789abcdef"

abbrev scope : Fields
scope = field "lead_id" (str "7") end

abbrev text : Json → String
text (str s) = s
text _ = "None"

abbrev sql_text : Json → Option String
sql_text (str s) = some s
sql_text _ = none

abbrev keys : Keys
keys = record {
  hmac = λ key message. digest;
  pepper = "pepper";
  sha256_json = λ fields. digest;
  py_str = text;
  sql_text = sql_text;
  decimal = λ n. "7";
}

abbrev permit : Approval
permit = record {
  request_id = "r";
  idempotency_key = "k";
  token_hash = digest;
  scope_hash = digest;
  scope = scope;
  action_type = "data.erase_lead";
  target_system = "db";
  lead_id = some 7;
  payload_hash = digest;
  status = approved;
  requested_by = "a";
  approver_id = some "o";
  approval_channel_id = some "c";
  requested_at = 1;
  issued_at = some 2;
  expires_at = 100;
  consumed_at = none;
  governed_transaction_id = none;
}

abbrev fact : FactRow
fact = record {
  id = 1;
  lead_id = some 7;
  fact_type = "arr";
  values = some "1";
  is_retracted = false;
  supersedes = none;
  version = 1;
}

abbrev ledger : Ledger
ledger = record {
  approvals = permit ∷ [];
  leads = record { id = 7; status = "active" } ∷ [];
  facts = fact ∷ [];
  next_fact = 2;
  clock = 50;
}

abbrev args : EraseArgs
args = record {
  lead_id = some "7";
  scope = loaded (Json.obj scope);
  payload_hash = some digest;
  token = some "token";
  target_system = some "db";
  transaction_id = some "t";
  actor = some "operator";
}

abbrev left : Ledger
left = record {
  approvals = spent 50 "t" permit ∷ [];
  leads = record { id = 7; status = "archived" } ∷ [];
  facts = fact ∷ tombstone 2 fact ∷ [];
  next_fact = 3;
  clock = 50;
}

erased : cmd_data_erase_lead keys args ledger ≡ ok (1, left)
unfolding cmd_data_erase_lead erase_input lead_input positive_bigint is_positive_shape
    bounded_bigint digits_value parse_json_object get get_field require_text strip is_hex_text
    approval_token_hash consume_approval_and_erase_lead consume_approval is_status matches_action
    is_all_spaces update_approval approval_edge update_first spent names_lead erase_lead tombstones
    tombstone is_live is_superseded count_rows archive
erased = refl

abbrev script : List (ℕ × Command)
script = (51, data_erase_lead args) ∷ (52, approval_consume) ∷ []

serve-Evolves_example : Evolves (permit ∷ []) (serve keys ledger script).approvals
serve-Evolves_example = serve-Evolves keys script ledger

serve-Steps_example :
    PermitSteps
      (map (λ (c : ℕ × Command). c.0) script)
      (permits ledger)
      (permits (serve keys ledger script))
serve-Steps_example = serve-Steps keys script ledger

cmd_data_erase_lead-Permitted_example : Permitted keys args ledger left
cmd_data_erase_lead-Permitted_example = cmd_data_erase_lead-Permitted keys args ledger left 1 erased

cmd_data_erase_lead-Cleared_example :
    (lead : ℕ) × (positive_bigint (some "7") ≡ ok (some lead)) × Cleared lead ledger left
cmd_data_erase_lead-Cleared_example = cmd_data_erase_lead-Cleared keys args ledger left 1 erased

cmd_data_erase_lead-once_example :
    succeeds (cmd_data_erase_lead keys args (record (serve keys left script) { clock = 60 }))
    ≡ false
cmd_data_erase_lead-once_example =
    cmd_data_erase_lead-once keys args args ledger left 1 script 60 refl erased
