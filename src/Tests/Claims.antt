-- ===== src/Tests/Claims.antt =====
-- The claim of an outer workflow request at concrete arguments.
use venture_capital_lead_res.Prelude.{
  ◌≡◌, refl, String, true, false, none, some, [], ◌∷◌, strip, lstrip, rstrip,
}
use venture_capital_lead_res.Fail.{ok}
use venture_capital_lead_res.Validate.Checks.{require_text}
use venture_capital_lead_res.Runner.Rules.{rstrip_dots}
use venture_capital_lead_res.Preferences.Handlers.{append_text}
use venture_capital_lead_res.Claims.Claim.{claim, claim_all}
use venture_capital_lead_res.Claims.Handlers.{
  Tools, WorkflowRequest, RequestClaimArgs, has_request_key, has_scheme, has_two_dots, drop_www,
  canonical_host, normalize_domain, extra_fields, requested_row, request_hash_of,
  cmd_workflow_request_claim,
}
use venture_capital_lead_res.Claims.Bound.{cmd_workflow_request_claim-again}

abbrev digest : String
digest = "0123456789abcdef0123456789abcdef0123456789abcdef0123456789abcdef"

abbrev tools : Tools
tools = record {
  sha256 = λ text. digest;
  sha256_json = λ fields. digest;
  lower = λ text. text;
  hostname = λ text. some (some "www.example.org");
  below_media = λ path. none;
  version = "3.0.0";
  gate = record {
    sign = λ text. "bb";
    load = λ text. none;
    key_length = some 32;
    relative_parts = λ path. none;
    unit = 1;
  };
}

abbrev args : RequestClaimArgs
args = record {
  workflow = some "outbound-scout";
  idempotency_key = some "k1";
  company_name = some "Example";
  company_domain = some "www.example.org";
  lead_title = some "Seed";
  document_path = none;
  document_sha256 = none;
  channel_provider = none;
  channel_account_id = none;
  channel_event_id = none;
}

abbrev row : WorkflowRequest
row = record {
  workflow_id = "outbound-scout";
  idempotency_key = "k1";
  request_hash = digest;
  document_sha256 = none;
}

abbrev other : WorkflowRequest
other = record {
  workflow_id = "outbound-scout";
  idempotency_key = "k2";
  request_hash = digest;
  document_sha256 = none;
}

made : requested_row tools args ≡ ok row
unfolding requested_row require_text strip lstrip rstrip normalize_domain has_scheme append_text
    rstrip_dots drop_www canonical_host has_two_dots extra_fields
made = refl

claimed : cmd_workflow_request_claim tools args [] ≡ ok ((row, false), row ∷ [])
unfolding cmd_workflow_request_claim requested_row require_text strip lstrip rstrip normalize_domain
    has_scheme append_text rstrip_dots drop_www canonical_host has_two_dots extra_fields claim
    has_request_key
claimed = refl

cmd_workflow_request_claim-again_example :
    cmd_workflow_request_claim tools args
      (claim_all has_request_key request_hash_of (other ∷ []) (row ∷ []))
    ≡ ok ((row, true), claim_all has_request_key request_hash_of (other ∷ []) (row ∷ []))
cmd_workflow_request_claim-again_example =
    cmd_workflow_request_claim-again tools args args row row row [] (row ∷ []) (other ∷ []) false
      made made refl refl claimed
