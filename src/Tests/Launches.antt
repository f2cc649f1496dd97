-- ===== src/Tests/Launches.antt =====
-- The launcher, the identities, the facts and the trusted context at concrete inputs.
use venture_capital_lead_res.Prelude.{
  ℕ, ◌≡◌, ◌↔◌, refl, String, true, Option, none, some, [], ◌∷◌, strip, str_eq, if◌then◌else◌,
}
use venture_capital_lead_res.Fail.{Result, ok}
use venture_capital_lead_res.Json.{ℤ, pos, boolean, str, obj, Fields, field, end}
use venture_capital_lead_res.Validate.Checks.{require_text}
use venture_capital_lead_res.Runner.Output.{
  is_prefix, is_infix, letters_and_digits, is_sensitive_key, redact, redact_items, redact_fields,
  AreRedacted, object_at, last_json_object,
}
use venture_capital_lead_res.Runner.Shown.{execute-AreRedacted}
use venture_capital_lead_res.Runner.Helper.{returned, Helped, helped, HelperCall}
use venture_capital_lead_res.Runner.Child.{
  idle, chunk, closed, Child, Decoders, Hook, execute, supervise, killed, conclude, fail_with,
  failure_reason, normalize_lobster_output,
}
use venture_capital_lead_res.Runner.Launch.{run_workflow}
use venture_capital_lead_res.Runner.Settled.{
  Settled, RunOutcome, execute-Settled, run_workflow-RunOutcome,
}
use venture_capital_lead_res.Entities.Resolve.{
  Match, Identity, companies, insert_company, resolve_single, resolve_companies, resolve_unmatched,
  decide_entity_resolution,
}
use venture_capital_lead_res.Entities.Outcomes.{
  Resolved, Unmatched, decide_entity_resolution-Resolved, decide_entity_resolution-Unmatched,
}
use venture_capital_lead_res.Facts.Classify.{
  Fact, number, contradiction, before, ordered_bounds, bounds_of, period_bounds, overlap_of,
  periods_overlap, distance, same_number, same_value, conflicts, comparable_value, is_incomparable,
  is_close, classify_values, classify_optional, classify_fact_pair,
}
use venture_capital_lead_res.Facts.Compared.{classify_fact_pair_comm}
use venture_capital_lead_res.Facts.Grounds.{Contradicts}
use venture_capital_lead_res.Facts.Exact.{classify_fact_pair-exact}
use venture_capital_lead_res.Trust.Uses.{
  Store, Payload, principal_row, upsert_principal, find_use, record_use, consume_trusted_context,
}
use venture_capital_lead_res.Trust.Single.{now, consume_trusted_context-single}

-- The world counts the calls of the helper.
abbrev helper : HelperCall → ℕ → Helped × ℕ
helper call calls = (
  helped (pos 0) 100 (
      some (
        obj (
          field "ok" (boolean true)
            (field "workflow_replay_probe" (obj (field "outcome" (str "absent") end)) end)))),
  calls,
)

abbrev named : String → Option String
named workflow = some workflow

abbrev decoders : Decoders
decoders = record {
  decode = λ bytes. "{}";
  raw_decode = λ text. some (obj end, "");
  lower = λ text. text;
}

abbrev child : Child
child = record { rounds = idle ∷ chunk (123 ∷ 125 ∷ []) ∷ closed ∷ []; status = some (pos 1) }

abbrev hook : Hook ℕ
hook reason calls = (returned (field "ok" (boolean true) end), calls)

execute-Settled_example : Settled hook 4 (execute decoders none (some hook) child 4)
execute-Settled_example = execute-Settled hook 4 decoders child

run_workflow-RunOutcome_example :
    RunOutcome helper named
      (λ calls. returned tt)
      (λ calls. (returned child, calls))
      decoders
      "document-ingest"
      "k1"
      "digest"
      4
      (run_workflow helper named
        (λ calls. returned tt)
        (λ calls. (returned child, calls))
        decoders
        "document-ingest"
        "k1"
        "digest"
        4)
run_workflow-RunOutcome_example =
    run_workflow-RunOutcome helper named (λ calls. returned tt) (λ calls. (returned child, calls))
      decoders "document-ingest" "k1" "digest" 4

-- A child that prints an envelope with a key in it.
abbrev key_decoders : Decoders
key_decoders = record {
  decode = λ bytes. "{}";
  raw_decode = λ text. some (obj (field "api_key" (str "x") end), "");
  lower = λ text. text;
}

abbrev shown : Fields
shown = field "api_key" (str "[REDACTED]") end

shows : (execute key_decoders none (some hook) child 4).payload.lobster ≡ some shown
unfolding execute supervise killed conclude fail_with failure_reason normalize_lobster_output
    last_json_object object_at redact redact_items redact_fields is_sensitive_key is_infix is_prefix
    letters_and_digits strip
shows = refl

execute-AreRedacted_example : AreRedacted (λ text. text) shown
execute-AreRedacted_example = execute-AreRedacted (some hook) 4 key_decoders child shown shows

abbrev by_domain : Match
by_domain = record { company_id = 5; match_method = "verified_domain"; confidence = 990 }

abbrev by_name : Match
by_name = record { company_id = 5; match_method = "name"; confidence = 700 }

abbrev identity : Identity
identity = record { name = some "acme"; domain = some "acme.example" }

resolves :
    (decide_entity_resolution
      (by_name ∷ by_domain ∷ [])
      []
      identity
      "company_creation"
      0).matched_company_id
    ≡ some 5
unfolding decide_entity_resolution companies insert_company resolve_companies resolve_single
resolves = refl

decide_entity_resolution-Resolved_example :
    Resolved (by_name ∷ by_domain ∷ []) identity "company_creation" 0 5
decide_entity_resolution-Resolved_example =
    decide_entity_resolution-Resolved (by_name ∷ by_domain ∷ []) [] identity "company_creation" 0 5
      resolves

decide_entity_resolution-Unmatched_example : Unmatched [] [] identity "company_creation" 0
unfolding decide_entity_resolution resolve_unmatched
decide_entity_resolution-Unmatched_example =
    decide_entity_resolution-Unmatched [] [] identity "company_creation" 0 refl

abbrev facts_field : String → Option String
facts_field name =
    if str_eq name "definition"
    then some "ARR"
    else if str_eq name "period_end"
    then some "2026-01-31"
    else none

abbrev fact : ℕ → Fact
fact n = record { field = facts_field; value_numeric = number (pos n); value = none }

abbrev no_claim : String → Result (Option ℤ)
no_claim text = ok none

contradicting :
    classify_fact_pair (λ text. text) no_claim 1 (fact 100) (fact 120) ≡ ok contradiction
unfolding classify_fact_pair before ordered_bounds bounds_of period_bounds overlap_of
    periods_overlap distance same_number same_value conflicts comparable_value is_incomparable
    is_close classify_values classify_optional
contradicting = refl

classify_fact_pair-comm_example :
    classify_fact_pair (λ text. text) no_claim 1 (fact 120) (fact 100) ≡ ok contradiction
classify_fact_pair-comm_example =
    classify_fact_pair_comm (λ text. text) no_claim 1 (fact 100) (fact 120) contradiction
      contradicting

classify_fact_pair-exact_example :
    (classify_fact_pair (λ text. text) no_claim 1 (fact 100) (fact 120) ≡ ok contradiction)
    ↔ Contradicts (λ text. text) no_claim 1 (fact 100) (fact 120)
classify_fact_pair-exact_example =
    classify_fact_pair-exact (λ text. text) no_claim 1 (fact 100) (fact 120)

abbrev empty : Store
empty = record { next_id = 1; principals = []; uses = [] }

abbrev token : Payload
token = record {
  provider = "slack";
  account_id = "a";
  sender_id = "s";
  nonce = "n";
  event_id = "e";
  run_id = "r";
  scopes = "intake" ∷ [];
}

abbrev used : Store
used = record {
  next_id = 2;
  principals = record { id = 1; provider = "slack"; account_id = "a"; sender_id = "s" } ∷ [];
  uses =
      record {
        principal_id = 1;
        nonce = "n";
        scope = "intake";
        operation_key = "op";
        event_id = "e";
        run_id = "r";
      }
      ∷ [];
}

first_use : consume_trusted_context token "intake" "op" empty ≡ ok (1, used)
unfolding consume_trusted_context upsert_principal principal_row record_use find_use require_text
    strip
first_use = refl

second_use : consume_trusted_context token "intake" " op " used ≡ ok (1, used)
unfolding consume_trusted_context upsert_principal principal_row record_use find_use require_text
    strip
second_use = refl

consume_trusted_context-single_example :
    (◌≡◌ {A = ℕ} 1 1)
    × (require_text (str " op ") 300 ≡ require_text (str "op") 300)
    × (token.event_id ≡ token.event_id)
consume_trusted_context-single_example =
    consume_trusted_context-single token token "intake" "op" " op " empty used used used 1 1
      first_use now refl second_use
