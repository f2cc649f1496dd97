-- ===== src/Runner/Contracts.antt =====
-- The fixed workflows of vcrun.py: the table WORKFLOWS, and how the arguments are classed.
use venture_capital_lead_res.Prelude.{
  ◌≡◌, refl, String, Bool, ◌||◌, Option, none, some, List, [], ◌∷◌, ◌++◌, str_eq, member,
  if◌then◌else◌,
}

pub record Contract : Type 0 where
  pub file : String
  pub database_workflow : String
  pub keys : List String
  pub optional_keys : List String
  pub json_object_keys : List String

unfoldable pub workflows : List (String × Contract)
workflows =
    (
      "evaluate-lead",
      record {
        file = "evaluate-lead.lobster";
        database_workflow = "evaluate-lead";
        keys = "idempotency_key" ∷ "lead_id" ∷ "criteria_json" ∷ "decision_context_json" ∷ [];
        optional_keys = [];
        json_object_keys = "criteria_json" ∷ "decision_context_json" ∷ [];
      },
    )
    ∷ (
      "inbound-intake",
      record {
        file = "inbound-intake.lobster";
        database_workflow = "inbound-intake";
        keys =
            "idempotency_key" ∷ "lead_title" ∷ "company_name" ∷ "company_domain" ∷ "document_path"
            ∷ "channel_provider" ∷ "channel_account_id" ∷ "channel_event_id" ∷ [];
        optional_keys = [];
        json_object_keys = [];
      },
    )
    ∷ (
      "outbound-scout",
      record {
        file = "outbound-scout.lobster";
        database_workflow = "outbound-scout";
        keys = "idempotency_key" ∷ "company_name" ∷ "company_domain" ∷ "lead_title" ∷ [];
        optional_keys = [];
        json_object_keys = [];
      },
    )
    ∷ (
      "runtime-preflight",
      record {
        file = "runtime-preflight.lobster";
        database_workflow = "system.runtime-preflight";
        keys = "idempotency_key" ∷ [];
        optional_keys = [];
        json_object_keys = [];
      },
    )
    ∷ (
      "preference-observe",
      record {
        file = "preference-observe.lobster";
        database_workflow = "preference-observe";
        keys =
            "idempotency_key" ∷ "trusted_context" ∷ "preference_key" ∷ "preference_value"
            ∷ "observation_kind" ∷ [];
        optional_keys = [];
        json_object_keys = [];
      },
    )
    ∷ (
      "preference-forget",
      record {
        file = "preference-forget.lobster";
        database_workflow = "preference-forget";
        keys = "idempotency_key" ∷ "trusted_context" ∷ "preference_key" ∷ [];
        optional_keys = [];
        json_object_keys = [];
      },
    )
    ∷ (
      "document-ingest",
      record {
        file = "document-ingest.lobster";
        database_workflow = "document-ingest";
        keys = "idempotency_key" ∷ "document_path" ∷ "trusted_context" ∷ [];
        optional_keys = [];
        json_object_keys = [];
      },
    )
    ∷ (
      "document-lead-intake",
      record {
        file = "document-lead-intake.lobster";
        database_workflow = "document-lead-intake";
        keys =
            "idempotency_key" ∷ "trusted_context" ∷ "extraction_id" ∷ "lead_title" ∷ "company_name"
            ∷ "company_domain" ∷ [];
        optional_keys = [];
        json_object_keys = [];
      },
    )
    ∷ (
      "evidence-record",
      record {
        file = "evidence-record.lobster";
        database_workflow = "evidence-record";
        keys = "idempotency_key" ∷ "lead_id" ∷ "evidence_json" ∷ [];
        optional_keys = [];
        json_object_keys = "evidence_json" ∷ [];
      },
    )
    ∷ (
      "contradiction-record",
      record {
        file = "contradiction-record.lobster";
        database_workflow = "contradiction-record";
        keys = "idempotency_key" ∷ "lead_id" ∷ "left_fact_id" ∷ "right_fact_id" ∷ "severity" ∷ [];
        optional_keys = [];
        json_object_keys = [];
      },
    )
    ∷ (
      "trajectory-record",
      record {
        file = "trajectory-record.lobster";
        database_workflow = "trajectory-record";
        keys = "idempotency_key" ∷ "lead_id" ∷ "left_fact_id" ∷ "right_fact_id" ∷ [];
        optional_keys = [];
        json_object_keys = [];
      },
    )
    ∷ (
      "memo-record",
      record {
        file = "memo-record.lobster";
        database_workflow = "memo-record";
        keys =
            "idempotency_key" ∷ "lead_id" ∷ "evaluation_id" ∷ "compiled_truth_id" ∷ "memo_title"
            ∷ "memo_markdown" ∷ "citations_json" ∷ "evidence_hash" ∷ [];
        optional_keys = [];
        json_object_keys = [];
      },
    )
    ∷ (
      "source-watch",
      record {
        file = "source-watch.lobster";
        database_workflow = "system.source-watch";
        keys =
            "idempotency_key" ∷ "source_name" ∷ "source_uri" ∷ "source_class" ∷ "cadence"
            ∷ "thesis_relevance" ∷ "expected_signal" ∷ [];
        optional_keys = [];
        json_object_keys = [];
      },
    )
    ∷ (
      "source-unwatch",
      record {
        file = "source-unwatch.lobster";
        database_workflow = "system.source-unwatch";
        keys = "idempotency_key" ∷ "source_uri" ∷ [];
        optional_keys = [];
        json_object_keys = [];
      },
    )
    ∷ (
      "source-scan",
      record {
        file = "source-scan.lobster";
        database_workflow = "system.source-scan";
        keys = "idempotency_key" ∷ "limit" ∷ [];
        optional_keys = [];
        json_object_keys = [];
      },
    )
    ∷ (
      "inbound-text-intake",
      record {
        file = "inbound-text-intake.lobster";
        database_workflow = "inbound-text-intake";
        keys =
            "idempotency_key" ∷ "lead_title" ∷ "company_name" ∷ "company_domain" ∷ "origin_subtype"
            ∷ [];
        optional_keys = [];
        json_object_keys = [];
      },
    )
    ∷ (
      "orchestration-record",
      record {
        file = "orchestration-record.lobster";
        database_workflow = "orchestration-record";
        keys = "idempotency_key" ∷ "lead_id" ∷ "record_kind" ∷ "specialist" ∷ "payload_json" ∷ [];
        optional_keys = "flow_id" ∷ "task_id" ∷ "flow_revision" ∷ [];
        json_object_keys = "payload_json" ∷ [];
      },
    )
    ∷ (
      "proposal-record",
      record {
        file = "proposal-record.lobster";
        database_workflow = "system.proposal-record";
        keys = "idempotency_key" ∷ "proposal_kind" ∷ "title" ∷ "summary" ∷ "content_json" ∷ [];
        optional_keys = [];
        json_object_keys = "content_json" ∷ [];
      },
    )
    ∷ []

unfoldable pub find_contract : String → List (String × Contract) → Option Contract
find_contract workflow [] = none
find_contract workflow ((name, contract) ∷ rest) =
    let later = find_contract workflow rest in if str_eq name workflow then some contract else later

unfoldable pub contract_of : String → Option Contract
contract_of workflow = find_contract workflow workflows

abbrev pub bigint_id_arg_keys : List String
bigint_id_arg_keys =
    "lead_id" ∷ "left_fact_id" ∷ "right_fact_id" ∷ "extraction_id" ∷ "evaluation_id"
    ∷ "compiled_truth_id" ∷ []

abbrev pub non_negative_bigint_arg_keys : List String
non_negative_bigint_arg_keys = "flow_revision" ∷ []

abbrev pub opaque_text_id_arg_keys : List String
opaque_text_id_arg_keys = "channel_account_id" ∷ "channel_event_id" ∷ "flow_id" ∷ "task_id" ∷ []

abbrev pub non_identifier_arg_keys : List String
non_identifier_arg_keys =
    "cadence" ∷ "channel_provider" ∷ "citations_json" ∷ "company_domain" ∷ "company_name"
    ∷ "content_json" ∷ "criteria_json" ∷ "decision_context_json" ∷ "document_path" ∷ "evidence_hash"
    ∷ "evidence_json" ∷ "expected_signal" ∷ "idempotency_key" ∷ "lead_title" ∷ "limit"
    ∷ "memo_markdown" ∷ "memo_title" ∷ "observation_kind" ∷ "origin_subtype" ∷ "payload_json"
    ∷ "preference_key" ∷ "preference_value" ∷ "proposal_kind" ∷ "record_kind" ∷ "severity"
    ∷ "source_class" ∷ "source_name" ∷ "source_uri" ∷ "specialist" ∷ "summary" ∷ "thesis_relevance"
    ∷ "title" ∷ "trusted_context" ∷ []

abbrev pub is_classified : String → Bool
is_classified key =
    (member key bigint_id_arg_keys || member key non_negative_bigint_arg_keys)
    || (member key opaque_text_id_arg_keys || member key non_identifier_arg_keys)

-- `UNCLASSIFIED_ID_ARG_KEYS`.
unfoldable pub unclassified : List String → List String
unclassified [] = []
unclassified (key ∷ keys) =
    let rest = unclassified keys in if is_classified key then rest else key ∷ rest

unfoldable pub contract_keys : List (String × Contract) → List String
contract_keys [] = []
contract_keys ((name, c) ∷ rest) = (c.keys ++ c.optional_keys) ++ contract_keys rest

unfoldable pub unclassified_id_arg_keys : List String
unclassified_id_arg_keys = unclassified (contract_keys workflows)

-- Each argument of each contract is classified.
unclassified_none : unclassified_id_arg_keys ≡ []
unfolding unclassified_id_arg_keys unclassified contract_keys workflows
unclassified_none = refl
