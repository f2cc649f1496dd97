-- ===== src/Tests/Arguments.antt =====
-- The arguments of the launcher and the operator's control at concrete inputs.
use venture_capital_lead_res.Prelude.{
  ℕ, ◌≡◌, ◌⊎◌, refl, String, code, true, false, none, some, [], ◌∷◌, strip, lstrip, rstrip,
  all_chars, not, inl, inr, Bool-cases, if◌then◌else◌, arith,
}
use venture_capital_lead_res.Json.{pos, boolean, str, obj, field, end}
use venture_capital_lead_res.Validate.Checks.{loaded, is_positive_shape, digits_value}
use venture_capital_lead_res.Runner.Helper.{returned, Helped, helped, HelperCall}
use venture_capital_lead_res.Runner.Child.{idle, chunk, closed, Child, Decoders}
use venture_capital_lead_res.Runner.Launch.{Launched}
use venture_capital_lead_res.Runner.Contracts.{
  contract_of, find_contract, workflows, unclassified_id_arg_keys, unclassified, contract_keys,
}
use venture_capital_lead_res.Runner.Args.{
  Args, RawArgs, load_args, names_of, matches_contract, text_args, value_of, is_idempotency_key,
  check_bigints, canonical_bigint, check_kinds, checked_args, set_value,
}
use venture_capital_lead_res.Runner.Rules.{
  Codecs, split_dots, ends_domain, is_label, is_top_label, ends_alnum, is_domain, rstrip_dots,
  bare_domain, json_object_string, json_object_rules, check_preferences, sourced_args, ruled_args,
  validate_workflow_args,
}
use venture_capital_lead_res.Runner.Conforms.{
  Conforms, has_returned, is_ok, vcops_bigint, has_returned-canonical_bigint,
  validate_workflow_args-Conforms,
}
use venture_capital_lead_res.Runner.Domain.{is_plain, is_upper, LowersAscii, bare_domain-again}
use venture_capital_lead_res.Runner.Main.{main_run}
use venture_capital_lead_res.Runner.Bound.{Unbegun, Bound, main_run-Bound}
use venture_capital_lead_res.Runner.Control.{approve_no, ControlArgs, Cancellation, control_main}
use venture_capital_lead_res.Runner.Ends.{Ends, control_main-Ends}

has_returned-canonical_bigint_example :
    has_returned (canonical_bigint false "9223372036854775808")
    ≡ is_ok (vcops_bigint false "9223372036854775808")
has_returned-canonical_bigint_example = has_returned-canonical_bigint false "9223372036854775808"

abbrev codecs : Codecs
codecs = record {
  path_parts = λ text. text ∷ [];
  lower = λ text. text;
  loads = λ text. some (obj end);
  loads_any = λ text. none;
  dumps = λ value. "{}";
}

abbrev raw : RawArgs
raw = record {
  bytes = 90;
  value = loaded (
      obj (
        field "idempotency_key" (str "k1")
          (field "lead_id" (str "7") (field "evidence_json" (str "{ }") end))));
}

abbrev accepted : Args
accepted = ("idempotency_key", "k1") ∷ ("lead_id", "7") ∷ ("evidence_json", "{}") ∷ []

is_accepted : validate_workflow_args codecs "evidence-record" raw ≡ returned accepted
unfolding validate_workflow_args contract_of find_contract workflows load_args checked_args names_of
    matches_contract text_args value_of is_idempotency_key unclassified_id_arg_keys unclassified
    contract_keys check_bigints canonical_bigint is_positive_shape digits_value ruled_args
    sourced_args check_kinds check_preferences json_object_rules json_object_string set_value
is_accepted = refl

validate_workflow_args-Conforms_example : Conforms "evidence-record" accepted
validate_workflow_args-Conforms_example =
    validate_workflow_args-Conforms codecs "evidence-record" raw accepted is_accepted

-- A `lower` that keeps the texts it is documented to keep, and drops the others.
unfoldable plain_lower : String → String
plain_lower text = if all_chars is_plain text then text else ""

not_upper : (c : ℕ) → is_plain c ≡ true → not (is_upper c) ≡ true
not_upper c h = ground arith

plain-lowered :
    (s : String) → all_chars is_plain s ≡ true → all_chars (λ c. not (is_upper c)) s ≡ true
plain-lowered String.[] h = refl
plain-lowered (String.◌∷◌ c s) h =
    let first = not_upper (code c) (ground arith) in
    let rest = plain-lowered s (ground arith) in ground arith

plain_lower-LowersAscii : LowersAscii plain_lower
unfolding plain_lower
plain_lower-LowersAscii = record {
  lowered = λ s. elim (Bool-cases (all_chars is_plain s)) [
    | inl plain ↦ rw plain (plain-lowered s plain)
    | inr other ↦ rw other refl
  ];
  fixes = λ s plain. rw plain refl;
}

abbrev plain_codecs : Codecs
plain_codecs = record codecs { lower = plain_lower }

bare : bare_domain plain_codecs " example.org. " ≡ returned "example.org"
unfolding bare_domain strip lstrip rstrip plain_lower rstrip_dots is_domain split_dots ends_domain
    is_label is_top_label ends_alnum
bare = refl

bare_domain-again_example : bare_domain plain_codecs "example.org" ≡ returned "example.org"
bare_domain-again_example =
    bare_domain-again plain_codecs " example.org. " "example.org" plain_lower-LowersAscii bare

abbrev helper : HelperCall → ℕ → Helped × ℕ
helper call calls = (
  helped (pos 0) 100 (
      some (
        obj (
          field "ok" (boolean true)
            (field "workflow_replay_probe" (obj (field "outcome" (str "absent") end)) end)))),
  calls,
)

abbrev decoders : Decoders
decoders = record {
  decode = λ bytes. "{}";
  raw_decode = λ text. some (obj end, "");
  lower = λ text. text;
}

abbrev child : Child
child = record { rounds = idle ∷ chunk (123 ∷ 125 ∷ []) ∷ closed ∷ []; status = some (pos 1) }

abbrev launched : Launched ℕ
launched =
    main_run codecs (λ text. "digest") (λ args. "{}") (λ calls. returned tt) helper
      (λ args calls. (returned child, calls)) decoders "evidence-record" raw 4

main_run-Bound_example :
    Unbegun codecs
      (λ text. "digest")
      (λ args. "{}")
      (λ calls. returned tt)
      helper
      (λ args calls. (returned child, calls))
      decoders
      "evidence-record"
      raw
      4
      launched
    ⊎ Bound codecs
        (λ text. "digest")
        (λ args. "{}")
        (λ calls. returned tt)
        helper
        (λ args calls. (returned child, calls))
        decoders
        "evidence-record"
        raw
        4
        launched
main_run-Bound_example =
    main_run-Bound codecs (λ text. "digest") (λ args. "{}") (λ calls. returned tt) helper
      (λ args calls. (returned child, calls)) decoders "evidence-record" raw 4

abbrev control : ControlArgs
control = record {
  approval_id = "0123abcd";
  run_id = some "r";
  expected_revision = some (pos 3);
  decision = approve_no;
}

-- vcops answers that the run is cancelled; the world counts the calls.
abbrev cancel_helper : Cancellation → ℕ → Helped × ℕ
cancel_helper c calls = (
  helped (pos 0) 100 (
      some (
        obj (
          field "ok" (boolean true)
            (field "workflow_run" (obj (field "status" (str "cancelled") end)) end)))),
  calls,
)

control_main-Ends_example :
    Ends cancel_helper
      (λ calls. returned tt)
      (λ approval_id decision operator calls. (returned child, calls))
      decoders
      "ops:1"
      control
      4
      (control_main cancel_helper
        (λ calls. returned tt)
        (λ approval_id decision operator calls. (returned child, calls))
        decoders
        "ops:1"
        control
        4)
control_main-Ends_example =
    control_main-Ends cancel_helper (λ calls. returned tt)
      (λ approval_id decision operator calls. (returned child, calls)) decoders "ops:1" control 4
