-- ===== src/Tests/Evidence.antt =====
-- The rubric, the score, the facts and the identities at concrete inputs.
use venture_capital_lead_res.Prelude.{
  ℕ, ◌≡◌, ◌≤◌, refl, String, true, false, Option, none, some, [], ◌∷◌, arith, strip,
}
use venture_capital_lead_res.Fail.{ok}
use venture_capital_lead_res.Json.{
  pos, Decimal, boolean, int, str, arr, obj, nil, cons, Fields, field, end, get, get_field,
  field_names,
}
use venture_capital_lead_res.Validate.Checks.{
  positive_bigint, bigint_max, bounded_bigint, is_positive_shape, digits_value, require_text,
}
use venture_capital_lead_res.Validate.Bounds.{positive_bigint-bounded}
use venture_capital_lead_res.Scoring.Rubric.{
  RawRubric, Rubric, Interval, load_rubric, recommendation_for_score, holds_score, load_criteria,
  all_different, check_criteria, check_criterion, is_criterion_key, weight_total, load_readiness,
  between, load_intervals, check_intervals, check_interval, upper_bound,
}
use venture_capital_lead_res.Scoring.Intervals.{Recommended}
use venture_capital_lead_res.Scoring.Sound.{load_rubric-Recommended}
use venture_capital_lead_res.Scoring.Evidence.{
  evidence_ids, collect_ids, evidence_id, IsUnrepeated, evidence_ids-IsUnrepeated,
}
use venture_capital_lead_res.Scoring.Criteria.{
  one_of, check_states, decimal_of, quality_of, quality_score, assess_evidence, assess_states,
  check_fields, assess_fields, assess,
}
use venture_capital_lead_res.Scoring.Context.{
  is_bad_flag, check_context, flag, adjustments, total_gain, total_loss,
}
use venture_capital_lead_res.Scoring.Rounding.{round_half_even}
use venture_capital_lead_res.Scoring.Score.{
  Evaluation, calculate_score, is_covered, covered_names, evaluated_count, covered_weight,
  weighted_points, clamp, missing_checks, overridden, is_unready, lacks_high_gate, decide,
  raw_score, coverage_fraction, display_score, check_weights, assess_all, evaluate,
}
use venture_capital_lead_res.Scoring.Range.{InRange, calculate_score-InRange}
use venture_capital_lead_res.Scoring.Gates.{
  Ready, Prioritised, calculate_score-Ready, calculate_score-Prioritised,
}

-- One criterion of weight 100, and three intervals; a unit is a hundredth.
abbrev interval : String → ℕ → ℕ → Interval
interval name low high = record {
  name = name;
  minimum = pos low;
  maximum_exclusive = some (pos high);
  maximum_inclusive = none;
}

abbrev top_interval : Interval
top_interval = record {
  name = "high_priority";
  minimum = pos 8000;
  maximum_exclusive = none;
  maximum_inclusive = some (pos 10000);
}

abbrev raw_rubric : RawRubric
raw_rubric = record {
  version = "3.0";
  criteria = record { key = "team"; label = "Team"; weight = pos 10000 } ∷ [];
  minimum_evaluated_criteria = pos 1;
  minimum_weighted_coverage = pos 50;
  high_priority_minimum_weighted_coverage = pos 80;
  required_criteria = "team" ∷ [];
  high_priority_required_checks = "contradiction_check_complete" ∷ [];
  recommendation_intervals =
      interval "pass" 0 4000 ∷ interval "watch" 4000 8000 ∷ top_interval ∷ [];
}

abbrev rubric : Rubric
rubric = record {
  criteria = record { key = "team"; label = "Team"; weight = 10000 } ∷ [];
  minimum_count = 1;
  minimum_coverage = 50;
  high_coverage = 80;
  required_criteria = "team" ∷ [];
  required_checks = "contradiction_check_complete" ∷ [];
  intervals = interval "pass" 0 4000 ∷ interval "watch" 4000 8000 ∷ top_interval ∷ [];
}

rubric_loaded : load_rubric 100 raw_rubric ≡ ok rubric
unfolding load_rubric load_criteria all_different check_criteria check_criterion is_criterion_key
    strip weight_total load_readiness between load_intervals check_intervals check_interval
    upper_bound
rubric_loaded = refl

load_rubric-Recommended_example : Recommended 100 72500 rubric.intervals
load_rubric-Recommended_example =
    load_rubric-Recommended 100 72500 raw_rubric rubric rubric_loaded refl (omega arith)

collected :
    evidence_ids (arr (cons (int (pos 7)) (cons (str "8") (cons (int (pos 7)) nil))))
    ≡ ok (7 ∷ 8 ∷ [])
unfolding evidence_ids collect_ids evidence_id is_positive_shape digits_value
collected = refl

evidence_ids-IsUnrepeated_example : IsUnrepeated (7 ∷ 8 ∷ [])
evidence_ids-IsUnrepeated_example =
    evidence_ids-IsUnrepeated (arr (cons (int (pos 7)) (cons (str "8") (cons (int (pos 7)) nil))))
      (7 ∷ 8 ∷ []) collected

parsed : positive_bigint (some "42") ≡ ok (some 42)
unfolding positive_bigint is_positive_shape bounded_bigint digits_value
parsed = refl

positive_bigint-bounded_example : (1 ≤ 42) × (42 ≤ bigint_max)
positive_bigint-bounded_example = positive_bigint-bounded "42" 42 parsed

abbrev no_decimal : String → Option Decimal
no_decimal text = none

abbrev scored : Fields
scored = field "evidence_state" (str "positive") (
    field "quality_score" (int (pos 5)) (
      field "coverage" (str "complete") (
        field "evidence_quality" (str "high") (
          field "evidence_fact_ids" (arr (cons (int (pos 7)) nil)) (
            field "counterevidence_fact_ids" (arr nil)
              (field "rationale" (str "r") (field "what_would_change" (str "w") end)))))))

abbrev context : Fields
context =
    field "identity_reliable" (boolean true)
      (field "contradiction_check_complete" (boolean true) end)

abbrev evaluation : Evaluation
evaluation = record {
  criteria =
      record {
        name = "team";
        weight = 10000;
        evidence_state = "positive";
        quality_score = some 500;
        calculation_score = 500;
        missing = false;
        coverage = "complete";
        evidence_quality = "high";
        evidence_fact_ids = 7 ∷ [];
        counterevidence_fact_ids = [];
        rationale = "r";
        what_would_change = "w";
      }
      ∷ [];
  raw_100 = 100000;
  adjustments = [];
  final_100 = 100000;
  display_5 = 50;
  recommendation = "high_priority";
  override = none;
  missing_checks = [];
  coverage = 10000;
}

evaluated :
    calculate_score 100 no_decimal raw_rubric (field "team" (obj scored) end) none context
    ≡ ok evaluation
unfolding calculate_score load_rubric load_criteria all_different check_criteria check_criterion
    is_criterion_key strip weight_total load_readiness between load_intervals check_intervals
    check_interval upper_bound evidence_ids collect_ids evidence_id is_positive_shape digits_value
    one_of check_states decimal_of quality_of quality_score assess_evidence assess_states
    check_fields assess_fields assess is_bad_flag check_context flag adjustments total_gain
    total_loss is_covered covered_names evaluated_count covered_weight weighted_points clamp
    missing_checks overridden is_unready lacks_high_gate decide raw_score coverage_fraction
    display_score check_weights assess_all evaluate recommendation_for_score holds_score
    round_half_even require_text get get_field field_names
evaluated = refl

calculate_score-InRange_example : InRange evaluation
calculate_score-InRange_example =
    calculate_score-InRange 100 no_decimal raw_rubric (field "team" (obj scored) end) none context
      evaluation (omega arith) evaluated

calculate_score-Ready_example :
    (r : Rubric) × (load_rubric 100 raw_rubric ≡ ok r)
    × Ready 100 r context evaluation.criteria 10000
    × (recommendation_for_score 100 100000 r.intervals ≡ ok "high_priority")
calculate_score-Ready_example =
    calculate_score-Ready 100 no_decimal raw_rubric (field "team" (obj scored) end) none context
      evaluation evaluated refl

calculate_score-Prioritised_example :
    (r : Rubric) × (load_rubric 100 raw_rubric ≡ ok r)
    × Prioritised 100 r context evaluation.criteria 10000
calculate_score-Prioritised_example =
    calculate_score-Prioritised 100 no_decimal raw_rubric (field "team" (obj scored) end) none
      context evaluation evaluated refl
