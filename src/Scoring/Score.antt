-- ===== src/Scoring/Score.antt =====
-- `calculate_score` of vcops.py: the loop over the rubric, the score and the decision. Scores are
-- in thousandths of a point of 100, the coverage in ten-thousandths.
use venture_capital_lead_res.Prelude.{
  ℕ, ◌+◌, ◌-◌, ◌*◌, String, Bool, true, false, not, ◌&&◌, ◌||◌, Option, none, some, List, [], ◌∷◌,
  str_eq, member, is_empty, any, ltb, if◌then◌else◌,
}
use venture_capital_lead_res.Fail.{Result, ok, deny, vcops_error, refuse_if, ◌>>=◌, ◌>>◌}
use venture_capital_lead_res.Json.{Decimal, finite, Json, obj, Fields, get, get_field, field_names}
use venture_capital_lead_res.Scoring.Rounding.{round_half_even}
use venture_capital_lead_res.Scoring.Rubric.{
  RawRubric, Rubric, Criterion, names, equals, load_rubric, recommendation_for_score,
}
use venture_capital_lead_res.Scoring.Criteria.{Assessed, assess, decimal_of}
use venture_capital_lead_res.Scoring.Context.{
  Adjustment, check_context, flag, adjustments, total_gain, total_loss,
}

pub record Decision : Type 0 where
  pub recommendation : String
  pub override : Option String

pub record Evaluation : Type 0 where
  pub criteria : List Assessed
  pub raw_100 : ℕ
  pub adjustments : List Adjustment
  pub final_100 : ℕ
  pub display_5 : ℕ
  pub recommendation : String
  pub override : Option String
  pub missing_checks : List String
  pub coverage : ℕ

-- `evaluated_count` counts what is neither missing nor not applicable.
unfoldable pub is_covered : Assessed → Bool
is_covered a = not a.missing && not (str_eq a.evidence_state "not_applicable")

unfoldable pub covered_names : List Assessed → List String
covered_names [] = []
covered_names (a ∷ later) =
    let rest = covered_names later in if is_covered a then a.name ∷ rest else rest

unfoldable pub evaluated_count : List Assessed → ℕ
evaluated_count [] = 0
evaluated_count (a ∷ later) =
    let rest = evaluated_count later in if is_covered a then 1 + rest else rest

unfoldable pub covered_weight : List Assessed → ℕ
covered_weight [] = 0
covered_weight (a ∷ later) =
    let rest = covered_weight later in if is_covered a then a.weight + rest else rest

-- The sum of score times weight, in units of 1 / (`unit` * `unit`).
unfoldable pub weighted_points : List Assessed → ℕ
weighted_points [] = 0
weighted_points (a ∷ later) = a.calculation_score * a.weight + weighted_points later

-- `max(0, min(100, raw_100 + adjustment_total))`.
unfoldable pub clamp : ℕ → ℕ → ℕ → ℕ
clamp raw gained lost =
    let total = raw + 1000 * gained - 1000 * lost in if ltb 100000 total then 100000 else total

unfoldable pub missing_checks : Fields → List String → List String
missing_checks context [] = []
missing_checks context (c ∷ cs) =
    let rest = missing_checks context cs in if flag context c then rest else c ∷ rest

abbrev pub is_review : Fields → Bool
is_review context =
    flag context "blocking_contradiction"
    || (flag context "confidentiality_or_legal_issue"
        || (flag context "approval_boundary" || flag context "unreliable_high_priority_evidence"))

-- The chain of overrides, given its four conditions.
unfoldable pub overridden : Bool → Bool → Bool → Bool → String → Decision
overridden excluded reviewed unready held_back recommended =
    if excluded
    then record { recommendation = "pass"; override = some "hard_exclusion" }
    else if reviewed
    then record { recommendation = "needs_human_review"; override = some "needs_human_review" }
    else if unready
    then record {
      recommendation = "insufficient_evidence";
      override = some "insufficient_evidence";
    }
    else if held_back
    then record {
      recommendation = "research_deeper";
      override = some "high_priority_prerequisites_missing";
    }
    else record { recommendation = recommended; override = none }

module _ (unit : ℕ) where
  -- `identity`, count, coverage and required criteria.
  unfoldable pub is_unready : Rubric → Fields → List Assessed → ℕ → Bool
  is_unready rubric context results coverage =
      not (flag context "identity_reliable")
      || (ltb (evaluated_count results) rubric.minimum_count
          || (ltb (coverage * unit) (10000 * rubric.minimum_coverage)
              || any (λ k. not (member k (covered_names results))) rubric.required_criteria))

  unfoldable pub lacks_high_gate : Rubric → Fields → ℕ → Bool
  lacks_high_gate rubric context coverage =
      ltb (coverage * unit) (10000 * rubric.high_coverage)
      || not (is_empty (missing_checks context rubric.required_checks))

  unfoldable pub decide : Rubric → Fields → List Assessed → ℕ → String → Decision
  decide rubric context results coverage recommended =
      overridden (flag context "hard_exclusion") (is_review context)
        (is_unready rubric context results coverage)
        (str_eq recommended "high_priority" && lacks_high_gate rubric context coverage) recommended

  unfoldable pub raw_score : List Assessed → ℕ
  raw_score results = round_half_even (weighted_points results * 1000) (5 * unit * unit)

  unfoldable pub coverage_fraction : List Assessed → ℕ
  coverage_fraction results = round_half_even (covered_weight results * 10000) (100 * unit)

  unfoldable pub display_score : ℕ → ℕ
  display_score final = round_half_even final 2000

  module _ (decimal : String → Option Decimal) where
    unfoldable pub is_weight : Fields → Criterion → Bool
    is_weight supplied c = elim (get_field c.key supplied) [
      | none ↦ false
      | some value ↦ elim (decimal_of unit decimal value) [
        | some (finite z) ↦ equals z c.weight
        | _ ↦ false
      ]
    ]

    unfoldable pub is_readable : Fields → Bool
    is_readable Fields.end = true
    is_readable (Fields.field k value rest) =
        let later = is_readable rest in
        elim (decimal_of unit decimal value) [ none ↦ false | some d ↦ later ]

    -- `weights`, where the caller gives them: the same keys with the same values.
    unfoldable pub check_weights : Option Json → List Criterion → Result (Unit {0})
    check_weights none cs = ok tt
    check_weights (some (obj supplied)) cs = do
      refuse_if (not (is_readable supplied)) (vcops_error "invalid_weight" 2)
      refuse_if
          (any (λ c. not (is_weight supplied c)) cs
            || any (λ k. not (member k (names cs))) (field_names supplied))
          (vcops_error "rubric_weight_mismatch" 2)
    check_weights (some _) cs = deny "invalid_weight"

    unfoldable pub assess_all : Fields → List Criterion → Result (List Assessed)
    assess_all criteria [] = ok []
    assess_all criteria (c ∷ cs) = do
      first ← assess unit decimal c (get c.key criteria)
      rest ← assess_all criteria cs
      ok (first ∷ rest)

    unfoldable pub evaluate : Rubric → Fields → List Assessed → Result Evaluation
    evaluate rubric context results = do
      check_context context
      adjusted ← adjustments unit decimal context
      let raw = raw_score results
      let final = clamp raw (total_gain adjusted) (total_loss adjusted)
      let coverage = coverage_fraction results
      recommended ← recommendation_for_score unit final rubric.intervals
      let decision = decide rubric context results coverage recommended
      ok (record {
        criteria = results;
        raw_100 = raw;
        adjustments = adjusted;
        final_100 = final;
        display_5 = display_score final;
        recommendation = decision.recommendation;
        override = decision.override;
        missing_checks = missing_checks context rubric.required_checks;
        coverage = coverage;
      })

    -- `criteria` is an object; `raw` is the rubric file.
    unfoldable pub calculate_score : RawRubric → Fields → Option Json → Fields → Result Evaluation
    calculate_score raw criteria weights context = do
      rubric ← load_rubric unit raw
      check_weights weights rubric.criteria
      refuse_if (any (λ k. not (member k (names rubric.criteria))) (field_names criteria))
          (vcops_error "unknown_criteria" 2)
      results ← assess_all criteria rubric.criteria
      evaluate rubric context results
