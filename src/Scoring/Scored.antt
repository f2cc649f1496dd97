-- ===== src/Scoring/Scored.antt =====
-- The stages that a successful `calculate_score` went through.
use venture_capital_lead_res.Prelude.{ℕ, ◌≡◌, refl, inl, inr, String, Option, List, arith}
use venture_capital_lead_res.Fail.{ok, Result-cases}
use venture_capital_lead_res.Json.{Decimal, Json, Fields}
use venture_capital_lead_res.Scoring.Rubric.{
  RawRubric, Rubric, load_rubric, recommendation_for_score,
}
use venture_capital_lead_res.Scoring.Criteria.{Assessed}
use venture_capital_lead_res.Scoring.Context.{Adjustment, adjustments, total_gain, total_loss}
use venture_capital_lead_res.Scoring.Score.{
  Evaluation, clamp, raw_score, coverage_fraction, display_score, decide, check_weights,
  missing_checks, assess_all, evaluate, calculate_score,
}

module _ (unit : ℕ) (decimal : String → Option Decimal) where
  pub record Evaluated (rubric : Rubric) (context : Fields) (results : List Assessed)
      (e : Evaluation) : Type 0 where
    pub adjusted : List Adjustment
    pub recommended : String
    pub recommends : recommendation_for_score unit e.final_100 rubric.intervals ≡ ok recommended
    pub raw_is : e.raw_100 ≡ raw_score unit results
    pub final_is : e.final_100 ≡ clamp e.raw_100 (total_gain adjusted) (total_loss adjusted)
    pub display_is : e.display_5 ≡ display_score unit e.final_100
    pub coverage_is : e.coverage ≡ coverage_fraction unit results
    pub criteria_is : e.criteria ≡ results
    pub decided :
        decide unit rubric context e.criteria e.coverage recommended
        ≡ record { recommendation = e.recommendation; override = e.override }

  evaluate-Evaluated :
      (rubric : Rubric) (context : Fields) (results : List Assessed) (e : Evaluation)
      → evaluate unit decimal rubric context results ≡ ok e
      → Evaluated rubric context results e
  unfolding evaluate
  evaluate-Evaluated rubric context results e h =
      elim (Result-cases (adjustments unit decimal context)) [
        | inl (adjusted, p) ↦
            let final =
              clamp (raw_score unit results) (total_gain adjusted) (total_loss adjusted) in
            elim (Result-cases (recommendation_for_score unit final rubric.intervals)) [
              | inl (recommended, q) ↦
                  let coverage = coverage_fraction unit results in
                  let decision = decide unit rubric context results coverage recommended in
                  let same : record {
                    criteria = results;
                    raw_100 = raw_score unit results;
                    adjustments = adjusted;
                    final_100 = final;
                    display_5 = display_score unit final;
                    recommendation = decision.recommendation;
                    override = decision.override;
                    missing_checks = missing_checks context rubric.required_checks;
                    coverage = coverage;
                  }
                      ≡ e =
                    ground arith in
                  rw (← same) (record {
                    adjusted = adjusted;
                    recommended = recommended;
                    recommends = q;
                    raw_is = refl;
                    final_is = refl;
                    display_is = refl;
                    coverage_is = refl;
                    criteria_is = refl;
                    decided = refl;
                  })
              | inr (x, refused) ↦ absurd (ground arith)
            ]
        | inr (x, refused) ↦ absurd (ground arith)
      ]

  pub record Scored (raw : RawRubric) (criteria context : Fields) (e : Evaluation) : Type 0 where
    pub rubric : Rubric
    pub results : List Assessed
    pub loaded : load_rubric unit raw ≡ ok rubric
    pub assessed : assess_all unit decimal criteria rubric.criteria ≡ ok results
    pub evaluated : Evaluated rubric context results e

  pub calculate_score-Scored :
      (raw : RawRubric) (criteria : Fields) (weights : Option Json) (context : Fields)
      (e : Evaluation)
      → calculate_score unit decimal raw criteria weights context ≡ ok e
      → Scored raw criteria context e
  unfolding calculate_score
  calculate_score-Scored raw criteria weights context e h =
      elim (Result-cases (load_rubric unit raw)) [
        | inl (rubric, p) ↦ elim (Result-cases (assess_all unit decimal criteria rubric.criteria)) [
          | inl (results, q) ↦
              elim (Result-cases (check_weights unit decimal weights rubric.criteria)) [
                | inl (done, r) ↦ record {
                  rubric = rubric;
                  results = results;
                  loaded = p;
                  assessed = q;
                  evaluated = evaluate-Evaluated rubric context results e (ground arith);
                }
                | inr (x, refused) ↦ absurd (ground arith)
              ]
          | inr (x, refused) ↦ absurd (ground arith)
        ]
        | inr (x, refused) ↦ absurd (ground arith)
      ]
