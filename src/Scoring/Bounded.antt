-- ===== src/Scoring/Bounded.antt =====
-- The loop of `calculate_score` over the criteria: each score and the sums are bounded.
use native.Mathlib.Nat.{mul-le-mul_right}
use venture_capital_lead_res.Prelude.{
  ℕ, ◌*◌, ◌≤◌, ◌≡◌, inl, inr, String, Option, List, [], ◌∷◌, arith, Option-cases,
}
use venture_capital_lead_res.Fail.{ok, Result-cases}
use venture_capital_lead_res.Json.{
  pos, negsuc, Decimal, finite, nan, infinite, Json, null, obj, Fields, get,
}
use venture_capital_lead_res.Validate.Checks.{require_text}
use venture_capital_lead_res.Scoring.Rubric.{Criterion, weight_total}
use venture_capital_lead_res.Scoring.Evidence.{evidence_ids}
use venture_capital_lead_res.Scoring.Criteria.{
  Assessed, absent_criterion, decimal_of, quality_of, quality_score, score_or_zero, assess_fields,
  assess, assess_evidence, assess_states,
}
use venture_capital_lead_res.Scoring.Score.{covered_weight, weighted_points, assess_all}

module _ (unit : ℕ) (decimal : String → Option Decimal) where
  quality_of-le : (raw : Json) (q : ℕ) → quality_of unit decimal raw ≡ ok q → q ≤ 5 * unit
  unfolding quality_of
  quality_of-le raw q h = elim (Option-cases (decimal_of unit decimal raw)) [
    | inl e ↦ absurd (ground arith)
    | inr (finite (pos n), e) ↦ ground arith
    | inr (finite (negsuc n), e) ↦ absurd (ground arith)
    | inr (nan, e) ↦ absurd (ground arith)
    | inr (infinite, e) ↦ absurd (ground arith)
  ]

  quality_score-le :
      (state : String) (raw : Json) (score : Option ℕ)
      → quality_score unit decimal state raw ≡ ok score
      → score_or_zero unit decimal score ≤ 5 * unit
  unfolding quality_score
  quality_score-le state raw score h = elim (Result-cases (quality_of unit decimal raw)) [
    | inl (q, e) ↦ ground (arith, quality_of-le raw q e)
    | inr (e, refused) ↦ ground arith
  ]

  record Weighed (c : Criterion) (a : Assessed) : Type 0 where
    weight : a.weight ≡ c.weight
    score : a.calculation_score ≤ 5 * unit

  assess_evidence-Weighed :
      (c : Criterion) (raw : Fields) (state coverage quality : String) (score : Option ℕ)
      (a : Assessed)
      → score_or_zero unit decimal score ≤ 5 * unit
      → assess_evidence unit decimal c raw state coverage quality score ≡ ok a
      → Weighed c a
  unfolding assess_evidence
  assess_evidence-Weighed c raw state coverage quality score a bound h =
      elim (Result-cases (evidence_ids (get "evidence_fact_ids" raw))) [
        | inl (ids, p) ↦ elim (Result-cases (evidence_ids (get "counterevidence_fact_ids" raw))) [
          | inl (counter, q) ↦ elim (Result-cases (require_text (get "rationale" raw) 2000)) [
            | inl (why, r) ↦ elim (Result-cases (require_text (get "what_would_change" raw) 2000)) [
              | inl (change, s) ↦ record { weight = ground arith; score = ground arith }
              | inr (e, refused) ↦ absurd (ground arith)
            ]
            | inr (e, refused) ↦ absurd (ground arith)
          ]
          | inr (e, refused) ↦ absurd (ground arith)
        ]
        | inr (e, refused) ↦ absurd (ground arith)
      ]

  assess_fields-Weighed :
      (c : Criterion) (raw : Fields) (a : Assessed)
      → assess_fields unit decimal c raw ≡ ok a
      → Weighed c a
  unfolding assess_fields
  assess_fields-Weighed c raw a h = elim (Result-cases (assess_states unit decimal raw)) [
    | inl ((state, coverage, quality), p) ↦
        elim (Result-cases (quality_score unit decimal state (get "quality_score" raw))) [
          | inl (score, q) ↦
              assess_evidence-Weighed c raw state coverage quality score a
                (quality_score-le state (get "quality_score" raw) score q) (ground arith)
          | inr (e, refused) ↦ absurd (ground arith)
        ]
    | inr (e, refused) ↦ absurd (ground arith)
  ]

  assess-Weighed :
      (c : Criterion) (raw : Json) (a : Assessed) → assess unit decimal c raw ≡ ok a → Weighed c a
  unfolding assess absent_criterion
  assess-Weighed c null a h = record { weight = ground arith; score = ground arith }
  assess-Weighed c (obj raw) a h = assess_fields-Weighed c raw a h
  assess-Weighed c _ a h = absurd (ground arith)

  -- The sums over the criteria are those of the rubric at most.
  pub record Totalled (cs : List Criterion) (results : List Assessed) : Type 0 where
    pub points : weighted_points results ≤ weight_total cs * (5 * unit)
    pub weight : covered_weight results ≤ weight_total cs

  pub assess_all-Totalled :
      (criteria : Fields) (cs : List Criterion) (results : List Assessed)
      → assess_all unit decimal criteria cs ≡ ok results
      → Totalled cs results
  unfolding assess_all weight_total weighted_points covered_weight
  assess_all-Totalled criteria [] results h =
      let none_left : [] ≡ results = ground arith in
      rw (← none_left) (record { points = omega arith; weight = omega arith })
  assess_all-Totalled criteria (c ∷ cs) results h =
      elim (Result-cases (assess unit decimal c (get c.key criteria))) [
        | inl (a, p) ↦ elim (Result-cases (assess_all unit decimal criteria cs)) [
          | inl (rest, q) ↦
              let first = assess-Weighed c (get c.key criteria) a p in
              let later = assess_all-Totalled criteria cs rest q in
              let same : a ∷ rest ≡ results = ground arith in
              let points : a.calculation_score * a.weight ≤ 5 * unit * c.weight =
                rw first.weight (mul-le-mul_right c.weight first.score) in
              rw (← same) (record {
                points = omega (arith, points, later.points);
                weight = ground (arith, first.weight, later.weight);
              })
          | inr (e, refused) ↦ absurd (ground arith)
        ]
        | inr (e, refused) ↦ absurd (ground arith)
      ]
