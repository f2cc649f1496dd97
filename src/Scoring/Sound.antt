-- ===== src/Scoring/Sound.antt =====
-- What a rubric that `_load_rubric` accepts satisfies.
use venture_capital_lead_res.Prelude.{
  ℕ, ◌*◌, ◌≤◌, ◌≡◌, inl, inr, true, List, [], ◌∷◌, length, all, arith,
}
use venture_capital_lead_res.Fail.{ok, Result-cases}
use venture_capital_lead_res.Json.{ℤ, pos, negsuc}
use venture_capital_lead_res.Scoring.Rubric.{
  RawRubric, Rubric, Criterion, Interval, weight_total, between, load_criteria, load_readiness,
  load_intervals, load_rubric,
}
use venture_capital_lead_res.Scoring.Intervals.{has_one_bound, Recommended, recommended}

pub record IsSound (unit : ℕ) (r : Rubric) : Type 0 where
  pub weights : weight_total r.criteria ≡ 100 * unit
  pub count : r.minimum_count ≤ length r.criteria
  pub coverage : r.minimum_coverage ≤ r.high_coverage
  pub high : r.high_coverage ≤ unit
  pub covered : load_intervals unit r.intervals ≡ ok tt

between-le : (low high : ℕ) (z : ℤ) (n : ℕ) → between low high z ≡ ok n → (low ≤ n) × (n ≤ high)
unfolding between
between-le low high (pos k) n h = ground arith
between-le low high (negsuc k) n h = absurd (ground arith)

module _ (unit : ℕ) (raw : RawRubric) where
  load_criteria-weights :
      (cs : List Criterion) → load_criteria unit raw ≡ ok cs → weight_total cs ≡ 100 * unit
  unfolding load_criteria
  load_criteria-weights cs h = ground arith

  load_readiness-bounds :
      (cs : List Criterion) (count coverage high : ℕ)
      → load_readiness unit raw cs ≡ ok (count, coverage, high)
      → (count ≤ length cs) × (coverage ≤ high) × (high ≤ unit)
  unfolding load_readiness
  load_readiness-bounds cs count coverage high h =
      elim (Result-cases (between 0 (length cs) raw.minimum_evaluated_criteria)) [
        | inl (n, a) ↦ elim (Result-cases (between 0 unit raw.minimum_weighted_coverage)) [
          | inl (c, b) ↦
              elim (Result-cases (between c unit raw.high_priority_minimum_weighted_coverage)) [
                | inl (k, d) ↦ ground (
                  arith,
                  between-le 0 (length cs) raw.minimum_evaluated_criteria n,
                  between-le c unit raw.high_priority_minimum_weighted_coverage k,
                )
                | inr (e, refused) ↦ absurd (ground arith)
              ]
          | inr (e, refused) ↦ absurd (ground arith)
        ]
        | inr (e, refused) ↦ absurd (ground arith)
      ]

  pub load_rubric-IsSound : (r : Rubric) → load_rubric unit raw ≡ ok r → IsSound unit r
  unfolding load_rubric
  load_rubric-IsSound r h = elim (Result-cases (load_criteria unit raw)) [
    | inl (cs, a) ↦ elim (Result-cases (load_readiness unit raw cs)) [
      | inl ((count, coverage, high), b) ↦
          elim (Result-cases (load_intervals unit raw.recommendation_intervals)) [
            | inl (done, c) ↦
                let weights = load_criteria-weights cs a in
                let bounds = load_readiness-bounds cs count coverage high b in
                let passed : load_intervals unit raw.recommendation_intervals ≡ ok tt = c in
                record {
                  weights = ground arith;
                  count = ground arith;
                  coverage = ground arith;
                  high = ground arith;
                  covered = ground arith;
                }
            | inr (e, refused) ↦ absurd (ground arith)
          ]
      | inr (e, refused) ↦ absurd (ground arith)
    ]
    | inr (e, refused) ↦ absurd (ground arith)
  ]

IsSound-Recommended :
    (unit score : ℕ) (r : Rubric)
    → IsSound unit r
    → all has_one_bound r.intervals ≡ true
    → score ≤ 100000
    → Recommended unit score r.intervals
IsSound-Recommended unit score r s one top = by_cases r.intervals s.covered one
  where
    by_cases :
        (is : List Interval)
        → load_intervals unit is ≡ ok tt
        → all has_one_bound is ≡ true
        → Recommended unit score is
    by_cases [] c o = absurd (unfold load_intervals in cc c)
    by_cases (i ∷ rest) c o =
        recommended unit score 0 i rest top (omega arith) o (unfold load_intervals in c)

-- A rubric that `_load_rubric` accepts, each of whose intervals has one upper bound, recommends
-- one of the four reviewed names for every score from 0 to 100, never an error.
pub load_rubric-Recommended :
    (unit score : ℕ) (raw : RawRubric) (r : Rubric)
    → load_rubric unit raw ≡ ok r
    → all has_one_bound r.intervals ≡ true
    → score ≤ 100000
    → Recommended unit score r.intervals
load_rubric-Recommended unit score raw r h =
    IsSound-Recommended unit score r (load_rubric-IsSound unit raw r h)
