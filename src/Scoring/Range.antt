-- ===== src/Scoring/Range.antt =====
-- The range of what `calculate_score` returns.
use native.Mathlib.Nat.{mul-le-mul_right}
use venture_capital_lead_res.Prelude.{ℕ, ◌*◌, ◌≤◌, ◌<◌, ◌≡◌, String, Option, arith}
use venture_capital_lead_res.Fail.{ok}
use venture_capital_lead_res.Json.{Decimal, Json, Fields}
use venture_capital_lead_res.Scoring.Rounding.{round_half_even-le}
use venture_capital_lead_res.Scoring.Rubric.{RawRubric}
use venture_capital_lead_res.Scoring.Bounded.{assess_all-Totalled}
use venture_capital_lead_res.Scoring.Score.{
  Evaluation, covered_weight, weighted_points, clamp, raw_score, coverage_fraction, display_score,
  calculate_score,
}
use venture_capital_lead_res.Scoring.Scored.{calculate_score-Scored}
use venture_capital_lead_res.Scoring.Sound.{load_rubric-IsSound}

pub record InRange (e : Evaluation) : Type 0 where
  pub raw : e.raw_100 ≤ 100000
  pub final : e.final_100 ≤ 100000
  pub display : e.display_5 ≤ 50
  pub coverage : e.coverage ≤ 10000

clamp-le : (raw gained lost : ℕ) → clamp raw gained lost ≤ 100000
unfolding clamp
clamp-le raw gained lost = ground arith

square-pos : (unit : ℕ) → 0 < unit → 0 < 5 * unit * unit
square-pos unit h = let grown : 1 * unit ≤ unit * unit = mul-le-mul_right unit h in omega arith

-- Where `calculate_score` succeeds, the score before and after the adjustments is from 0 to 100,
-- the displayed one from 0 to 5.0 and the coverage from 0 to 1.
pub calculate_score-InRange :
    (unit : ℕ) (decimal : String → Option Decimal) (raw : RawRubric) (criteria : Fields)
    (weights : Option Json) (context : Fields) (e : Evaluation)
    → 0 < unit
    → calculate_score unit decimal raw criteria weights context ≡ ok e
    → InRange e
unfolding raw_score coverage_fraction display_score
calculate_score-InRange unit decimal raw criteria weights context e h k =
    let s = calculate_score-Scored unit decimal raw criteria weights context e k in
    let v = s.evaluated in
    let sound = load_rubric-IsSound unit raw s.rubric s.loaded in
    let sums = assess_all-Totalled unit decimal criteria s.rubric.criteria s.results s.assessed in
    let final : e.final_100 ≤ 100000 = rw v.final_is (clamp-le e.raw_100 _ _) in
    let points : weighted_points s.results * 1000 ≤ 100000 * (5 * unit * unit) =
      let sum : weighted_points s.results ≤ 100 * unit * (5 * unit) =
        rw (← sound.weights) sums.points in
      omega arith in
    let weight : covered_weight s.results ≤ 100 * unit = rw (← sound.weights) sums.weight in
    record {
      raw = rw v.raw_is (round_half_even-le _ _ 100000 (square-pos unit h) points);
      final = final;
      display =
          rw v.display_is (round_half_even-le e.final_100 2000 50 (omega arith) (omega arith));
      coverage = rw v.coverage_is (
          round_half_even-le (covered_weight s.results * 10000) (100 * unit) 10000 (omega arith)
            (omega arith));
    }
