-- ===== src/Scoring/Reviewed.antt =====
-- What a rubric that `_load_rubric` accepts looks like: its weights, its gates, its intervals.
use venture_capital_lead_res.Prelude.{
  ℕ, ◌*◌, ◌≤◌, ◌<◌, ◌≡◌, ◌≢◌, String, true, none, some, List, [], ◌∷◌, length, member,
}
use venture_capital_lead_res.Json.{pos}
use venture_capital_lead_res.Scoring.Rubric.{Rubric, Interval, weight_total}

-- The upper bound of an interval: the exclusive one, or else the inclusive one.
pub data EndsAt (i : Interval) (m : ℕ) : Type 0 where
  before_it : i.maximum_exclusive ≡ some (pos m) → EndsAt i m
  with_it : i.maximum_exclusive ≡ none → i.maximum_inclusive ≡ some (pos m) → EndsAt i m

-- One of the four reviewed recommendations.
abbrev pub IsReviewedName : String → Type 0
IsReviewedName name =
    member name ("pass" ∷ "watch" ∷ "research_deeper" ∷ "high_priority" ∷ []) ≡ true

-- Intervals that follow each other without a gap, from a bound to 100.
pub data Tiles (unit : ℕ) : ℕ → List Interval → Type 0 where
  last_tile :
      (from : ℕ) (i : Interval)
      → IsReviewedName i.name
      → i.minimum ≡ pos from
      → from < 100 * unit
      → EndsAt i (100 * unit)
      → i.maximum_inclusive ≢ none
      → Tiles unit from (i ∷ [])
  next_tile :
      (from to : ℕ) (i : Interval) (rest : List Interval)
      → IsReviewedName i.name
      → i.minimum ≡ pos from
      → from < to
      → i.maximum_exclusive ≡ some (pos to)
      → Tiles unit to rest
      → Tiles unit from (i ∷ rest)

module _ (unit : ℕ) where
  pub record IsReviewed (r : Rubric) : Type 0 where
    pub weights : weight_total r.criteria ≡ 100 * unit
    pub count : r.minimum_count ≤ length r.criteria
    pub coverage : r.minimum_coverage ≤ r.high_coverage
    pub high : r.high_coverage ≤ unit
    pub tiled : Tiles unit 0 r.intervals
