-- ===== src/Scoring/Criteria.antt =====
-- The evaluation of one criterion by `calculate_score` of vcops.py. Scores are in units of
-- 1 / `unit`; `decimal` is `Decimal(text)`, with None for InvalidOperation.
use venture_capital_lead_res.Prelude.{
  ℕ, ◌+◌, ◌-◌, ◌*◌, String, Bool, true, not, ◌&&◌, ◌||◌, Option, none, some, List, [], ◌∷◌, str_eq,
  member, is_empty, is_some, any, ltb, if◌then◌else◌,
}
use venture_capital_lead_res.Fail.{Result, ok, deny, vcops_error, refuse_if, ◌>>=◌, ◌>>◌}
use venture_capital_lead_res.Json.{
  pos, negsuc, Decimal, finite, Json, null, int, float, str, obj, Fields, get, field_names, is_null,
}
use venture_capital_lead_res.Validate.Checks.{require_text}
use venture_capital_lead_res.Scoring.Rubric.{Criterion}
use venture_capital_lead_res.Scoring.Evidence.{evidence_ids}

pub record Assessed : Type 0 where
  pub name : String
  pub weight : ℕ
  pub evidence_state : String
  pub quality_score : Option ℕ
  pub calculation_score : ℕ
  pub missing : Bool
  pub coverage : String
  pub evidence_quality : String
  pub evidence_fact_ids : List ℕ
  pub counterevidence_fact_ids : List ℕ
  pub rationale : String
  pub what_would_change : String

abbrev pub expected_fields : List String
expected_fields =
    "evidence_state" ∷ "quality_score" ∷ "coverage" ∷ "evidence_quality" ∷ "evidence_fact_ids"
    ∷ "counterevidence_fact_ids" ∷ "rationale" ∷ "what_would_change" ∷ []

abbrev pub evidence_states : List String
evidence_states = "positive" ∷ "negative" ∷ "mixed" ∷ "unknown" ∷ "not_applicable" ∷ "blocked" ∷ []

abbrev pub unscored_states : List String
unscored_states = "unknown" ∷ "not_applicable" ∷ "blocked" ∷ []

abbrev pub scored_states : List String
scored_states = "positive" ∷ "negative" ∷ "mixed" ∷ []

abbrev pub coverage_states : List String
coverage_states = "complete" ∷ "partial" ∷ "none" ∷ "not_applicable" ∷ []

abbrev pub quality_states : List String
quality_states = "high" ∷ "medium" ∷ "low" ∷ "unusable" ∷ "not_applicable" ∷ []

-- `isinstance(value, str) and value in {...}`.
unfoldable pub one_of : List String → Json → Result String
one_of allowed (str s) = if member s allowed then ok s else deny "invalid_criterion"
one_of allowed _ = deny "invalid_criterion"

-- `raw is None`: the criterion has no evidence.
unfoldable pub absent_criterion : Criterion → Assessed
absent_criterion c = record {
  name = c.key;
  weight = c.weight;
  evidence_state = "unknown";
  quality_score = none;
  calculation_score = 0;
  missing = true;
  coverage = "none";
  evidence_quality = "unusable";
  evidence_fact_ids = [];
  counterevidence_fact_ids = [];
  rationale = "no admissible evidence; quality is unknown";
  what_would_change = "obtain admissible current evidence for this criterion";
}

-- The combinations of states that are refused.
unfoldable pub check_states : String → String → String → Result (Unit {0})
check_states state coverage quality = do
  refuse_if
      (str_eq state "unknown" && (not (str_eq coverage "none") || not (str_eq quality "unusable")))
      (vcops_error "invalid_criterion" 2)
  refuse_if
      (str_eq state "not_applicable"
        && (not (str_eq coverage "not_applicable") || not (str_eq quality "not_applicable")))
      (vcops_error "invalid_criterion" 2)
  refuse_if (member state scored_states && str_eq coverage "none")
      (vcops_error "invalid_criterion" 2)

module _ (unit : ℕ) (decimal : String → Option Decimal) where
  -- `Decimal(str(value))`.
  unfoldable pub decimal_of : Json → Option Decimal
  decimal_of (int (pos n)) = some (finite (pos (n * unit)))
  decimal_of (int (negsuc n)) = some (finite (negsuc ((n + 1) * unit - 1)))
  decimal_of (float d) = some d
  decimal_of (str s) = decimal s
  decimal_of _ = none

  -- The score of a state that is scored: finite, from 0 to 5.
  unfoldable pub quality_of : Json → Result ℕ
  quality_of raw = elim (decimal_of raw) [
    | some (finite (pos q)) ↦ if ltb (5 * unit) q then deny "score_range" else ok q
    | some (finite (negsuc q)) ↦ deny "score_range"
    | _ ↦ deny "invalid_score"
  ]

  unfoldable pub quality_score : String → Json → Result (Option ℕ)
  quality_score state raw =
      if member state unscored_states
      then (if is_null raw then ok none else deny "invalid_score")
      else do q ← quality_of raw; ok (some q)

  abbrev pub score_or_zero : Option ℕ → ℕ
  score_or_zero none = 0
  score_or_zero (some q) = q

  -- From `_evidence_ids` on.
  unfoldable pub assess_evidence :
      Criterion → Fields → String → String → String → Option ℕ → Result Assessed
  assess_evidence c raw state coverage quality score = do
    ids ← evidence_ids (get "evidence_fact_ids" raw)
    counter ← evidence_ids (get "counterevidence_fact_ids" raw)
    refuse_if (is_some score && is_empty ids) (vcops_error "evidence_required" 2)
    rationale ← require_text (get "rationale" raw) 2000
    change ← require_text (get "what_would_change" raw) 2000
    ok (record {
      name = c.key;
      weight = c.weight;
      evidence_state = state;
      quality_score = score;
      calculation_score = score_or_zero score;
      missing = member state ("unknown" ∷ "blocked" ∷ []);
      coverage = coverage;
      evidence_quality = quality;
      evidence_fact_ids = ids;
      counterevidence_fact_ids = counter;
      rationale = rationale;
      what_would_change = change;
    })

  unfoldable pub assess_states : Fields → Result (String × String × String)
  assess_states raw = do
    state ← one_of evidence_states (get "evidence_state" raw)
    coverage ← one_of coverage_states (get "coverage" raw)
    quality ← one_of quality_states (get "evidence_quality" raw)
    ok (state, coverage, quality)

  unfoldable pub check_fields : Fields → Result (Unit {0})
  check_fields raw =
      if any (λ k. not (member k expected_fields)) (field_names raw)
        || any (λ k. not (member k (field_names raw))) expected_fields
      then deny "invalid_criterion"
      else ok tt

  unfoldable pub assess_fields : Criterion → Fields → Result Assessed
  assess_fields c raw = do
    check_fields raw
    (state, coverage, quality) ← assess_states raw
    score ← quality_score state (get "quality_score" raw)
    check_states state coverage quality
    assess_evidence c raw state coverage quality score

  unfoldable pub assess : Criterion → Json → Result Assessed
  assess c null = ok (absent_criterion c)
  assess c (obj raw) = assess_fields c raw
  assess c _ = deny "invalid_criterion"
