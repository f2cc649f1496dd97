-- ===== src/Scoring/Rubric.antt =====
-- `_load_rubric` and `_recommendation_for_score` of vcops.py, from the decoded rubric on: its
-- fields have the types that the `isinstance` checks ask for, and its decimals are finite. A
-- decimal is given in units of 1 / `unit`, where `unit` is a power of ten that suits all of them.
use venture_capital_lead_res.Prelude.{
  ℕ, ◌+◌, ◌*◌, String, code, Bool, true, false, not, ◌&&◌, ◌||◌, Option, none, some, List, [], ◌∷◌,
  map, str_eq, member, length, is_empty, is_some, is_blank, strip, len, any, all_chars, ltb, leb,
  ◌==◌, if◌then◌else◌,
}
use venture_capital_lead_res.Fail.{Result, ok, deny_exit, ◌>>=◌, ◌>>◌}
use venture_capital_lead_res.Json.{ℤ, pos, negsuc}
use venture_capital_lead_res.Validate.Checks.{is_digit}

pub record RawCriterion : Type 0 where
  pub key : String
  pub label : String
  pub weight : ℤ

pub record Interval : Type 0 where
  pub name : String
  pub minimum : ℤ
  pub maximum_exclusive : Option ℤ
  pub maximum_inclusive : Option ℤ

pub record RawRubric : Type 0 where
  pub version : String
  pub criteria : List RawCriterion
  pub minimum_evaluated_criteria : ℤ
  pub minimum_weighted_coverage : ℤ
  pub high_priority_minimum_weighted_coverage : ℤ
  pub required_criteria : List String
  pub high_priority_required_checks : List String
  pub recommendation_intervals : List Interval

-- A checked rubric: what was compared with 0 is a number.
pub record Criterion : Type 0 where
  pub key : String
  pub label : String
  pub weight : ℕ

pub record Rubric : Type 0 where
  pub criteria : List Criterion
  pub minimum_count : ℕ
  pub minimum_coverage : ℕ
  pub high_coverage : ℕ
  pub required_criteria : List String
  pub required_checks : List String
  pub intervals : List Interval

abbrev pub invalid_rubric {ℓ} : {A : Type ℓ} → Result A
invalid_rubric = deny_exit "rubric_invalid" 3

-- `re.fullmatch(r"[a-z][a-z0-9_]{1,99}", key)`.
unfoldable pub is_criterion_key : String → Bool
is_criterion_key String.[] = false
is_criterion_key (String.◌∷◌ c s) =
    (leb b'a' (code c) && leb (code c) b'z')
    && (all_chars (λ k. (leb b'a' k && leb k b'z') || is_digit k || k == b'_') s
        && (leb 1 (len s) && leb (len s) 99))

-- `len(set(keys)) == len(keys)`.
unfoldable pub all_different : List String → Bool
all_different [] = true
all_different (k ∷ ks) = not (member k ks) && all_different ks

-- A weight that is not negative.
unfoldable pub check_criterion : RawCriterion → Result Criterion
check_criterion c =
    if not (is_criterion_key c.key) || is_blank (strip c.label)
    then invalid_rubric
    else elim c.weight [
      | pos w ↦ ok (record { key = c.key; label = c.label; weight = w })
      | negsuc w ↦ invalid_rubric
    ]

unfoldable pub check_criteria : List RawCriterion → Result (List Criterion)
check_criteria [] = ok []
check_criteria (c ∷ cs) = do
  checked ← check_criterion c
  rest ← check_criteria cs
  ok (checked ∷ rest)

unfoldable pub weight_total : List Criterion → ℕ
weight_total [] = 0
weight_total (c ∷ cs) = c.weight + weight_total cs

abbrev pub names : List Criterion → List String
names cs = map (λ (c : Criterion). c.key) cs

-- A threshold between two numbers, as a number.
unfoldable pub between : ℕ → ℕ → ℤ → Result ℕ
between low high (negsuc n) = invalid_rubric
between low high (pos n) = if ltb n low || ltb high n then invalid_rubric else ok n

abbrev pub allowed_checks : List String
allowed_checks = "contradiction_check_complete" ∷ "trajectory_check_complete" ∷ []

abbrev pub interval_names : List String
interval_names = "pass" ∷ "watch" ∷ "research_deeper" ∷ "high_priority" ∷ []

abbrev pub equals : ℤ → ℕ → Bool
equals (pos n) m = n == m
equals (negsuc n) m = false

-- `interval.get("maximum_exclusive", interval.get("maximum_inclusive"))`.
unfoldable pub upper_bound : Interval → Option ℤ
upper_bound i = elim i.maximum_exclusive [ some m ↦ some m | none ↦ i.maximum_inclusive ]

-- One round of the loop over the intervals: the next `cursor`.
unfoldable pub check_interval : ℕ → Bool → Interval → Result ℕ
check_interval cursor final i =
    if not (member i.name interval_names) then invalid_rubric else elim (upper_bound i) [
      | none ↦ invalid_rubric
      | some (negsuc m) ↦ invalid_rubric
      | some (pos m) ↦
          if not (equals i.minimum cursor) || leb m cursor
          then invalid_rubric
          else if not final && not (is_some i.maximum_exclusive)
          then invalid_rubric
          else ok m
    ]

module _ (unit : ℕ) where
  -- The loop, and the test behind it of the last interval. `intervals` is not empty.
  unfoldable pub check_intervals : ℕ → Interval → List Interval → Result (Unit {0})
  check_intervals cursor i [] = do
    maximum ← check_interval cursor true i
    if not (maximum == 100 * unit) || not (is_some i.maximum_inclusive)
        then invalid_rubric
        else ok tt
  check_intervals cursor i (j ∷ rest) = do
    maximum ← check_interval cursor false i
    check_intervals maximum j rest

  -- The keys, labels and weights.
  unfoldable pub load_criteria : RawRubric → Result (List Criterion)
  load_criteria raw =
      if not (str_eq raw.version "3.0")
        || is_empty raw.criteria
        || not (all_different (map (λ (c : RawCriterion). c.key) raw.criteria))
      then invalid_rubric
      else do
        criteria ← check_criteria raw.criteria
        if weight_total criteria == 100 * unit then ok criteria else invalid_rubric

  -- The decision-readiness gates: the count and the two coverages.
  unfoldable pub load_readiness : RawRubric → List Criterion → Result (ℕ × ℕ × ℕ)
  load_readiness raw criteria = do
    count ← between 0 (length criteria) raw.minimum_evaluated_criteria
    coverage ← between 0 unit raw.minimum_weighted_coverage
    high ← between coverage unit raw.high_priority_minimum_weighted_coverage
    if any (λ k. not (member k (names criteria))) raw.required_criteria
          || any (λ c. not (member c allowed_checks)) raw.high_priority_required_checks
        then invalid_rubric
        else ok (count, coverage, high)

  unfoldable pub load_intervals : List Interval → Result (Unit {0})
  load_intervals [] = invalid_rubric
  load_intervals (i ∷ rest) = check_intervals 0 i rest

  unfoldable pub load_rubric : RawRubric → Result Rubric
  load_rubric raw = do
    criteria ← load_criteria raw
    (count, coverage, high) ← load_readiness raw criteria
    load_intervals raw.recommendation_intervals
    ok (record {
      criteria = criteria;
      minimum_count = count;
      minimum_coverage = coverage;
      high_coverage = high;
      required_criteria = raw.required_criteria;
      required_checks = raw.high_priority_required_checks;
      intervals = raw.recommendation_intervals;
    })

  -- A score in thousandths against a bound of the rubric: `score < bound`, `score <= bound`.
  abbrev pub score_below : ℕ → ℤ → Bool
  score_below score (pos b) = ltb (score * unit) (1000 * b)
  score_below score (negsuc b) = false

  abbrev pub score_within : ℕ → ℤ → Bool
  score_within score (pos b) = leb (score * unit) (1000 * b)
  score_within score (negsuc b) = false

  abbrev pub bounded_by : (ℤ → Bool) → Option ℤ → Bool
  bounded_by test none = false
  bounded_by test (some b) = test b

  unfoldable pub holds_score : ℕ → Interval → Bool
  holds_score score i =
      not (score_below score i.minimum)
      && (bounded_by (score_below score) i.maximum_exclusive
          || bounded_by (score_within score) i.maximum_inclusive)

  unfoldable pub recommendation_for_score : ℕ → List Interval → Result String
  recommendation_for_score score [] = invalid_rubric
  recommendation_for_score score (i ∷ rest) =
      let later = recommendation_for_score score rest in
      if holds_score score i then ok i.name else later
