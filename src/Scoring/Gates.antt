-- ===== src/Scoring/Gates.antt =====
-- The gates that the decision of `calculate_score` passed.
use venture_capital_lead_res.Prelude.{
  ℕ, ◌*◌, ◌≤◌, ◌≡◌, refl, String, Bool, true, false, not, ◌&&◌, Option, none, List, [], ◌∷◌, All,
  str_eq, member, is_empty, any, arith, str_eq_refl, ap, sym, ◌∙◌,
}
use venture_capital_lead_res.Fail.{ok}
use venture_capital_lead_res.Json.{Decimal, Json, Fields}
use venture_capital_lead_res.Scoring.Rubric.{
  RawRubric, Rubric, load_rubric, recommendation_for_score,
}
use venture_capital_lead_res.Scoring.Criteria.{Assessed}
use venture_capital_lead_res.Scoring.Context.{flag}
use venture_capital_lead_res.Scoring.Score.{
  Decision, Evaluation, covered_names, evaluated_count, missing_checks, is_review, is_unready,
  lacks_high_gate, overridden, decide, calculate_score,
}
use venture_capital_lead_res.Scoring.Scored.{calculate_score-Scored}

-- Nothing stops the recommendation, and the evidence is enough for one.
pub record Ready (unit : ℕ) (rubric : Rubric) (context : Fields) (results : List Assessed)
    (coverage : ℕ) : Type 0 where
  pub not_excluded : flag context "hard_exclusion" ≡ false
  pub not_reviewed : is_review context ≡ false
  pub identified : flag context "identity_reliable" ≡ true
  pub enough : rubric.minimum_count ≤ evaluated_count results
  pub covered : 10000 * rubric.minimum_coverage ≤ coverage * unit
  pub required : All (λ k. member k (covered_names results) ≡ true) rubric.required_criteria

-- Moreover the checks that a high priority asks for are done.
pub record Prioritised (unit : ℕ) (rubric : Rubric) (context : Fields) (results : List Assessed)
    (coverage : ℕ) : Type 0 where
  pub ready : Ready unit rubric context results coverage
  pub covered : 10000 * rubric.high_coverage ≤ coverage * unit
  pub checked : All (λ c. flag context c ≡ true) rubric.required_checks

none_absent :
    (names required : List String)
    → any (λ k. not (member k names)) required ≡ false
    → All (λ k. member k names ≡ true) required
none_absent names [] h = tt
none_absent names (k ∷ ks) h = (ground arith, none_absent names ks (ground arith))

none_missing :
    (context : Fields) (checks : List String)
    → is_empty (missing_checks context checks) ≡ true
    → All (λ c. flag context c ≡ true) checks
unfolding missing_checks
none_missing context [] h = tt
none_missing context (c ∷ cs) h = (ground arith, none_missing context cs (ground arith))

overridden-none :
    (excluded reviewed unready held_back : Bool) (recommended : String)
    → (overridden excluded reviewed unready held_back recommended).override ≡ none
    → (excluded ≡ false)
      × (reviewed ≡ false)
      × (unready ≡ false)
      × ((overridden excluded reviewed unready held_back recommended).recommendation ≡ recommended)
unfolding overridden
overridden-none true reviewed unready held_back recommended h = absurd (cc h)
overridden-none false true unready held_back recommended h = absurd (cc h)
overridden-none false false true held_back recommended h = absurd (cc h)
overridden-none false false false true recommended h = absurd (cc h)
overridden-none false false false false recommended h = (refl, refl, refl, refl)

overridden-high :
    (excluded reviewed unready held_back : Bool) (recommended : String)
    → (overridden excluded reviewed unready held_back recommended).recommendation ≡ "high_priority"
    → (excluded ≡ false)
      × (reviewed ≡ false)
      × (unready ≡ false)
      × (held_back ≡ false)
      × (recommended ≡ "high_priority")
unfolding overridden
overridden-high true reviewed unready held_back recommended h =
    absurd (cc (ap (λ s. str_eq s "pass") h))
overridden-high false true unready held_back recommended h =
    absurd (cc (ap (λ s. str_eq s "needs_human_review") h))
overridden-high false false true held_back recommended h =
    absurd (cc (ap (λ s. str_eq s "insufficient_evidence") h))
overridden-high false false false true recommended h =
    absurd (cc (ap (λ s. str_eq s "research_deeper") h))
overridden-high false false false false recommended h = (refl, refl, refl, refl, h)

module _ (unit : ℕ) (rubric : Rubric) (context : Fields) (results : List Assessed)
    (coverage : ℕ) where
  Ready-flags :
      flag context "hard_exclusion" ≡ false
      → is_review context ≡ false
      → is_unready unit rubric context results coverage ≡ false
      → Ready unit rubric context results coverage
  unfolding is_unready
  Ready-flags a b c = record {
    not_excluded = a;
    not_reviewed = b;
    identified = ground arith;
    enough = ground arith;
    covered = ground arith;
    required = none_absent (covered_names results) rubric.required_criteria (ground arith);
  }

  decide-Ready :
      (recommended : String)
      → (decide unit rubric context results coverage recommended).override ≡ none
      → Ready unit rubric context results coverage
        × ((decide unit rubric context results coverage recommended).recommendation ≡ recommended)
  unfolding decide
  decide-Ready recommended h =
      let (a, b, c, d) = overridden-none _ _ _ _ recommended h in (Ready-flags a b c, d)

  checks_done :
      lacks_high_gate unit rubric context coverage ≡ false
      → (10000 * rubric.high_coverage ≤ coverage * unit)
        × All (λ c. flag context c ≡ true) rubric.required_checks
  unfolding lacks_high_gate
  checks_done passed = (ground arith, none_missing context rubric.required_checks (ground arith))

  decide-Prioritised :
      (recommended : String)
      → (decide unit rubric context results coverage recommended).recommendation ≡ "high_priority"
      → Prioritised unit rubric context results coverage
  unfolding decide
  decide-Prioritised recommended h =
      let (a, b, c, d, wanted) = overridden-high _ _ _ _ recommended h in
      let same : str_eq recommended "high_priority" ≡ true =
        rw wanted (str_eq_refl "high_priority") in
      let done = checks_done (gate (str_eq recommended "high_priority") _ same d) in
      record { ready = Ready-flags a b c; covered = done.0; checked = done.1 }
    where
      gate : (x y : Bool) → x ≡ true → (x && y) ≡ false → y ≡ false
      gate x y p q = ground arith

-- A recommendation that nothing overrides is the one of the score's interval, and was given on
-- reliable identity, with enough criteria evaluated, enough weight covered, each required
-- criterion covered, and no hard exclusion or reason for a human review.
pub calculate_score-Ready :
    (unit : ℕ) (decimal : String → Option Decimal) (raw : RawRubric) (criteria : Fields)
    (weights : Option Json) (context : Fields) (e : Evaluation)
    → calculate_score unit decimal raw criteria weights context ≡ ok e
    → e.override ≡ none
    → (rubric : Rubric) × (load_rubric unit raw ≡ ok rubric)
      × Ready unit rubric context e.criteria e.coverage
      × (recommendation_for_score unit e.final_100 rubric.intervals ≡ ok e.recommendation)
calculate_score-Ready unit decimal raw criteria weights context e h o =
    let s = calculate_score-Scored unit decimal raw criteria weights context e h in
    let v = s.evaluated in
    let plain = ap (λ (d : Decision). d.override) v.decided ∙ o in
    let (ready, kept) =
      decide-Ready unit s.rubric context e.criteria e.coverage v.recommended plain in
    (
      s.rubric,
      s.loaded,
      ready,
      v.recommends ∙ ap ok (sym kept ∙ ap (λ (d : Decision). d.recommendation) v.decided),
    )

-- A score is reported as `high_priority` only if the readiness gates hold, the coverage reaches
-- the gate of a high priority, and each check that the rubric asks for is done.
pub calculate_score-Prioritised :
    (unit : ℕ) (decimal : String → Option Decimal) (raw : RawRubric) (criteria : Fields)
    (weights : Option Json) (context : Fields) (e : Evaluation)
    → calculate_score unit decimal raw criteria weights context ≡ ok e
    → e.recommendation ≡ "high_priority"
    → (rubric : Rubric) × (load_rubric unit raw ≡ ok rubric)
      × Prioritised unit rubric context e.criteria e.coverage
calculate_score-Prioritised unit decimal raw criteria weights context e h o =
    let s = calculate_score-Scored unit decimal raw criteria weights context e h in
    let v = s.evaluated in
    (
      s.rubric,
      s.loaded,
      decide-Prioritised unit s.rubric context e.criteria e.coverage v.recommended
          (ap (λ (d : Decision). d.recommendation) v.decided ∙ o),
    )
