-- ===== src/Scoring/Context.antt =====
-- The decision context and its adjustments in `calculate_score` of vcops.py.
use venture_capital_lead_res.Prelude.{
  ℕ, ◌+◌, ◌-◌, ◌*◌, ◌/◌, ◌%◌, String, Bool, false, not, ◌||◌, Option, none, some, List, [], ◌∷◌,
  str_eq, member, is_empty, any, ltb, ◌==◌, if◌then◌else◌,
}
use venture_capital_lead_res.Fail.{Result, ok, deny, vcops_error, refuse_if, ◌>>=◌, ◌>>◌}
use venture_capital_lead_res.Json.{
  ℤ, pos, negsuc, Decimal, finite, Json, boolean, str, arr, obj, Items, nil, cons, Fields, get,
  get_field, field_names, is_boolean,
}
use venture_capital_lead_res.Validate.Checks.{require_text}
use venture_capital_lead_res.Scoring.Criteria.{decimal_of}
use venture_capital_lead_res.Scoring.Evidence.{evidence_ids}

-- The flags, which are what is allowed but "adjustments".
abbrev pub context_flags : List String
context_flags =
    "identity_reliable" ∷ "hard_exclusion" ∷ "blocking_contradiction"
    ∷ "confidentiality_or_legal_issue" ∷ "approval_boundary" ∷ "unreliable_high_priority_evidence"
    ∷ "contradiction_check_complete" ∷ "trajectory_check_complete" ∷ []

-- `field in context and not isinstance(context[field], bool)`.
unfoldable pub is_bad_flag : Fields → String → Bool
is_bad_flag context name = elim (get_field name context) [
  | none ↦ false
  | some value ↦ not (is_boolean value)
]

unfoldable pub check_context : Fields → Result (Unit {0})
check_context context = do
  refuse_if (any (λ k. not (member k ("adjustments" ∷ context_flags))) (field_names context))
      (vcops_error "invalid_decision_context" 2)
  refuse_if (any (is_bad_flag context) context_flags) (vcops_error "invalid_decision_context" 2)

-- `context.get(field, False)` of a checked context, as a condition.
unfoldable pub flag : Fields → String → Bool
flag context name = elim (get name context) [ boolean b ↦ b | _ ↦ false ]

-- The points of an adjustment, in whole points.
pub record Adjustment : Type 0 where
  pub kind : String
  pub points : ℤ
  pub reason : String
  pub evidence_fact_ids : List ℕ

abbrev pub adjustment_fields : List String
adjustment_fields = "kind" ∷ "points" ∷ "reason" ∷ "evidence_fact_ids" ∷ []

-- `max(0, value)` and `max(0, -value)`.
abbrev pub gain : ℤ → ℕ
gain (pos n) = n
gain (negsuc n) = 0

abbrev pub loss : ℤ → ℕ
loss (pos n) = 0
loss (negsuc n) = n + 1

module _ (unit : ℕ) (decimal : String → Option Decimal) where
  -- The points as a finite decimal, in units of 1 / `unit`.
  unfoldable pub raw_points : Json → Result ℤ
  raw_points raw = elim (decimal_of unit decimal raw) [
    | some (finite z) ↦ ok z
    | _ ↦ deny "invalid_adjustment"
  ]

  -- A whole number from -5 to 5.
  unfoldable pub trajectory_points : ℤ → Result ℤ
  trajectory_points (pos n) =
      if not (n % unit == 0) || ltb (5 * unit) n
      then deny "invalid_adjustment"
      else ok (pos (n / unit))
  trajectory_points (negsuc n) =
      if not ((n + 1) % unit == 0) || ltb (5 * unit) (n + 1)
      then deny "invalid_adjustment"
      else ok (negsuc ((n + 1) / unit - 1))

  -- Exactly -5 or -10.
  unfoldable pub contradiction_points : ℤ → Result ℤ
  contradiction_points (pos n) = deny "invalid_adjustment"
  contradiction_points (negsuc n) =
      if n + 1 == 5 * unit
      then ok (negsuc 4)
      else if n + 1 == 10 * unit
      then ok (negsuc 9)
      else deny "invalid_adjustment"

  -- The points that the kind allows.
  unfoldable pub adjustment_points : Json → ℤ → Result ℤ
  adjustment_points (str kind) points =
      if str_eq kind "material_unresolved_contradiction"
      then contradiction_points points
      else if str_eq kind "trajectory"
      then trajectory_points points
      else deny "invalid_adjustment"
  adjustment_points _ points = deny "invalid_adjustment"

  unfoldable pub kind_text : Json → String
  kind_text (str kind) = kind
  kind_text _ = ""

  unfoldable pub adjust_fields : Fields → Result Adjustment
  adjust_fields adjustment = do
    refuse_if
        (any (λ k. not (member k adjustment_fields)) (field_names adjustment)
          || any (λ k. not (member k (field_names adjustment))) adjustment_fields)
        (vcops_error "invalid_adjustment" 2)
    raw ← raw_points (get "points" adjustment)
    points ← adjustment_points (get "kind" adjustment) raw
    ids ← evidence_ids (get "evidence_fact_ids" adjustment)
    refuse_if (is_empty ids) (vcops_error "evidence_required" 2)
    reason ← require_text (get "reason" adjustment) 2000
    ok (record {
      kind = kind_text (get "kind" adjustment);
      points = points;
      reason = reason;
      evidence_fact_ids = ids;
    })

  unfoldable pub adjust : Json → Result Adjustment
  adjust (obj fields) = adjust_fields fields
  adjust _ = deny "invalid_adjustment"

  unfoldable pub adjust_items : Items → Result (List Adjustment)
  adjust_items nil = ok []
  adjust_items (cons item rest) = do
    first ← adjust item
    later ← adjust_items rest
    ok (first ∷ later)

  -- `context.get("adjustments", [])`.
  unfoldable pub adjustments : Fields → Result (List Adjustment)
  adjustments context = elim (get_field "adjustments" context) [
    | none ↦ ok []
    | some (arr items) ↦ adjust_items items
    | some _ ↦ deny "invalid_adjustment"
  ]

unfoldable pub total_gain : List Adjustment → ℕ
total_gain [] = 0
total_gain (a ∷ later) = gain a.points + total_gain later

unfoldable pub total_loss : List Adjustment → ℕ
total_loss [] = 0
total_loss (a ∷ later) = loss a.points + total_loss later
