-- ===== src/Facts/Classify.antt =====
-- `classify_fact_pair` of vcops.py with `_period_bounds`, `_periods_overlap` and
-- `_comparable_value`. Numbers are integers in units of 1 / `unit`; that Python's context rounds a
-- quotient to 28 digits is not modelled.
use Prim.Native.Nat.{lt, eq, gt}
use Prim.Native.String.{compare}
use venture_capital_lead_res.Prelude.{
  ℕ, suc, ◌+◌, ◌-◌, ◌*◌, String, Bool, true, false, not, ◌&&◌, ◌||◌, Option, none, some, List, [],
  ◌∷◌, str_eq, any, is_some, leb, ◌==◌, strip, if◌then◌else◌,
}
use venture_capital_lead_res.Fail.{Result, ok, ◌>>=◌}
use venture_capital_lead_res.Json.{ℤ, pos, negsuc}

-- `value_numeric`: None, a value that `Decimal` refuses, or a finite number.
pub data Numeric : Type 0 where
  no_number unreadable : Numeric
  number : ℤ → Numeric

-- `field name` is `str(fact[name])` where `fact.get(name)` is true as a condition; `value` is the
-- text of `fact.get("value")`, which may be empty.
pub record Fact : Type 0 where
  pub field : String → Option String
  pub value_numeric : Numeric
  pub value : Option String

pub data Value : Type 0 where
  decimal : ℤ → Value
  text : String → Value

pub data Class : Type 0 where
  not_comparable trajectory consistent contradiction : Class

-- `left < right` of texts; the texts are ISO dates.
unfoldable pub before : String → String → Bool
before left right = elim (compare left right) [ lt ↦ true | eq ↦ false | gt ↦ false ]

-- `a or b`.
abbrev pub either_of : Option String → Option String → Option String
either_of none b = b
either_of (some a) b = some a

unfoldable pub ordered_bounds : String → String → Option (String × String)
ordered_bounds start finish = if before finish start then none else some (start, finish)

-- Neither bound, one bound as a point, or both.
unfoldable pub bounds_of : Option String → Option String → Option (String × String)
bounds_of none none = none
bounds_of none (some finish) = ordered_bounds finish finish
bounds_of (some start) none = ordered_bounds start start
bounds_of (some start) (some finish) = ordered_bounds start finish

unfoldable pub period_bounds : Fact → Option (String × String)
period_bounds f =
    bounds_of (either_of (f.field "period_start") (f.field "valid_from"))
      (either_of (f.field "period_end") (f.field "valid_to"))

unfoldable pub overlap_of : Option (String × String) → Option (String × String) → Option Bool
overlap_of none r = none
overlap_of (some l) none = none
overlap_of (some (left_start, left_end)) (some (right_start, right_end)) =
    some (not (before right_end left_start) && not (before left_end right_start))

unfoldable pub periods_overlap : Fact → Fact → Option Bool
periods_overlap left right = overlap_of (period_bounds left) (period_bounds right)

abbrev pub magnitude : ℤ → ℕ
magnitude (pos n) = n
magnitude (negsuc n) = suc n

-- `abs(left - right)`.
unfoldable pub distance : ℤ → ℤ → ℕ
distance (pos a) (pos b) = (a - b) + (b - a)
distance (pos a) (negsuc b) = a + suc b
distance (negsuc a) (pos b) = suc a + b
distance (negsuc a) (negsuc b) = (a - b) + (b - a)

unfoldable pub same_number : ℤ → ℤ → Bool
same_number a b = distance a b == 0

unfoldable pub same_value : Value → Value → Bool
same_value (decimal a) (decimal b) = same_number a b
same_value (text s) (text t) = str_eq s t
same_value _ _ = false

abbrev pub identity_fields : List String
identity_fields = "company_id" ∷ "lead_id" ∷ "fact_type" ∷ "definition" ∷ "unit" ∷ "cohort" ∷ []

abbrev pub alias_pairs : List (String × String)
alias_pairs = ("currency", "currency_code") ∷ ("basis", "measurement_basis") ∷ []

abbrev pub aliased : Fact → String × String → Option String
aliased f names = either_of (f.field names.0) (f.field names.1)

-- `casefold` is `str.casefold`; `parse_numeric_claim` gives the `value` of its result.
module _ (casefold : String → String) (parse_numeric_claim : String → Result (Option ℤ))
    (unit : ℕ) where
  unfoldable pub text_value : Option String → Result (Option Value)
  text_value none = ok none
  text_value (some t) = do
    parsed ← parse_numeric_claim t
    elim parsed [ some z ↦ ok (some (decimal z)) | none ↦ ok (some (text (casefold (strip t)))) ]

  unfoldable pub comparable_value : Fact → Result (Option Value)
  comparable_value f = elim f.value_numeric [
    | number z ↦ ok (some (decimal z))
    | unreadable ↦ ok none
    | no_number ↦
        text_value (either_of (either_of (f.field "value_text") (f.field "original_value")) f.value)
  ]

  -- Both are given, and they differ.
  unfoldable pub conflicts : Option String → Option String → Bool
  conflicts (some a) (some b) = not (str_eq (casefold a) (casefold b))
  conflicts _ _ = false

  unfoldable pub is_incomparable : Fact → Fact → Bool
  is_incomparable left right =
      any (λ k. conflicts (left.field k) (right.field k)) identity_fields
      || (any (λ names. conflicts (aliased left names) (aliased right names)) alias_pairs
          || (not (is_some (left.field "definition")) || not (is_some (right.field "definition"))))

  -- Within one percent of the greater magnitude, which counts as 1 at least.
  unfoldable pub is_close : Value → Value → Bool
  is_close (decimal a) (decimal b) =
      let apart = 100 * distance a b in
      leb apart (magnitude a) || (leb apart (magnitude b) || leb apart unit)
  is_close _ _ = false

  unfoldable pub classify_values : Option Bool → Value → Value → Class
  classify_values overlap left right = elim overlap [
    | some false ↦ trajectory
    | none ↦ if same_value left right then consistent else not_comparable
    | some true ↦ if same_value left right || is_close left right then consistent else contradiction
  ]

  unfoldable pub classify_optional : Option Bool → Option Value → Option Value → Class
  classify_optional overlap (some left) (some right) = classify_values overlap left right
  classify_optional overlap _ _ = not_comparable

  unfoldable pub classify_fact_pair : Fact → Fact → Result Class
  classify_fact_pair left right = if is_incomparable left right then ok not_comparable else do
    left_value ← comparable_value left
    right_value ← comparable_value right
    ok (classify_optional (periods_overlap left right) left_value right_value)
