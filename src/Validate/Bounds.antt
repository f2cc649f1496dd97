-- ===== src/Validate/Bounds.antt =====
-- The range of what `_positive_bigint` of vcops.py accepts.
use venture_capital_lead_res.Prelude.{ℕ, ◌+◌, ◌-◌, ◌*◌, ◌≤◌, ◌≡◌, String, code, true, some, arith}
use venture_capital_lead_res.Fail.{ok}
use venture_capital_lead_res.Validate.Checks.{
  is_positive_shape, digits_value, bounded_bigint, bigint_max, positive_bigint,
}

digits_value-le : (acc : ℕ) (text : String) → acc ≤ digits_value acc text
unfolding digits_value
digits_value-le acc String.[] = omega arith
digits_value-le acc (String.◌∷◌ c s) = omega (arith, digits_value-le (acc * 10 + (code c - b'0')) s)

digits_value-positive : (text : String) → is_positive_shape text ≡ true → 1 ≤ digits_value 0 text
unfolding digits_value is_positive_shape
digits_value-positive String.[] h = absurd (ground arith)
digits_value-positive (String.◌∷◌ c s) h =
    let first : b'1' ≤ code c = ground arith in
    omega (arith, digits_value-le (0 * 10 + (code c - b'0')) s)

-- An identifier that is accepted is one that a PostgreSQL `bigint` holds, and not 0.
pub positive_bigint-bounded :
    (text : String) (n : ℕ) → positive_bigint (some text) ≡ ok (some n) → (1 ≤ n) × (n ≤ bigint_max)
unfolding positive_bigint bounded_bigint
positive_bigint-bounded text n h = ground (arith, digits_value-positive text)
