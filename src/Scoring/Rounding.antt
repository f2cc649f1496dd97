-- ===== src/Scoring/Rounding.antt =====
-- `Decimal.quantize` under the default context: rounding half to even.
use native.Mathlib.Nat.{div-add-mod, div-le_of_le-mul}
use native.Mathlib.Decide.{dec_lt}
use venture_capital_lead_res.Prelude.{
  ℕ, ◌+◌, ◌*◌, ◌/◌, ◌%◌, ◌≤◌, ◌<◌, ◌≡◌, sym, ap, ◌∙◌, ◌⊎◌, inl, inr, ltb, ◌==◌, arith,
  if◌then◌else◌,
}

-- The quotient of `n` by `d`, rounded to the nearest number, and to the even one of two.
unfoldable pub round_half_even : ℕ → ℕ → ℕ
round_half_even n d =
    let q = n / d in
    let r = n % d in
    if ltb (2 * r) d then q else if ltb d (2 * r) then q + 1 else if q % 2 == 0 then q else q + 1

quotient-le : (n d k : ℕ) → 0 < d → n ≤ k * d → (n / d < k) ⊎ ((n / d ≡ k) × (n % d ≡ 0))
quotient-le n d k h b =
    let le : n / d ≤ k = div-le_of_le-mul d (omega arith) in
    elim (dec_lt (n / d) k) [
      | yes below ↦ inl below
      | no above ↦
          let same : n / d ≡ k = omega arith in
          let sum : d * k + n % d ≡ n = ap (λ q. d * q + n % d) (sym same) ∙ div-add-mod n d in
          inr (same, omega arith)
    ]

-- What does not exceed a whole number does not exceed it after rounding.
pub round_half_even-le : (n d k : ℕ) → 0 < d → n ≤ k * d → round_half_even n d ≤ k
unfolding round_half_even
round_half_even-le n d k h b = ground (arith, quotient-le n d k h b)
