-- ===== src/Facts/Compared.antt =====
-- The comparison of two facts does not depend on their order.
use venture_capital_lead_res.Prelude.{
  ℕ, ◌≡◌, refl, sym, ap, ◌∙◌, inl, inr, String, Bool, true, false, not, ◌&&◌, Option, none, some,
  List, [], ◌∷◌, str_eq, str_eq_refl, str_eq→eq, any, ◌==◌, arith, Bool-cases,
}
use venture_capital_lead_res.Fail.{Result, ok, Result-cases}
use venture_capital_lead_res.Json.{ℤ, pos, negsuc}
use venture_capital_lead_res.Facts.Classify.{
  Fact, Value, decimal, text, Class, before, period_bounds, overlap_of, periods_overlap, distance,
  same_number, same_value, comparable_value, conflicts, identity_fields, alias_pairs, aliased,
  is_incomparable, is_close, classify_values, classify_optional, classify_fact_pair,
}

str_eq-sym : (s t : String) → str_eq s t ≡ str_eq t s
str_eq-sym s t = elim (Bool-cases (str_eq s t)) [
  | inl same ↦
      let back : str_eq t s ≡ true = rw (str_eq→eq s t same) (str_eq_refl t) in same ∙ sym back
  | inr other ↦ elim (Bool-cases (str_eq t s)) [
    | inl same ↦
        let back : str_eq s t ≡ true = rw (str_eq→eq t s same) (str_eq_refl s) in
        absurd (ground arith)
    | inr also ↦ other ∙ sym also
  ]
]

and_comm : (a b : Bool) → (a && b) ≡ (b && a)
and_comm a b = ground arith

overlap_of_comm : (l r : Option (String × String)) → overlap_of l r ≡ overlap_of r l
unfolding overlap_of
overlap_of_comm none none = refl
overlap_of_comm none (some r) = refl
overlap_of_comm (some l) none = refl
overlap_of_comm (some (a, b)) (some (c, d)) =
    ap some (and_comm (not (before d a)) (not (before b c)))

distance_comm : (a b : ℤ) → distance a b ≡ distance b a
unfolding distance
distance_comm (pos a) (pos b) = omega arith
distance_comm (pos a) (negsuc b) = omega arith
distance_comm (negsuc a) (pos b) = omega arith
distance_comm (negsuc a) (negsuc b) = omega arith

same_value_comm : (v w : Value) → same_value v w ≡ same_value w v
unfolding same_value same_number
same_value_comm (decimal a) (decimal b) = ap (λ n. n == 0) (distance_comm a b)
same_value_comm (decimal a) (text t) = refl
same_value_comm (text s) (decimal b) = refl
same_value_comm (text s) (text t) = str_eq-sym s t

module _ (casefold : String → String) (parse_numeric_claim : String → Result (Option ℤ))
    (unit : ℕ) where
  is_close_comm :
      (v w : Value)
      → is_close casefold parse_numeric_claim unit v w
        ≡ is_close casefold parse_numeric_claim unit w v
  unfolding is_close
  is_close_comm (decimal a) (decimal b) = rw (distance_comm a b) (ground arith)
  is_close_comm (decimal a) (text t) = refl
  is_close_comm (text s) (decimal b) = refl
  is_close_comm (text s) (text t) = refl

  conflicts_comm :
      (a b : Option String)
      → conflicts casefold parse_numeric_claim unit a b
        ≡ conflicts casefold parse_numeric_claim unit b a
  unfolding conflicts
  conflicts_comm none none = refl
  conflicts_comm none (some b) = refl
  conflicts_comm (some a) none = refl
  conflicts_comm (some a) (some b) = ap not (str_eq-sym (casefold a) (casefold b))

  is_incomparable_comm :
      (l r : Fact)
      → is_incomparable casefold parse_numeric_claim unit l r
        ≡ is_incomparable casefold parse_numeric_claim unit r l
  unfolding is_incomparable
  is_incomparable_comm l r = ground (
    arith,
    any_eq (λ k. conflicts casefold parse_numeric_claim unit (l.field k) (r.field k))
        (λ k. conflicts casefold parse_numeric_claim unit (r.field k) (l.field k))
        (λ k. conflicts_comm (l.field k) (r.field k)) identity_fields,
    any_eq (λ k. conflicts casefold parse_numeric_claim unit (aliased l k) (aliased r k))
        (λ k. conflicts casefold parse_numeric_claim unit (aliased r k) (aliased l k))
        (λ k. conflicts_comm (aliased l k) (aliased r k)) alias_pairs,
  )
    where
      any_eq :
          {A : Type 0} (p q : A → Bool)
          → ((x : A) → p x ≡ q x)
          → (xs : List A) → any p xs ≡ any q xs
      any_eq p q h [] = refl
      any_eq p q h (x ∷ xs) = rw (h x, any_eq p q h xs) refl

  classify_values_comm :
      (o : Option Bool) (v w : Value)
      → classify_values casefold parse_numeric_claim unit o v w
        ≡ classify_values casefold parse_numeric_claim unit o w v
  unfolding classify_values
  classify_values_comm none v w = rw (same_value_comm v w) refl
  classify_values_comm (some false) v w = refl
  classify_values_comm (some true) v w = rw (same_value_comm v w, is_close_comm v w) refl

  classify_optional_comm :
      (o : Option Bool) (v w : Option Value)
      → classify_optional casefold parse_numeric_claim unit o v w
        ≡ classify_optional casefold parse_numeric_claim unit o w v
  unfolding classify_optional
  classify_optional_comm o none none = refl
  classify_optional_comm o none (some w) = refl
  classify_optional_comm o (some v) none = refl
  classify_optional_comm o (some v) (some w) = classify_values_comm o v w

  -- The class of two facts does not depend on which of them comes first.
  pub classify_fact_pair_comm :
      (l r : Fact) (c : Class)
      → classify_fact_pair casefold parse_numeric_claim unit l r ≡ ok c
      → classify_fact_pair casefold parse_numeric_claim unit r l ≡ ok c
  unfolding classify_fact_pair periods_overlap
  classify_fact_pair_comm l r c h =
      let overlap = overlap_of_comm (period_bounds r) (period_bounds l) in
      elim (Result-cases (comparable_value casefold parse_numeric_claim unit l)) [
        | inl (v, p) ↦ elim (Result-cases (comparable_value casefold parse_numeric_claim unit r)) [
          | inl (w, q) ↦
              let swapped =
                classify_optional_comm (overlap_of (period_bounds l) (period_bounds r)) w v in
              ground (arith, is_incomparable_comm r l, overlap, swapped)
          | inr (e, refused) ↦ ground (arith, is_incomparable_comm r l)
        ]
        | inr (e, refused) ↦ ground (arith, is_incomparable_comm r l)
      ]
