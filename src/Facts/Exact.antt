-- ===== src/Facts/Exact.antt =====
-- The grounds of a contradiction are exact: two facts with them are reported as contradictory.
use Prim.Native.String.{compare}
use Prim.Native.Nat.{lt}
use venture_capital_lead_res.Prelude.{
  ℕ, ◌≡◌, ◌≢◌, ◌↔◌, refl, ap, inl, inr, String, Bool, true, false, Option, none, some, List, [],
  ◌∷◌, All, All-mapped, str_eq, str_eq_refl, str_eq→eq, any, arith, Bool-cases,
}
use venture_capital_lead_res.Fail.{Result, ok}
use venture_capital_lead_res.Json.{ℤ}
use venture_capital_lead_res.Facts.Classify.{
  Fact, Value, decimal, text, contradiction, before, ordered_bounds, bounds_of, period_bounds,
  overlap_of, periods_overlap, same_number, same_value, conflicts, identity_fields, alias_pairs,
  aliased, is_incomparable, is_close, classify_values, classify_optional, classify_fact_pair,
}
use venture_capital_lead_res.Facts.Periods.{
  Omits, HasPeriod, two_bounds, only_start, only_finish, aliased-Gives, Gives-aliased,
}
use venture_capital_lead_res.Facts.Grounds.{
  IsApart, FieldAgrees, AliasAgrees, IsSameSubject, Overlap, Contradicts,
  classify_fact_pair-Contradicts,
}

not_before : (s t : String) → compare s t ≢ lt → before s t ≡ false
unfolding before
not_before s t h = elim (Bool-cases (before s t)) [
  | inl yes_before ↦ absurd (h (ground arith))
  | inr later ↦ later
]

before_self : (s : String) → before s s ≡ false
unfolding before
before_self s = let same = str_eq_refl s in ground arith

Omits-aliased : (f : Fact) (names : String × String) → Omits f names → aliased f names ≡ none
Omits-aliased f names (p, q) = rw p q

bounds_of-pair :
    (f : Fact) (from to : Option String) (bounds : Option (String × String))
    → aliased f ("period_start", "valid_from") ≡ from
    → aliased f ("period_end", "valid_to") ≡ to
    → bounds_of from to ≡ bounds
    → period_bounds f ≡ bounds
unfolding period_bounds
bounds_of-pair f from to bounds p q h = rw (p, q) h

HasPeriod-period_bounds :
    (f : Fact) (s t : String) → HasPeriod f s t → period_bounds f ≡ some (s, t)
unfolding bounds_of ordered_bounds
HasPeriod-period_bounds f from to (two_bounds s t p q c) =
    let ordered = not_before t s c in
    bounds_of-pair f (some s) (some t) (some (s, t))
      (Gives-aliased f ("period_start", "valid_from") s p)
      (Gives-aliased f ("period_end", "valid_to") t q) (ground arith)
HasPeriod-period_bounds f from to (only_start s p q) =
    let ordered = before_self s in
    bounds_of-pair f (some s) none (some (s, s))
      (Gives-aliased f ("period_start", "valid_from") s p)
      (Omits-aliased f ("period_end", "valid_to") q) (ground arith)
HasPeriod-period_bounds f from to (only_finish t p q) =
    let ordered = before_self t in
    bounds_of-pair f none (some t) (some (t, t)) (Omits-aliased f ("period_start", "valid_from") p)
      (Gives-aliased f ("period_end", "valid_to") t q) (ground arith)

All-any : {A : Type 0} (p : A → Bool) (xs : List A) → All (λ x. p x ≡ false) xs → any p xs ≡ false
All-any p [] h = refl
All-any p (x ∷ xs) (h, hs) = let later = All-any p xs hs in ground arith

module _ (casefold : String → String) (parse_numeric_claim : String → Result (Option ℤ))
    (unit : ℕ) where
  Overlap-periods_overlap :
      (l r : Fact) → Overlap casefold parse_numeric_claim unit l r → periods_overlap l r ≡ some true
  unfolding periods_overlap overlap_of
  Overlap-periods_overlap l r o =
      let one = not_before o.right_end o.left_start o.right_reaches in
      let two = not_before o.left_end o.right_start o.left_reaches in
      rw
        (
          HasPeriod-period_bounds l o.left_start o.left_end o.left_period,
          HasPeriod-period_bounds r o.right_start o.right_end o.right_period,
        )
        (ground arith)

  agree-conflicts :
      (l r : Option String)
      → ((a b : String) → l ≡ some a → r ≡ some b → casefold a ≡ casefold b)
      → conflicts casefold parse_numeric_claim unit l r ≡ false
  unfolding conflicts
  agree-conflicts none none h = refl
  agree-conflicts none (some b) h = refl
  agree-conflicts (some a) none h = refl
  agree-conflicts (some a) (some b) h = rw (h a b refl refl, str_eq_refl (casefold b)) refl

  IsSameSubject-is_incomparable :
      (l r : Fact)
      → IsSameSubject casefold parse_numeric_claim unit l r
      → is_incomparable casefold parse_numeric_claim unit l r ≡ false
  unfolding is_incomparable
  IsSameSubject-is_incomparable l r s =
      let fields =
        All-any (λ k. conflicts casefold parse_numeric_claim unit (l.field k) (r.field k))
          identity_fields
          (All-mapped {P = FieldAgrees casefold parse_numeric_claim unit l r}
            {Q = λ k. conflicts casefold parse_numeric_claim unit (l.field k) (r.field k) ≡ false}
            (λ k. agree-conflicts (l.field k) (r.field k)) identity_fields s.fields_agree) in
      let aliases =
        All-any (λ n. conflicts casefold parse_numeric_claim unit (aliased l n) (aliased r n))
          alias_pairs
          (All-mapped {P = AliasAgrees casefold parse_numeric_claim unit l r}
            {Q = λ n.
              conflicts casefold parse_numeric_claim unit (aliased l n) (aliased r n) ≡ false}
            (λ n h.
              agree-conflicts (aliased l n) (aliased r n)
                (λ a b p q. h a b (aliased-Gives l n a p) (aliased-Gives r n b q)))
            alias_pairs s.aliases_agree) in
      rw (fields, aliases, s.left_defined.1, s.right_defined.1) refl

  apart-classified :
      (v w : Value)
      → v ≢ w
      → ((a b : ℤ) → v ≡ decimal a → w ≡ decimal b → IsApart casefold parse_numeric_claim unit a b)
      → classify_values casefold parse_numeric_claim unit (some true) v w ≡ contradiction
  unfolding classify_values same_value same_number is_close
  apart-classified (decimal a) (decimal b) h k =
      let apart = k a b refl refl in
      let one = apart.of_left in
      let two = apart.of_right in let three = apart.of_one in ground arith
  apart-classified (decimal a) (text t) h k = refl
  apart-classified (text s) (decimal b) h k = refl
  apart-classified (text s) (text t) h k = elim (Bool-cases (str_eq s t)) [
    | inl same ↦ absurd (h (ap text (str_eq→eq s t same)))
    | inr other ↦ rw other refl
  ]

  Contradicts-classify_fact_pair :
      (l r : Fact)
      → Contradicts casefold parse_numeric_claim unit l r
      → classify_fact_pair casefold parse_numeric_claim unit l r ≡ ok contradiction
  unfolding classify_fact_pair classify_optional
  Contradicts-classify_fact_pair l r c =
      rw
        (
          IsSameSubject-is_incomparable l r c.subject,
          c.left_is,
          c.right_is,
          Overlap-periods_overlap l r c.overlap,
          apart-classified c.left_value c.right_value c.different c.apart,
        )
        refl

  -- Facts are reported as contradictory exactly if both give a definition; whatever both give of
  -- company, lead, kind of fact, definition, unit, cohort, currency and basis agrees up to case;
  -- both have a period, in order, and neither period ends before the other starts; and both values
  -- are known and differ, which for two numbers means by more than one percent of either, and of 1.
  pub classify_fact_pair-exact :
      (l r : Fact)
      → (classify_fact_pair casefold parse_numeric_claim unit l r ≡ ok contradiction)
        ↔ Contradicts casefold parse_numeric_claim unit l r
  classify_fact_pair-exact l r = (
    classify_fact_pair-Contradicts casefold parse_numeric_claim unit l r,
    Contradicts-classify_fact_pair l r,
  )
