-- ===== src/Facts/Grounds.antt =====
-- The grounds on which two facts are reported as contradictory.
use Prim.Native.String.{compare}
use Prim.Native.Nat.{lt}
use venture_capital_lead_res.Prelude.{
  All-mapped, any-none, ℕ, ◌*◌, ◌<◌, ◌≡◌, ◌≢◌, refl, sym, ap, ◌∙◌, inl, inr, String, Bool, true,
  false, not, ◌||◌, Option, none, some, [], ◌∷◌, All, str_eq_refl, str_eq→eq, any, is_some, arith,
  Bool-cases,
}
use venture_capital_lead_res.Fail.{Result, ok, ok_of}
use venture_capital_lead_res.Json.{ℤ, pos, negsuc}
use venture_capital_lead_res.Facts.Classify.{
  Fact, Value, decimal, text, contradiction, before, period_bounds, overlap_of, periods_overlap,
  magnitude, distance, same_number, same_value, comparable_value, conflicts, identity_fields,
  alias_pairs, aliased, is_incomparable, is_close, classify_values, classify_optional,
  classify_fact_pair,
}
use venture_capital_lead_res.Facts.Periods.{
  Gives, HasPeriod, Gives-aliased, before-not, period_bounds-HasPeriod,
}

same_value_self : (v : Value) → same_value v v ≡ true
unfolding same_value same_number distance
same_value_self (decimal (pos a)) = ground arith
same_value_self (decimal (negsuc a)) = ground arith
same_value_self (text s) = str_eq_refl s

different-values : (v w : Value) → same_value v w ≡ false → v ≢ w
different-values v w h e =
    let same = ap (same_value v) e in let this = same_value_self v in cc (h, same, this)

module _ (casefold : String → String) (parse_numeric_claim : String → Result (Option ℤ))
    (unit : ℕ) where
  conflicts-agree :
      (a b : String) (l r : Option String)
      → conflicts casefold parse_numeric_claim unit l r ≡ false
      → l ≡ some a
      → r ≡ some b
      → casefold a ≡ casefold b
  unfolding conflicts
  conflicts-agree a b l r h p q =
      let both : conflicts casefold parse_numeric_claim unit (some a) (some b) ≡ false =
        ap (λ o. conflicts casefold parse_numeric_claim unit o (some b)) (sym p)
        ∙ ap (conflicts casefold parse_numeric_claim unit l) (sym q)
        ∙ h in
      str_eq→eq (casefold a) (casefold b) (ground arith)

  -- Two values more than one percent of either apart, and more than one percent of 1.
  pub record IsApart (a b : ℤ) : Type 0 where
    pub of_left : magnitude a < 100 * distance a b
    pub of_right : magnitude b < 100 * distance a b
    pub of_one : unit < 100 * distance a b

  is_close-IsApart :
      (v w : Value) (a b : ℤ)
      → is_close casefold parse_numeric_claim unit v w ≡ false
      → v ≡ decimal a
      → w ≡ decimal b
      → IsApart a b
  unfolding is_close
  is_close-IsApart (decimal c) (decimal d) a b h p q =
      let left : c ≡ a = cc p in
      let right : d ≡ b = cc q in
      let kept : is_close casefold parse_numeric_claim unit (decimal a) (decimal b) ≡ false =
        rw (left, right) at h in
      record { of_left = ground arith; of_right = ground arith; of_one = ground arith }
  is_close-IsApart (text s) w a b h p q = absurd (cc p)
  is_close-IsApart (decimal c) (text s) a b h p q = absurd (cc q)

  -- What both facts give of a field, or under two names, agrees up to case.
  abbrev pub FieldAgrees : Fact → Fact → String → Type 0
  FieldAgrees l r name =
      (a b : String) → l.field name ≡ some a → r.field name ≡ some b → casefold a ≡ casefold b

  abbrev pub AliasAgrees : Fact → Fact → String × String → Type 0
  AliasAgrees l r names =
      (a b : String) → Gives l names a → Gives r names b → casefold a ≡ casefold b

  -- Two facts of one identity: what both give of it agrees, up to case.
  pub record IsSameSubject (l r : Fact) : Type 0 where
    pub fields_agree :
        All
          (FieldAgrees l r)
          ("company_id" ∷ "lead_id" ∷ "fact_type" ∷ "definition" ∷ "unit" ∷ "cohort" ∷ [])
    pub aliases_agree :
        All (AliasAgrees l r) (("currency", "currency_code") ∷ ("basis", "measurement_basis") ∷ [])
    pub left_defined : (t : String) × (l.field "definition" ≡ some t)
    pub right_defined : (t : String) × (r.field "definition" ≡ some t)

  is_some-value : (o : Option String) → is_some o ≡ true → (t : String) × (o ≡ some t)
  is_some-value none h = absurd (cc h)
  is_some-value (some t) h = (t, refl)

  incomparable_false :
      (fields aliases left right : Bool)
      → (fields || (aliases || (not left || not right))) ≡ false
      → (fields ≡ false) × (aliases ≡ false) × (left ≡ true) × (right ≡ true)
  incomparable_false fields aliases left right h =
      (ground arith, ground arith, ground arith, ground arith)

  is_incomparable-IsSameSubject :
      (l r : Fact)
      → is_incomparable casefold parse_numeric_claim unit l r ≡ false
      → IsSameSubject l r
  unfolding is_incomparable
  is_incomparable-IsSameSubject l r h =
      let (fields, aliases, left, right) =
        incomparable_false
          (any (λ k. conflicts casefold parse_numeric_claim unit (l.field k) (r.field k))
            identity_fields)
          (any (λ n. conflicts casefold parse_numeric_claim unit (aliased l n) (aliased r n))
            alias_pairs)
          (is_some (l.field "definition")) (is_some (r.field "definition")) h in
      record {
        fields_agree =
            All-mapped {Q = FieldAgrees l r}
              (λ k c a b. conflicts-agree a b (l.field k) (r.field k) c) identity_fields
              (any-none (λ k. conflicts casefold parse_numeric_claim unit (l.field k) (r.field k))
                identity_fields fields);
        aliases_agree =
            All-mapped {Q = AliasAgrees l r}
              (λ n c a b p q.
                conflicts-agree a b (aliased l n) (aliased r n) c (Gives-aliased l n a p)
                  (Gives-aliased r n b q))
              alias_pairs
              (any-none
                (λ n. conflicts casefold parse_numeric_claim unit (aliased l n) (aliased r n))
                alias_pairs aliases);
        left_defined = is_some-value (l.field "definition") left;
        right_defined = is_some-value (r.field "definition") right;
      }

  -- Two periods that have a day in common.
  pub record Overlap (l r : Fact) : Type 0 where
    pub left_start : String
    pub left_end : String
    pub right_start : String
    pub right_end : String
    pub left_period : HasPeriod l left_start left_end
    pub right_period : HasPeriod r right_start right_end
    pub right_reaches : compare right_end left_start ≢ lt
    pub left_reaches : compare left_end right_start ≢ lt

  periods_overlap-Overlap : (l r : Fact) → periods_overlap l r ≡ some true → Overlap l r
  unfolding periods_overlap overlap_of
  periods_overlap-Overlap l r h = by_bounds (period_bounds l) refl (period_bounds r) refl
    where
      by_bounds :
          (left : Option (String × String))
          → period_bounds l ≡ left
          → (right : Option (String × String)) → period_bounds r ≡ right
          → Overlap l r
      by_bounds none p right q = absurd (ground arith)
      by_bounds (some bounds) p none q = absurd (ground arith)
      by_bounds (some (a, b)) p (some (c, d)) q =
          let one : before d a ≡ false = ground arith in
          let two : before b c ≡ false = ground arith in
          record {
            left_start = a;
            left_end = b;
            right_start = c;
            right_end = d;
            left_period = period_bounds-HasPeriod l a b p;
            right_period = period_bounds-HasPeriod r c d q;
            right_reaches = before-not d a one;
            left_reaches = before-not b c two;
          }

  -- Why two facts are reported as contradictory.
  pub record Contradicts (l r : Fact) : Type 0 where
    pub left_value : Value
    pub right_value : Value
    pub left_is : comparable_value casefold parse_numeric_claim unit l ≡ ok (some left_value)
    pub right_is : comparable_value casefold parse_numeric_claim unit r ≡ ok (some right_value)
    pub subject : IsSameSubject l r
    pub overlap : Overlap l r
    pub different : left_value ≢ right_value
    pub apart : (a b : ℤ) → left_value ≡ decimal a → right_value ≡ decimal b → IsApart a b

  grounds :
      (l r : Fact) (v w : Option Value)
      → comparable_value casefold parse_numeric_claim unit l ≡ ok v
      → comparable_value casefold parse_numeric_claim unit r ≡ ok w
      → is_incomparable casefold parse_numeric_claim unit l r ≡ false
      → classify_optional casefold parse_numeric_claim unit (periods_overlap l r) v w
        ≡ contradiction
      → Contradicts l r
  unfolding classify_optional classify_values
  grounds l r none w p q c k = absurd (ground arith)
  grounds l r (some v) none p q c k = absurd (ground arith)
  grounds l r (some v) (some w) p q c k =
      let overlapping : periods_overlap l r ≡ some true = ground arith in
      let different : same_value v w ≡ false = ground arith in
      let apart : is_close casefold parse_numeric_claim unit v w ≡ false = ground arith in
      record {
        left_value = v;
        right_value = w;
        left_is = p;
        right_is = q;
        subject = is_incomparable-IsSameSubject l r c;
        overlap = periods_overlap-Overlap l r overlapping;
        different = different-values v w different;
        apart = λ a b. is_close-IsApart v w a b apart;
      }

  -- Facts are reported as contradictory only if both give a definition; whatever both give of
  -- company, lead, kind of fact, definition, unit, cohort, currency and basis agrees up to case;
  -- both have a period, in order, and neither period ends before the other starts; and both values
  -- are known and differ, which for two numbers means by more than one percent of either, and of 1.
  pub classify_fact_pair-Contradicts :
      (l r : Fact)
      → classify_fact_pair casefold parse_numeric_claim unit l r ≡ ok contradiction
      → Contradicts l r
  unfolding classify_fact_pair
  classify_fact_pair-Contradicts l r h =
      elim (Bool-cases (is_incomparable casefold parse_numeric_claim unit l r)) [
        | inl other ↦ absurd (ground arith)
        | inr same ↦
            let (v, p) =
              ok_of (comparable_value casefold parse_numeric_claim unit l) (λ e f. ground arith) in
            let (w, q) =
              ok_of (comparable_value casefold parse_numeric_claim unit r) (λ e f. ground arith) in
            grounds l r v w p q same (ground arith)
      ]
