-- ===== src/Scoring/Intervals.antt =====
-- The intervals of a checked rubric cover every score.
use native.Mathlib.Nat.{mul-le-mul_right}
use native.Mathlib.Decide.{dec_lt}
use venture_capital_lead_res.Prelude.{
  ℕ, ◌*◌, ◌≤◌, ◌<◌, ◌≡◌, refl, ap, ◌∙◌, inl, inr, String, Bool, true, false, not, ◌&&◌, some, List,
  [], ◌∷◌, member, is_some, all, Bool-cases, Option-cases, arith,
}
use venture_capital_lead_res.Fail.{ok, Result-cases}
use venture_capital_lead_res.Json.{ℤ, pos, negsuc}
use venture_capital_lead_res.Scoring.Rubric.{
  Interval, interval_names, equals, upper_bound, check_interval, check_intervals, score_below,
  holds_score, recommendation_for_score,
}

equals→eq : (z : ℤ) (n : ℕ) → equals z n ≡ true → z ≡ pos n
equals→eq (pos m) n h = ground arith
equals→eq (negsuc m) n h = cc

pub record Checked (cursor : ℕ) (final : Bool) (i : Interval) (m : ℕ) : Type 0 where
  pub minimum : i.minimum ≡ pos cursor
  pub upper : upper_bound i ≡ some (pos m)
  pub ordered : cursor < m
  pub named : member i.name interval_names ≡ true
  pub exclusive : final ≡ false → is_some i.maximum_exclusive ≡ true

check_interval-upper :
    (cursor : ℕ) (final : Bool) (i : Interval) (m : ℕ)
    → check_interval cursor final i ≡ ok m
    → upper_bound i ≡ some (pos m)
unfolding check_interval
check_interval-upper cursor final i m h = elim (Option-cases (upper_bound i)) [
  | inl missing ↦ absurd (ground arith)
  | inr (pos k, e) ↦ let same : k ≡ m = ground arith in e ∙ ap (λ x. some (pos x)) same
  | inr (negsuc k, e) ↦ absurd (ground arith)
]

pub check_interval-Checked :
    (cursor : ℕ) (final : Bool) (i : Interval) (m : ℕ)
    → check_interval cursor final i ≡ ok m
    → Checked cursor final i m
unfolding check_interval
check_interval-Checked cursor final i m h =
    let upper = check_interval-upper cursor final i m h in
    record {
      minimum = equals→eq i.minimum cursor (ground arith);
      upper = upper;
      ordered = ground arith;
      named = ground arith;
      exclusive = λ f. ground arith;
    }

-- `maximum_exclusive` and `maximum_inclusive` are alternatives.
abbrev pub has_one_bound : Interval → Bool
has_one_bound i = not (is_some i.maximum_exclusive && is_some i.maximum_inclusive)

pub upper_of_exclusive :
    (i : Interval) (m : ℕ)
    → upper_bound i ≡ some (pos m)
    → is_some i.maximum_exclusive ≡ true
    → i.maximum_exclusive ≡ some (pos m)
unfolding upper_bound
upper_of_exclusive i m u e = ground arith

upper_of_inclusive :
    (i : Interval) (m : ℕ)
    → upper_bound i ≡ some (pos m)
    → has_one_bound i ≡ true
    → is_some i.maximum_inclusive ≡ true
    → i.maximum_inclusive ≡ some (pos m)
unfolding upper_bound
upper_of_inclusive i m u o e = ground arith

-- `P` holds of the name of the first interval that holds the score.
pub record Recommended (unit score : ℕ) (intervals : List Interval) : Type 0 where
  pub name : String
  pub result : recommendation_for_score unit score intervals ≡ ok name
  pub known : member name interval_names ≡ true

module _ (unit score : ℕ) where
  not_below :
      (i : Interval) (cursor : ℕ)
      → i.minimum ≡ pos cursor
      → 1000 * cursor ≤ score * unit
      → score_below unit score i.minimum ≡ false
  not_below i cursor e h = rw e (ground arith)

  last_holds :
      (cursor : ℕ) (i : Interval) (m : ℕ)
      → score ≤ 100000
      → 1000 * cursor ≤ score * unit
      → Checked cursor true i m
      → m ≡ 100 * unit
      → is_some i.maximum_inclusive ≡ true
      → has_one_bound i ≡ true
      → holds_score unit score i ≡ true
  unfolding holds_score
  last_holds cursor i m top low c total incl one =
      let bound = upper_of_inclusive i m c.upper one incl in
      let scaled : score * unit ≤ 100000 * unit = mul-le-mul_right unit top in
      let within : score * unit ≤ 1000 * m = rw total (omega arith) in
      rw bound (ground (arith, not_below i cursor c.minimum low))

  middle_holds :
      (cursor : ℕ) (i : Interval) (m : ℕ)
      → 1000 * cursor ≤ score * unit
      → Checked cursor false i m
      → score * unit < 1000 * m
      → holds_score unit score i ≡ true
  unfolding holds_score
  middle_holds cursor i m low c high =
      let bound = upper_of_exclusive i m c.upper (c.exclusive refl) in
      rw bound (ground (arith, not_below i cursor c.minimum low))

  pub recommended :
      (cursor : ℕ) (i : Interval) (rest : List Interval)
      → score ≤ 100000
      → 1000 * cursor ≤ score * unit
      → all has_one_bound (i ∷ rest) ≡ true
      → check_intervals unit cursor i rest ≡ ok tt
      → Recommended unit score (i ∷ rest)
  unfolding recommendation_for_score check_intervals
  recommended cursor i [] top low one h = elim (Result-cases (check_interval cursor true i)) [
    | inl (m, passed) ↦
        let c = check_interval-Checked cursor true i m passed in
        let total : m ≡ 100 * unit = ground arith in
        let incl : is_some i.maximum_inclusive ≡ true = ground arith in
        let holds = last_holds cursor i m top low c total incl (ground arith) in
        record { name = i.name; result = rw holds refl; known = c.named }
    | inr (e, refused) ↦ absurd (ground arith)
  ]
  recommended cursor i (j ∷ rest) top low one h =
      elim (Result-cases (check_interval cursor false i)) [
        | inl (m, passed) ↦
            let c = check_interval-Checked cursor false i m passed in
            elim (dec_lt (score * unit) (1000 * m)) [
              | yes high ↦
                  let holds = middle_holds cursor i m low c high in
                  record { name = i.name; result = rw holds refl; known = c.named }
              | no above ↦
                  let next =
                    recommended m j rest top (omega arith) (ground arith) (later m passed) in
                  elim (Bool-cases (holds_score unit score i)) [
                    | inl holds ↦ record { name = i.name; result = rw holds refl; known = c.named }
                    | inr passes ↦ record {
                      name = next.name;
                      result = rw passes next.result;
                      known = next.known;
                    }
                  ]
            ]
        | inr (e, refused) ↦ absurd (ground arith)
      ]
    where
      later : (m : ℕ) → check_interval cursor false i ≡ ok m → check_intervals unit m j rest ≡ ok tt
      later m passed = ground arith
