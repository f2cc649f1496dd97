-- ===== src/Runs/Distinct.antt =====
-- The two unique constraints of `workflow_runs`, as an invariant of the list of its rows.
use venture_capital_lead_res.Prelude.{
  String, ◌≡◌, refl, sym, ap, ◌∙◌, inl, inr, Bool, true, false, Option, none, some, List, [], ◌∷◌,
  ◌++◌, arith, str_eq, str_eq_refl, str_eq→eq, eq_iff, find, Bool-cases,
}
use venture_capital_lead_res.Runs.Rows.{Run, has_run_id, has_key, find_run, find_key, replace_run}
use venture_capital_lead_res.Runs.Edges.{SameRequest}

-- UNIQUE (run_id) and UNIQUE (workflow_id, idempotency_key).
abbrev pub IsDistinct : List Run → Type 0
IsDistinct [] = Unit
IsDistinct (r ∷ rs) =
    (find_run r.run_id rs ≡ none)
    × (find_key r.workflow_id r.idempotency_key rs ≡ none)
    × IsDistinct rs

-- The row of a request is the row of its run id.
pub find_run-find_key :
    (workflow key : String) (rs : List Run) (r : Run)
    → IsDistinct rs
    → find_key workflow key rs ≡ some r
    → find_run r.run_id rs ≡ some r
unfolding find_run find_key
find_run-find_key workflow key [] r d h = cc
find_run-find_key workflow key (q ∷ rs) r (ids, keys, d) h =
    elim (Bool-cases (has_key workflow key q)) [
      | inl this ↦
          let same : q ≡ r = ground arith in
          let self : has_run_id r.run_id q ≡ true =
            ap (λ (x : Run). str_eq q.run_id x.run_id) (sym same) ∙ str_eq_refl q.run_id in
          rw self (ap some same)
      | inr other ↦
          let later = find_run-find_key workflow key rs r d (ground arith) in
          elim (Bool-cases (has_run_id r.run_id q)) [
            | inl clash ↦
                let e : q.run_id ≡ r.run_id = str_eq→eq q.run_id r.run_id clash in
                absurd (contradiction (ap (λ k. find_run k rs) (sym e) ∙ ids) later)
            | inr apart ↦ rw apart later
          ]
    ]
  where
    contradiction : {A : Type 0} {a : A} {o : Option A} → o ≡ none → o ≡ some a → ⊥
    contradiction p q = cc

has_run_id-same : (k : String) (r s : Run) → SameRequest r s → has_run_id k s ≡ has_run_id k r
has_run_id-same k r s e = ap (λ x. str_eq x k) (sym e.run_id)

has_key-same : (w k : String) (r s : Run) → SameRequest r s → has_key w k s ≡ has_key w k r
has_key-same w k r s e = rw (sym e.workflow_id) (rw (sym e.idempotency_key) refl)

find-append {ℓ} :
    {A : Type ℓ} (p : A → Bool) (xs : List A) (x : A)
    → find p xs ≡ none
    → p x ≡ false
    → find p (xs ++ x ∷ []) ≡ none
find-append p [] x h e = rw e refl
find-append p (y ∷ xs) x h e = ground (arith, find-append p xs x)

module _ (run_id : String) (s : Run) where
  find_run-replace_none :
      (k : String) (rs : List Run) (r : Run)
      → find_run run_id rs ≡ some r
      → SameRequest r s
      → find_run k rs ≡ none
      → find_run k (replace_run run_id s rs) ≡ none
  unfolding find_run replace_run
  find_run-replace_none k [] r h same e = refl
  find_run-replace_none k (q ∷ rs) r h same e = elim (Bool-cases (has_run_id run_id q)) [
    | inl this ↦
        let found : q ≡ r = ground arith in
        let head : has_run_id k s ≡ has_run_id k q =
          has_run_id-same k r s same ∙ ap (has_run_id k) (sym found) in
        rw this (ground arith)
    | inr other ↦ rw other (ground (arith, find_run-replace_none k rs r))
  ]

  find_key-replace_none :
      (w k : String) (rs : List Run) (r : Run)
      → find_run run_id rs ≡ some r
      → SameRequest r s
      → find_key w k rs ≡ none
      → find_key w k (replace_run run_id s rs) ≡ none
  unfolding find_run find_key replace_run
  find_key-replace_none w k [] r h same e = refl
  find_key-replace_none w k (q ∷ rs) r h same e = elim (Bool-cases (has_run_id run_id q)) [
    | inl this ↦
        let found : q ≡ r = ground arith in
        let head : has_key w k s ≡ has_key w k q =
          has_key-same w k r s same ∙ ap (has_key w k) (sym found) in
        rw this (ground arith)
    | inr other ↦ rw other (ground (arith, find_key-replace_none w k rs r))
  ]

  pub IsDistinct-replace_run :
      (rs : List Run) (r : Run)
      → find_run run_id rs ≡ some r
      → SameRequest r s
      → IsDistinct rs
      → IsDistinct (replace_run run_id s rs)
  unfolding replace_run find_run find_key
  IsDistinct-replace_run [] r h same d = tt
  IsDistinct-replace_run (q ∷ rs) r h same (ids, keys, d) =
      elim (Bool-cases (has_run_id run_id q)) [
        | inl this ↦
            let found : q ≡ r = ground arith in
            let same' : SameRequest q s = rw found same in
            rw this (
              ap (λ k. find_run k rs) (sym same'.run_id) ∙ ids,
              ap (λ k. find_key s.workflow_id k rs) (sym same'.idempotency_key)
                  ∙ ap (λ w. find_key w q.idempotency_key rs) (sym same'.workflow_id)
                  ∙ keys,
              d,
            )
        | inr other ↦
            let later : find_run run_id rs ≡ some r = ground arith in
            rw other (
              find_run-replace_none q.run_id rs r later same ids,
              find_key-replace_none q.workflow_id q.idempotency_key rs r later same keys,
              IsDistinct-replace_run rs r later same d,
            )
      ]

pub IsDistinct-append :
    (rs : List Run) (r : Run)
    → find_run r.run_id rs ≡ none
    → find_key r.workflow_id r.idempotency_key rs ≡ none
    → IsDistinct rs
    → IsDistinct (rs ++ r ∷ [])
unfolding find_run find_key
IsDistinct-append [] r h k d = (refl, refl, tt)
IsDistinct-append (q ∷ rs) r h k (ids, keys, d) = (
  find-append (has_run_id q.run_id) rs r ids
      (ground (arith, eq_iff r.run_id q.run_id, eq_iff q.run_id r.run_id)),
  find-append (has_key q.workflow_id q.idempotency_key) rs r keys (
      ground (
        arith,
        eq_iff r.workflow_id q.workflow_id,
        eq_iff q.workflow_id r.workflow_id,
        eq_iff r.idempotency_key q.idempotency_key,
        eq_iff q.idempotency_key r.idempotency_key,
      )),
  IsDistinct-append rs r (ground arith) (ground arith) d,
)

find_key-has_key :
    (w k : String) (rs : List Run) (r : Run) → find_key w k rs ≡ some r → has_key w k r ≡ true
unfolding find_key
find_key-has_key w k [] r h = cc
find_key-has_key w k (q ∷ rs) r h = elim (Bool-cases (has_key w k q)) [
  | inl this ↦ let same : r ≡ q = ground arith in ap (has_key w k) same ∙ this
  | inr other ↦ find_key-has_key w k rs r (ground arith)
]

-- After an update of its row, the look-up of a request finds the new contents.
pub find_key-replace_run :
    (w k : String) (rs : List Run) (r s : Run)
    → find_key w k rs ≡ some r
    → find_run r.run_id rs ≡ some r
    → SameRequest r s
    → find_key w k (replace_run r.run_id s rs) ≡ some s
unfolding find_key find_run replace_run
find_key-replace_run w k [] r s h f same = cc
find_key-replace_run w k (q ∷ rs) r s h f same =
    let held : has_key w k s ≡ true =
      has_key-same w k r s same ∙ find_key-has_key w k (q ∷ rs) r h in
    elim (Bool-cases (has_run_id r.run_id q)) [
      | inl this ↦ rw this (rw held refl)
      | inr other ↦ elim (Bool-cases (has_key w k q)) [
        | inl mine ↦
            let found : q ≡ r = ground arith in
            absurd
              (clash (ap (λ (x : Run). has_run_id r.run_id x) found ∙ str_eq_refl r.run_id) other)
        | inr apart ↦
            rw other (rw apart (find_key-replace_run w k rs r s (ground arith) (ground arith) same))
      ]
    ]
  where
    clash : {b : Bool} → b ≡ true → b ≡ false → ⊥
    clash p q = cc
