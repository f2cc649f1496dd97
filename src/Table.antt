-- ===== src/Table.antt =====
-- Tables of rows, generically: what `UPDATE` does to the list of the rows, and how a table may
-- change while each row keeps its place.
use venture_capital_lead_res.Prelude.{
  ◌≡◌, refl, ap, ◌∙◌, inl, inr, Bool, true, false, some, List, [], ◌∷◌, ◌++◌, All, find, Bool-cases,
  arith, if◌then◌else◌,
}

-- `UPDATE ... WHERE id = prior.id` of the row that `SELECT ... WHERE` with this test has found.
unfoldable pub update_first {ℓ} : {A : Type ℓ} → (A → Bool) → A → List A → List A
update_first p new [] = []
update_first p new (r ∷ rows) =
    let rest = update_first p new rows in if p r then new ∷ rows else r ∷ rest

-- `Moves` relates the old and the new contents of a row, `IsNew` holds of an added row.
module _ {ℓ κ} {A : Type ℓ} (Moves : A → A → Type κ) (IsNew : A → Type κ) where
  pub data Grows : List A → List A → Type (ℓ ⊔ κ) where
    grown : {news : List A} → All IsNew news → Grows [] news
    moved : {r s : A} {rs ss : List A} → Moves r s → Grows rs ss → Grows (r ∷ rs) (s ∷ ss)

  module _ (still : (r : A) → Moves r r) where
    pub Grows-refl : (rs : List A) → Grows rs rs
    Grows-refl [] = grown tt
    Grows-refl (r ∷ rs) = moved (still r) (Grows-refl rs)

    pub Grows-append : (rs : List A) (new : A) → IsNew new → Grows rs (rs ++ new ∷ [])
    Grows-append [] new h = grown (h, tt)
    Grows-append (r ∷ rs) new h = moved (still r) (Grows-append rs new h)

    pub Grows-update_first :
        (p : A → Bool) (rs : List A) (r new : A)
        → find p rs ≡ some r
        → Moves r new
        → Grows rs (update_first p new rs)
    unfolding update_first
    Grows-update_first p [] r new h m = absurd (cc h)
    Grows-update_first p (q ∷ rs) r new h m = elim (Bool-cases (p q)) [
      | inl this ↦ let same : r ≡ q = ground arith in rw this (moved (rw same at m) (Grows-refl rs))
      | inr other ↦ rw other (moved (still q) (Grows-update_first p rs r new (ground arith) m))
    ]

  All-IsNew-Grows :
      (step : (r s : A) → IsNew r → Moves r s → IsNew s) (rs ss : List A)
      → All IsNew rs
      → Grows rs ss
      → All IsNew ss
  All-IsNew-Grows step [] ss h (grown k) = k
  All-IsNew-Grows step (r ∷ rs) [] h g = elim g [ ]
  All-IsNew-Grows step (r ∷ rs) (s ∷ ss) (h, hs) (moved m g) =
      (step r s h m, All-IsNew-Grows step rs ss hs g)

  module _ (follow : (r s t : A) → Moves r s → Moves s t → Moves r t)
      (step : (r s : A) → IsNew r → Moves r s → IsNew s) where
    pub Grows-trans : (rs ss ts : List A) → Grows rs ss → Grows ss ts → Grows rs ts
    Grows-trans [] ss ts (grown h) g = grown (All-IsNew-Grows step ss ts h g)
    Grows-trans (r ∷ rs) [] ts m g = elim m [ ]
    Grows-trans (r ∷ rs) (s ∷ ss) [] m g = elim g [ ]
    Grows-trans (r ∷ rs) (s ∷ ss) (t ∷ ts) (moved m g) (moved n k) =
        moved (follow r s t m n) (Grows-trans rs ss ts g k)

  -- A test that no move changes finds the row at its place again.
  pub find-Grows :
      (p : A → Bool)
      → ((r s : A) → Moves r s → p s ≡ p r)
      → (rs ss : List A) (r : A) → find p rs ≡ some r
      → Grows rs ss
      → (s : A) × (find p ss ≡ some s) × Moves r s
  find-Grows p keeps [] ss q h (grown k) = absurd (cc h)
  find-Grows p keeps (r ∷ rs) [] q h g = elim g [ ]
  find-Grows p keeps (r ∷ rs) (s ∷ ss) q h (moved m g) = elim (Bool-cases (p r)) [
    | inl this ↦
        let same : q ≡ r = ground arith in
        let found : p s ≡ true = keeps r s m ∙ this in (s, rw found refl, rw same m)
    | inr other ↦
        let missed : p s ≡ false = keeps r s m ∙ other in
        let (t, found, reached) = find-Grows p keeps rs ss q (ground arith) g in
        (t, rw missed found, reached)
  ]

-- What all rows satisfy, all rows satisfy after an update that keeps it.
pub All-update_first {ℓ κ} :
    {A : Type ℓ} (P : A → Type κ) (p : A → Bool) (rs : List A) (new : A)
    → All P rs
    → P new
    → All P (update_first p new rs)
unfolding update_first
All-update_first P p [] new h n = tt
All-update_first P p (r ∷ rs) new (h, hs) n = elim (Bool-cases (p r)) [
  | inl this ↦ rw this (n, hs)
  | inr other ↦ rw other (h, All-update_first P p rs new hs n)
]

pub All-append {ℓ κ} :
    {A : Type ℓ} (P : A → Type κ) (rs : List A) (new : A)
    → All P rs
    → P new
    → All P (rs ++ new ∷ [])
All-append P [] new h n = (n, tt)
All-append P (r ∷ rs) new (h, hs) n = (h, All-append P rs new hs n)

pub All-find {ℓ κ} :
    {A : Type ℓ} (P : A → Type κ) (p : A → Bool) (rs : List A) (r : A)
    → All P rs
    → find p rs ≡ some r
    → P r
All-find P p [] r h f = absurd (cc f)
All-find P p (q ∷ rs) r (h, hs) f = elim (Bool-cases (p q)) [
  | inl this ↦ let same : r ≡ q = ground arith in rw same h
  | inr other ↦ All-find P p rs r hs (ground arith)
]

-- A row that a test has found passes it.
pub find-true {ℓ} :
    {A : Type ℓ} (p : A → Bool) (rs : List A) (r : A) → find p rs ≡ some r → p r ≡ true
find-true p [] r f = absurd (cc f)
find-true p (q ∷ rs) r f = elim (Bool-cases (p q)) [
  | inl this ↦ let same : r ≡ q = ground arith in rw same this
  | inr other ↦ find-true p rs r (ground arith)
]

-- The row that is found stands between rows that an update leaves alone.
pub found_between {ℓ} :
    {A : Type ℓ} (p : A → Bool) (rows : List A) (old new : A)
    → find p rows ≡ some old
    → (earlier : List A) × (later : List A) × (p old ≡ true)
      × (rows ≡ earlier ++ old ∷ later)
      × (update_first p new rows ≡ earlier ++ new ∷ later)
unfolding update_first
found_between p [] old new h = absurd (cc h)
found_between p (r ∷ rows) old new h = elim (Bool-cases (p r)) [
  | inl this ↦
      let same : r ≡ old = ground arith in
      ([], rows, rw same at this, ap (λ q. q ∷ rows) same, rw this refl)
  | inr other ↦
      let found : find p rows ≡ some old = ground arith in
      let (earlier, later, holds, split, updated) = found_between p rows old new found in
      (r ∷ earlier, later, holds, ap (λ qs. r ∷ qs) split, rw other (ap (λ qs. r ∷ qs) updated))
]
