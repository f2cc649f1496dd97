-- ===== src/Scoring/Evidence.antt =====
-- `_evidence_ids` of vcops.py.
use venture_capital_lead_res.Prelude.{
  ℕ, ◌≡◌, ◌≢◌, refl, inl, inr, Bool, false, ◌&&◌, List, [], ◌∷◌, ◌++◌, any, ltb, leb, ◌==◌,
  Bool-cases, arith, if◌then◌else◌,
}
use venture_capital_lead_res.Fail.{Result, ok, deny, ◌>>=◌, Result-cases}
use venture_capital_lead_res.Json.{pos, Json, int, str, arr, Items, nil, cons}
use venture_capital_lead_res.Validate.Checks.{is_positive_shape, digits_value}

-- One item: an `int` or `str`, but no `bool`, whose text is a positive number of at most nineteen
-- digits.
unfoldable pub evidence_id : Json → Result ℕ
evidence_id (int (pos n)) =
    if leb 1 n && ltb n 10_000_000_000_000_000_000 then ok n else deny "invalid_evidence_id"
evidence_id (str s) =
    if is_positive_shape s then ok (digits_value 0 s) else deny "invalid_evidence_id"
evidence_id _ = deny "invalid_evidence_id"

abbrev pub listed : ℕ → List ℕ → Bool
listed n ids = any (λ k. k == n) ids

-- The loop, whose accumulator is `result`.
unfoldable pub collect_ids : List ℕ → Items → Result (List ℕ)
collect_ids result nil = ok result
collect_ids result (cons value rest) = do
  item ← evidence_id value
  collect_ids (if listed item result then result else result ++ item ∷ []) rest

unfoldable pub evidence_ids : Json → Result (List ℕ)
evidence_ids (arr items) = collect_ids [] items
evidence_ids _ = deny "evidence_required"

-- No number occurs twice.
abbrev pub IsUnrepeated : List ℕ → Type 0
IsUnrepeated [] = Unit
IsUnrepeated (n ∷ ns) = (listed n ns ≡ false) × IsUnrepeated ns

listed-append :
    (n m : ℕ) (ns : List ℕ) → listed n ns ≡ false → m ≢ n → listed n (ns ++ m ∷ []) ≡ false
listed-append n m [] h k = ground arith
listed-append n m (x ∷ ns) h k = ground (arith, listed-append n m ns)

IsUnrepeated-append :
    (m : ℕ) (ns : List ℕ) → listed m ns ≡ false → IsUnrepeated ns → IsUnrepeated (ns ++ m ∷ [])
IsUnrepeated-append m [] h u = (refl, tt)
IsUnrepeated-append m (n ∷ ns) h (a, u) =
    (listed-append n m ns a (ground arith), IsUnrepeated-append m ns (ground arith) u)

collect_ids-IsUnrepeated :
    (result : List ℕ) (items : Items) (ids : List ℕ)
    → IsUnrepeated result
    → collect_ids result items ≡ ok ids
    → IsUnrepeated ids
unfolding collect_ids
collect_ids-IsUnrepeated result nil ids u h = let same : result ≡ ids = ground arith in rw same at u
collect_ids-IsUnrepeated result (cons value rest) ids u h =
    elim (Result-cases (evidence_id value)) [
      | inl (item, valid) ↦ elim (Bool-cases (listed item result)) [
        | inl again ↦ collect_ids-IsUnrepeated result rest ids u (ground arith)
        | inr first ↦
            collect_ids-IsUnrepeated (result ++ item ∷ []) rest ids
              (IsUnrepeated-append item result first u) (ground arith)
      ]
      | inr (e, refused) ↦ absurd (ground arith)
    ]

-- Accepted evidence fact ids hold no id twice.
pub evidence_ids-IsUnrepeated :
    (raw : Json) (ids : List ℕ) → evidence_ids raw ≡ ok ids → IsUnrepeated ids
unfolding evidence_ids
evidence_ids-IsUnrepeated (arr items) ids h = collect_ids-IsUnrepeated [] items ids tt h
evidence_ids-IsUnrepeated _ ids h = absurd (ground arith)
