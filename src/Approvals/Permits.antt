-- ===== src/Approvals/Permits.antt =====
-- What approvals promise, without digests, scopes or rows: a permit waits, is granted or refused,
-- and is used at most once.
use venture_capital_lead_res.Prelude.{
  ℕ, ◌≡◌, refl, ap, inl, inr, String, Bool, true, false, some, List, [], ◌∷◌, ◌++◌, map, find, any,
  ltb, str_eq, arith, Bool-cases, if◌then◌else◌,
}
use venture_capital_lead_res.Table.{update_first}

pub data PermitState : Type 0 where
  waiting granted refused used : PermitState

pub record Permit : Type 0 where
  pub request_id : String
  pub token_hash : String
  pub expires_at : ℕ
  pub state : PermitState

abbrev pub for_request : String → Permit → Bool
for_request request_id p = str_eq p.request_id request_id

abbrev pub for_token : String → Permit → Bool
for_token token_hash p = str_eq p.token_hash token_hash

-- One step at the time `now`: nothing; a new permit under a fresh request and token; the answer to a
-- waiting permit that has not expired; the use of a granted one that has not expired.
pub data PermitStep (now : ℕ) : List Permit → List Permit → Type 0 where
  idle : {ps : List Permit} → PermitStep now ps ps
  ask :
      {ps : List Permit} (p : Permit)
      → p.state ≡ waiting
      → ltb now p.expires_at ≡ true
      → any (for_request p.request_id) ps ≡ false
      → any (for_token p.token_hash) ps ≡ false
      → PermitStep now ps (ps ++ p ∷ [])
  answer :
      {ps : List Permit} (request_id : String) (p : Permit) (grant : Bool)
      → find (for_request request_id) ps ≡ some p
      → p.state ≡ waiting
      → ltb now p.expires_at ≡ true
      → PermitStep now ps (
          update_first
            (for_request request_id)
            (record p { state = if grant then granted else refused })
            ps)
  spend :
      {ps : List Permit} (token_hash : String) (p : Permit)
      → find (for_token token_hash) ps ≡ some p
      → p.state ≡ granted
      → ltb now p.expires_at ≡ true
      → PermitStep now ps (update_first (for_token token_hash) (record p { state = used }) ps)

-- A run of the specification: one step at each of these times.
pub data PermitSteps : List ℕ → List Permit → List Permit → Type 0 where
  done : {ps : List Permit} → PermitSteps [] ps ps
  next :
      {now : ℕ} {times : List ℕ} {ps qs rs : List Permit}
      → PermitStep now ps qs
      → PermitSteps times qs rs
      → PermitSteps (now ∷ times) ps rs

-- Tests and updates commute with a view of the rows.
module _ {ℓ κ} {A : Type ℓ} {B : Type κ} (view : A → B) (p : A → Bool) (q : B → Bool)
    (same : (a : A) → q (view a) ≡ p a) where
  pub any-map : (rs : List A) → any q (map view rs) ≡ any p rs
  any-map [] = refl
  any-map (r ∷ rs) = let s = same r in let rest = any-map rs in ground arith

  pub find-map : (rs : List A) (r : A) → find p rs ≡ some r → find q (map view rs) ≡ some (view r)
  find-map [] r h = absurd (cc h)
  find-map (x ∷ rs) r h = elim (Bool-cases (p x)) [
    | inl this ↦
        let s : q (view x) ≡ true = cc (same x) in
        let here : x ≡ r = ground arith in rw (s, here) refl
    | inr other ↦
        let s : q (view x) ≡ false = cc (same x) in
        let later = find-map rs r (ground arith) in rw s later
  ]

  pub map-update_first :
      (new : A) (rs : List A)
      → map view (update_first p new rs) ≡ update_first q (view new) (map view rs)
  unfolding update_first
  map-update_first new [] = refl
  map-update_first new (r ∷ rs) = elim (Bool-cases (p r)) [
    | inl this ↦ let s : q (view r) ≡ true = cc (same r) in rw (this, s) refl
    | inr other ↦
        let s : q (view r) ≡ false = cc (same r) in
        rw (other, s) (ap (λ xs. view r ∷ xs) (map-update_first new rs))
  ]

pub map-append {ℓ κ} :
    {A : Type ℓ} {B : Type κ} (view : A → B) (rs : List A) (r : A)
    → map view (rs ++ r ∷ []) ≡ map view rs ++ view r ∷ []
map-append view [] r = refl
map-append view (x ∷ rs) r = ap (λ xs. view x ∷ xs) (map-append view rs r)
