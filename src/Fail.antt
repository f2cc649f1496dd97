-- ===== src/Fail.antt =====
-- Errors of vcops.py: `VcopsError`, a database error by its SQLSTATE, and how `main` answers each.
-- The text of a message and the `details` of an error are not modelled.
use venture_capital_lead_res.Prelude.{
  ℕ, String, ◌≡◌, refl, ◌⊎◌, inl, inr, Bool, true, false, Option, none, some, List, [], ◌∷◌, str_eq,
  if◌then◌else◌,
}

pub data Failure : Type 0 where
  vcops_error : String → ℕ → Failure
  sqlstate : String → Failure
  uncaught : Failure

-- What a handler comes to: an error, or a value.
pub data Result {ℓ} (A : Type ℓ) : Type ℓ where
  err : Failure → Result A
  ok : A → Result A

-- A step that fails ends the chain.
module _ {ℓ κ} {A : Type ℓ} {B : Type κ} where
  infixl 5 ◌>>=◌
  abbrev pub ◌>>=◌ : Result A → (A → Result B) → Result B
  err failure >>= next = err failure
  ok value >>= next = next value

-- `raise VcopsError(code, ...)`, whose exit code is 2 unless the call gives another.
abbrev pub deny {ℓ} : {A : Type ℓ} → String → Result A
deny code = err (vcops_error code 2)

abbrev pub deny_exit {ℓ} : {A : Type ℓ} → String → ℕ → Result A
deny_exit code exit = err (vcops_error code exit)

abbrev pub raise_sqlstate {ℓ} : {A : Type ℓ} → String → Result A
raise_sqlstate state = err (sqlstate state)

-- `if test: raise VcopsError(code)`.
abbrev pub refuse_if : Bool → Failure → Result (Unit {0})
refuse_if true e = err e
refuse_if false e = ok tt

module _ {ℓ} {A : Type ℓ} where
  infixl 5 ◌>>◌
  abbrev pub ◌>>◌ : Result (Unit {0}) → Result A → Result A
  check >> rest = check >>= λ done. rest

-- `GOVERNED_SQLSTATE_ERRORS`, the codes alone.
pub governed_sqlstate_errors : List (String × String)
governed_sqlstate_errors =
    ("28000", "authorization_denied")
    ∷ ("40001", "serialization_conflict")
    ∷ ("22023", "invalid_parameter")
    ∷ ("22P02", "invalid_parameter")
    ∷ ("22003", "invalid_parameter")
    ∷ ("22007", "invalid_parameter")
    ∷ ("22008", "invalid_parameter")
    ∷ ("23514", "constraint_violation")
    ∷ ("23503", "foreign_key_violation")
    ∷ ("23505", "unique_violation")
    ∷ ("55000", "invalid_state")
    ∷ ("P0002", "not_found")
    ∷ []

pub lookup_code : String → List (String × String) → Option String
lookup_code state [] = none
lookup_code state ((key, code) ∷ rest) =
    if str_eq key state then some code else lookup_code state rest

-- The code and the exit status that `main` emits for an error.
unfoldable pub error_response : Failure → String × ℕ
unfolding governed_sqlstate_errors lookup_code
error_response (vcops_error code exit) = (code, exit)
error_response uncaught = ("internal_error", 3)
error_response (sqlstate state) = elim (lookup_code state governed_sqlstate_errors) [
  | some code ↦ (code, 1)
  | none ↦ ("internal_error", 3)
]

-- Either value or error, with its equation.
pub Result-cases {ℓ} :
    {A : Type ℓ} (m : Result A) → ((a : A) × (m ≡ ok a)) ⊎ ((e : Failure) × (m ≡ err e))
Result-cases (ok a) = inl (a, refl)
Result-cases (err e) = inr (e, refl)

-- A computation that no error can come of has a value.
pub ok_of {ℓ} : {A : Type ℓ} (m : Result A) → ((e : Failure) → ¬ (m ≡ err e)) → (a : A) × (m ≡ ok a)
ok_of (ok a) h = (a, refl)
ok_of (err e) h = absurd (h e refl)
