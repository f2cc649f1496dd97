-- ===== src/Runner/Helper.antt =====
-- `_run_helper`, `_probe_workflow_replay`, `_reconcile_workflow_failure` and
-- `_attach_failure_reconciliation` of vcrun.py.
use venture_capital_lead_res.Prelude.{
  ℕ, ◌≡◌, refl, String, Bool, true, false, not, ◌||◌, Option, none, some, List, [], ◌∷◌, member,
  str_eq, ltb, ◌==◌, if◌then◌else◌,
}
use venture_capital_lead_res.Json.{
  ℤ, pos, negsuc, Json, boolean, str, arr, obj, Fields, get, is_null,
}

-- What a function of vcrun raises; `uncaught_error` is a TypeError or a UnicodeDecodeError, which
-- `main` does not catch.
pub data Raised : Type 0 where
  vcrun_error os_error uncaught_error : Raised
  probe_refusal : String → Raised

pub data Outcome {ℓ} (A : Type ℓ) : Type ℓ where
  returned : A → Outcome A
  raised : Raised → Outcome A

infixl 5 ◌>>=◌ ◌>>◌
abbrev pub ◌>>=◌ {ℓ κ} : {A : Type ℓ} {B : Type κ} → Outcome A → (A → Outcome B) → Outcome B
returned a >>= f = f a
raised e >>= f = raised e

abbrev pub raise_if : Bool → Outcome (Unit {0})
raise_if true = raised vcrun_error
raise_if false = returned tt

abbrev pub ◌>>◌ {ℓ} : {B : Type ℓ} → Outcome (Unit {0}) → Outcome B → Outcome B
m >> k = m >>= λ _. k

-- A `subprocess.run` of vcops-workflow: it cannot be started, it times out, its output is not UTF-8,
-- or it has a status, the size of its output in bytes and the JSON value of the output, if it is one.
pub data Helped : Type 0 where
  helper_unavailable helper_timeout helper_undecodable : Helped
  helped : ℤ → ℕ → Option Json → Helped

abbrev pub max_reconciliation_bytes : ℕ
max_reconciliation_bytes = 65536

unfoldable pub helper_result : Helped → Outcome (ℤ × Fields)
helper_result helper_unavailable = raised os_error
helper_result helper_timeout = raised vcrun_error
helper_result helper_undecodable = raised uncaught_error
helper_result (helped status bytes output) =
    if ltb max_reconciliation_bytes bytes
    then raised vcrun_error
    else elim output [ some (obj fields) ↦ returned (status, fields) | _ ↦ raised vcrun_error ]

-- `value is True`.
abbrev pub is_true : Json → Bool
is_true (boolean b) = b
is_true _ = false

abbrev pub is_zero : ℤ → Bool
is_zero (pos n) = n == 0
is_zero (negsuc n) = false

-- `value in {...}`: a list or an object is unhashable.
unfoldable pub text_in : List String → Json → Outcome Bool
text_in allowed (str s) = returned (member s allowed)
text_in allowed (arr items) = raised uncaught_error
text_in allowed (obj fields) = raised uncaught_error
text_in allowed _ = returned false

-- `value == "..."`.
abbrev pub equals_text : String → Json → Bool
equals_text expected (str s) = str_eq s expected
equals_text expected _ = false

abbrev pub probe_outcomes : List String
probe_outcomes = "absent" ∷ "in_progress" ∷ "completed" ∷ "retried" ∷ "unverifiable" ∷ []

abbrev pub reconciliation_outcomes : List String
reconciliation_outcomes = "not_started" ∷ "already_failed" ∷ "transitioned_failed" ∷ []

-- The error that the helper reports.
unfoldable pub probe_error : Json → Raised
probe_error (obj error) = elim (get "code" error) [
  | str code ↦ probe_refusal code
  | _ ↦ vcrun_error
]
probe_error _ = vcrun_error

-- The probe's answer: its outcome.
unfoldable pub probe_result : ℤ × Fields → Outcome String
probe_result (status, result) =
    if not (is_zero status) || not (is_true (get "ok" result))
    then raised (probe_error (get "error" result))
    else elim (get "workflow_replay_probe" result) [
      | obj probe ↦ elim (get "outcome" probe) [
        | str outcome ↦
            if member outcome probe_outcomes then returned outcome else raised vcrun_error
        | arr items ↦ raised uncaught_error
        | obj fields ↦ raised uncaught_error
        | _ ↦ raised vcrun_error
      ]
      | _ ↦ raised vcrun_error
    ]

-- `workflow_run.get("status") == "failed"` of a dictionary.
unfoldable pub is_failed_run : Json → Bool
is_failed_run (obj run) = equals_text "failed" (get "status" run)
is_failed_run _ = false

unfoldable pub reconciliation_agrees : Fields → Bool
reconciliation_agrees reconciliation =
    if equals_text "not_started" (get "outcome" reconciliation)
    then is_null (get "workflow_run" reconciliation)
    else is_failed_run (get "workflow_run" reconciliation)

unfoldable pub reconciliation_result : ℤ × Fields → Outcome Fields
reconciliation_result (status, result) = do
  raise_if (not (is_zero status) || not (is_true (get "ok" result)))
  elim (get "workflow_failure_reconciliation" result) [
    | obj reconciliation ↦ do
      known ← text_in reconciliation_outcomes (get "outcome" reconciliation)
      raise_if (not known || not (reconciliation_agrees reconciliation))
      returned result
    | _ ↦ raised vcrun_error
  ]

-- The arguments of a helper call.
pub data HelperCall : Type 0 where
  workflow_replay_probe : String → String → String → HelperCall
  workflow_reconcile_failure : String → String → String → HelperCall

-- What `postgres_reconciliation` of a payload says; with `escaped`, an error that is not caught ends
-- the process before the payload is printed.
pub data Attached : Type 0 where
  reconciliation_failed reconciliation_invalid escaped : Attached
  reconciled : Fields → Attached

-- `helper` runs vcops-workflow: what it answers, and the world behind it. `database_workflow` looks
-- up a fixed workflow.
module _ {ℓ} {World : Type ℓ} (helper : HelperCall → World → Helped × World)
    (database_workflow : String → Option String) where
  unfoldable pub probe_workflow_replay : String → String → String → World → Outcome String × World
  probe_workflow_replay workflow idempotency_key input_digest world =
      elim (database_workflow workflow) [
        | none ↦ (raised vcrun_error, world)
        | some name ↦
            let (answer, world') =
              helper (workflow_replay_probe name idempotency_key input_digest) world in
            (helper_result answer >>= probe_result, world')
      ]

  unfoldable pub reconcile_workflow_failure :
      String → String → String → World → Outcome Fields × World
  reconcile_workflow_failure workflow idempotency_key reason world =
      elim (database_workflow workflow) [
        | none ↦ (raised vcrun_error, world)
        | some name ↦
            let (answer, world') =
              helper (workflow_reconcile_failure name idempotency_key reason) world in
            (helper_result answer >>= reconciliation_result, world')
      ]

unfoldable pub attached : Outcome Fields → Attached
attached (raised uncaught_error) = escaped
attached (raised e) = reconciliation_failed
attached (returned reconciliation) =
    if is_true (get "ok" reconciliation) then reconciled reconciliation else reconciliation_invalid

-- A computation that raises nothing has returned.
pub returned_of {ℓ} :
    {A : Type ℓ} (m : Outcome A) → ((e : Raised) → ¬ (m ≡ raised e)) → (a : A) × (m ≡ returned a)
returned_of (returned a) h = (a, refl)
returned_of (raised e) h = absurd (h e refl)
