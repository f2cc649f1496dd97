-- ===== src/Runner/Control.antt =====
-- The operator's control of a paused workflow: `main` and `_reconcile_postgres_cancellation` of
-- vcrun_control.py.
use venture_capital_lead_res.Prelude.{
  ℕ, String, Bool, true, false, not, ◌||◌, Option, none, some, str_eq, is_blank, is_some, ◌==◌,
  if◌then◌else◌,
}
use venture_capital_lead_res.Json.{ℤ, pos, Json, str, obj, Fields, get}
use venture_capital_lead_res.Validate.Checks.{is_hex_text, is_operator_id}
use venture_capital_lead_res.Runner.Helper.{
  Outcome, returned, raised, Raised, vcrun_error, raise_if, Helped, helper_result, is_true, is_zero,
  ◌>>=◌, ◌>>◌,
}
use venture_capital_lead_res.Runner.Child.{Decoders, Child, Ended, execute}

-- `--approve yes`, `--approve no` and `--cancel`.
pub data Decision : Type 0 where
  approve_yes approve_no cancel : Decision

pub record ControlArgs : Type 0 where
  pub approval_id : String
  pub run_id : Option String
  pub expected_revision : Option ℤ
  pub decision : Decision

abbrev pub is_rejecting : Decision → Bool
is_rejecting approve_yes = false
is_rejecting approve_no = true
is_rejecting cancel = true

-- The run and the revision that a rejection must name.
unfoldable pub target_of : ControlArgs → Option (String × ℕ)
target_of args = elim args.run_id [
  | none ↦ none
  | some run_id ↦ elim args.expected_revision [
    | some (pos revision) ↦
        if is_blank run_id || revision == 0 then none else some (run_id, revision)
    | _ ↦ none
  ]
]

unfoldable pub control_target : ControlArgs → Outcome (Option (String × ℕ))
control_target args =
    if is_rejecting args.decision
    then elim (target_of args) [ none ↦ raised vcrun_error | some target ↦ returned (some target) ]
    else if is_some args.run_id || is_some args.expected_revision
    then raised vcrun_error
    else returned none

-- What the checks leave: nothing to cancel, or a run at a revision.
unfoldable pub check_control : String → ControlArgs → Outcome (Option (String × ℕ))
check_control operator_id args = do
  raise_if (not (is_operator_id operator_id))
  raise_if (not (is_hex_text 8 args.approval_id))
  control_target args

-- The helper's answer must say that the run is cancelled.
abbrev pub is_text : String → Json → Bool
is_text text (str s) = str_eq s text
is_text text _ = false

abbrev pub status_of : Json → Json
status_of (obj workflow_run) = get "status" workflow_run
status_of _ = Json.null

unfoldable pub cancelled_result : ℤ × Fields → Outcome Fields
cancelled_result (status, result) =
    if not (is_zero status) || not (is_true (get "ok" result))
    then raised vcrun_error
    else if is_text "cancelled" (status_of (get "workflow_run" result))
    then returned result
    else raised vcrun_error

-- A cancellation that vcops was asked for: the run, the revision and the operator.
pub record Cancellation : Type 0 where
  pub run_id : String
  pub expected_revision : ℕ
  pub operator_id : String

-- A command that stops reports the cancellation that it has made, if any.
pub data Controlled {ℓ} (World : Type ℓ) : Type ℓ where
  resumed : Option Fields → Ended World → Controlled World
  stopped : Option Fields → Raised → World → Controlled World

-- `helper` runs `vcops-operator workflow-cancel --terminal --expected-workflow evaluate-lead`; `spawn`
-- starts `lobster resume` for an approval, with the decision, in the operator's name, if it can be
-- started.
module _ {ℓ} {World : Type ℓ} (helper : Cancellation → World → Helped × World)
    (installed : World → Outcome (Unit {0}))
    (spawn : String → Decision → String → World → Outcome Child × World) (d : Decoders) where
  unfoldable pub reconcile_postgres_cancellation : Cancellation → World → Outcome Fields × World
  reconcile_postgres_cancellation c world =
      let (answer, world') = helper c world in (helper_result answer >>= cancelled_result, world')

  -- `_execute` without hooks.
  unfoldable pub resume : String → ControlArgs → Option Fields → World → Controlled World
  resume operator_id args reconciliation world = elim (installed world) [
    | raised e ↦ stopped reconciliation e world
    | returned u ↦
        let (started, world') = spawn args.approval_id args.decision operator_id world in
        elim started [
          | raised e ↦ stopped reconciliation e world'
          | returned child ↦ resumed reconciliation (execute d none none child world')
        ]
  ]

  unfoldable pub cancel_then_resume : String → ControlArgs → Cancellation → World → Controlled World
  cancel_then_resume operator_id args c world =
      let (answer, world') = reconcile_postgres_cancellation c world in
      elim answer [
        | raised e ↦ stopped none e world'
        | returned result ↦ resume operator_id args (some result) world'
      ]

  unfoldable pub control_main : String → ControlArgs → World → Controlled World
  control_main operator_id args world = elim (check_control operator_id args) [
    | raised e ↦ stopped none e world
    | returned none ↦ resume operator_id args none world
    | returned (some (run_id, revision)) ↦
        cancel_then_resume operator_id args
          (record { run_id = run_id; expected_revision = revision; operator_id = operator_id })
          world
  ]
