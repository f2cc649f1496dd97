-- ===== src/Runner/Launch.antt =====
-- The `run` command of vcrun.py behind `validate_workflow_args` and its first `_validate_install`.
use venture_capital_lead_res.Prelude.{String, Option, none, some, str_eq, if◌then◌else◌}
use venture_capital_lead_res.Runner.Helper.{
  Outcome, Raised, returned, raised, Helped, HelperCall, probe_workflow_replay,
  reconcile_workflow_failure,
}
use venture_capital_lead_res.Runner.Child.{Decoders, Child, Ended, Hook, execute}

pub data Launched {ℓ} (World : Type ℓ) : Type ℓ where
  replayed : World → Launched World
  executed : Ended World → Launched World
  refused : Raised → World → Launched World

module _ {ℓ} {World : Type ℓ} (helper : HelperCall → World → Helped × World)
    (database_workflow : String → Option String) (installed : World → Outcome (Unit {0}))
    (spawn : World → Outcome Child × World) (d : Decoders) where
  -- `_execute`: it checks the installation again and starts the child, each of which may raise.
  unfoldable pub run_child : Option (Hook World) → World → Launched World
  run_child hook world = elim (installed world) [
    | raised e ↦ refused e world
    | returned u ↦
        let (started, world') = spawn world in
        elim started [
          | raised e ↦ refused e world'
          | returned child ↦ executed (execute d none hook child world')
        ]
  ]

  unfoldable pub run_workflow : String → String → String → World → Launched World
  run_workflow workflow idempotency_key input_digest world =
      let (probe, world') =
        probe_workflow_replay helper database_workflow workflow idempotency_key input_digest
          world in
      elim probe [
        | raised e ↦ refused e world'
        | returned outcome ↦
            if str_eq outcome "completed"
            then replayed world'
            else run_child
                (some
                  (reconcile_workflow_failure helper database_workflow workflow idempotency_key))
                world'
      ]
