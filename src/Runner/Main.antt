-- ===== src/Runner/Main.antt =====
-- The commands `run` and `dry-run` in `main` of vcrun.py: the checked arguments, their digest, and the
-- run of the workflow on them.
use venture_capital_lead_res.Prelude.{
  String, Option, none, some, [], ◌∷◌, ◌++◌, member, if◌then◌else◌,
}
use venture_capital_lead_res.Runner.Helper.{Outcome, returned, raised, Helped, HelperCall}
use venture_capital_lead_res.Runner.Child.{Decoders, Child}
use venture_capital_lead_res.Runner.Launch.{Launched, refused, run_child, run_workflow}
use venture_capital_lead_res.Runner.Contracts.{contract_of}
use venture_capital_lead_res.Runner.Args.{Args, keys_of, value_of, set_value, RawArgs}
use venture_capital_lead_res.Runner.Rules.{Codecs, validate_workflow_args}

-- `WORKFLOWS[workflow]["database_workflow"]`.
unfoldable pub database_workflow : String → Option String
database_workflow workflow = elim (contract_of workflow) [
  | none ↦ none
  | some c ↦ some c.database_workflow
]

-- `parsed_payload[key] = value`.
unfoldable pub inject : String → String → Args → Args
inject key value args =
    if member key (keys_of args) then set_value key value args else args ++ (key, value) ∷ []

-- `sha256` is the hexadecimal digest of a text, `print` the JSON of the arguments with sorted keys;
-- `installed` is what `_validate_install` raises or not; `spawn` starts the child on its arguments, if
-- it can be started.
module _ {ℓ} {World : Type ℓ} (x : Codecs) (sha256 : String → String) (print : Args → String)
    (installed : World → Outcome (Unit {0})) (helper : HelperCall → World → Helped × World)
    (spawn : Args → World → Outcome Child × World) (d : Decoders) where
  abbrev pub digest_of : Args → String
  digest_of args = sha256 (print args)

  unfoldable pub start_run : String → Args → World → Launched World
  start_run workflow args world = elim (value_of "idempotency_key" args) [
    | raised e ↦ refused e world
    | returned key ↦ elim (installed world) [
      | raised e ↦ refused e world
      | returned u ↦
          run_workflow helper database_workflow installed
            (spawn (inject "input_digest" (digest_of args) args)) d workflow key (digest_of args)
            world
    ]
  ]

  unfoldable pub main_run : String → RawArgs → World → Launched World
  main_run workflow raw world = elim (validate_workflow_args x workflow raw) [
    | raised e ↦ refused e world
    | returned args ↦ start_run workflow args world
  ]

  unfoldable pub start_dry_run : Args → World → Launched World
  start_dry_run args world = elim (installed world) [
    | raised e ↦ refused e world
    | returned u ↦
        run_child helper database_workflow installed
          (spawn (inject "input_digest" (digest_of args) args)) d none world
  ]

  unfoldable pub main_dry_run : String → RawArgs → World → Launched World
  main_dry_run workflow raw world = elim (validate_workflow_args x workflow raw) [
    | raised e ↦ refused e world
    | returned args ↦ start_dry_run args world
  ]
