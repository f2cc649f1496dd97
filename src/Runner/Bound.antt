-- ===== src/Runner/Bound.antt =====
-- The arguments, the key and the digest behind a run of vcrun.py.
use venture_capital_lead_res.Prelude.{
  ◌≡◌, refl, ◌⊎◌, inl, inr, String, true, false, [], ◌∷◌, ◌++◌, str_eq, str_eq_refl, str_eq→eq,
  member, arith, Bool-cases,
}
use venture_capital_lead_res.Runner.Helper.{Outcome, returned, raised, Raised, Helped, HelperCall}
use venture_capital_lead_res.Runner.Child.{Decoders, Child}
use venture_capital_lead_res.Runner.Launch.{Launched, refused, run_workflow}
use venture_capital_lead_res.Runner.Args.{Args, keys_of, value_of, RawArgs}
use venture_capital_lead_res.Runner.Rules.{Codecs, validate_workflow_args}
use venture_capital_lead_res.Runner.Conforms.{Conforms, validate_workflow_args-Conforms}
use venture_capital_lead_res.Runner.Main.{database_workflow, inject, start_run, main_run}

value_of-append :
    (key value : String) (args : Args)
    → member key (keys_of args) ≡ false
    → value_of key (args ++ (key, value) ∷ []) ≡ returned value
unfolding value_of
value_of-append key value [] h = rw (str_eq_refl key) refl
value_of-append key value ((k, v) ∷ rest) h = elim (Bool-cases (str_eq k key)) [
  | inl this ↦
      let same : k ≡ key = str_eq→eq k key this in
      let both : str_eq key k ≡ true = rw same (str_eq_refl key) in absurd (ground arith)
  | inr other ↦ let later = value_of-append key value rest (ground arith) in rw other later
]

inject-value :
    (key value : String) (args : Args)
    → member key (keys_of args) ≡ false
    → value_of key (inject key value args) ≡ returned value
unfolding inject
inject-value key value args h = rw h (value_of-append key value args h)

module _ {ℓ} {World : Type ℓ} (x : Codecs) (sha256 : String → String) (print : Args → String)
    (installed : World → Outcome (Unit {0})) (helper : HelperCall → World → Helped × World)
    (spawn : Args → World → Outcome Child × World) (d : Decoders) (workflow : String)
    (raw : RawArgs) (world : World) where
  -- The run behind a child or a replay: the arguments are accepted and conform, and the digest that
  -- the probe asks for is that of them and the one that the child's arguments carry.
  pub record Bound (launched : Launched World) : Type ℓ where
    pub args : Args
    pub key : String
    pub accepted : validate_workflow_args x workflow raw ≡ returned args
    pub conforms : Conforms workflow args
    pub keyed : value_of "idempotency_key" args ≡ returned key
    pub carried :
        value_of "input_digest" (inject "input_digest" (sha256 (print args)) args)
        ≡ returned (sha256 (print args))
    pub ran :
        run_workflow helper database_workflow installed
          (spawn (inject "input_digest" (sha256 (print args)) args))
          d
          workflow
          key
          (sha256 (print args))
          world
        ≡ launched

  -- A refusal that has touched nothing.
  abbrev pub Unbegun : Launched World → Type ℓ
  Unbegun launched = (e : Raised) × (launched ≡ refused e world)

  start_run-Bound :
      (args : Args)
      → validate_workflow_args x workflow raw ≡ returned args
      → Unbegun (start_run x sha256 print installed helper spawn d workflow args world)
        ⊎ Bound (start_run x sha256 print installed helper spawn d workflow args world)
  unfolding start_run
  start_run-Bound args accepted = by_key (value_of "idempotency_key" args) refl (installed world)
    where
      conforms : Conforms workflow args
      conforms = validate_workflow_args-Conforms x workflow raw args accepted

      run_on : String → Launched World
      run_on key =
          run_workflow helper database_workflow installed
            (spawn (inject "input_digest" (sha256 (print args)) args)) d workflow key
            (sha256 (print args)) world

      by_key :
          (named : Outcome String)
          → value_of "idempotency_key" args ≡ named
          → (ready : Outcome (Unit {0}))
          → Unbegun (elim named [
            | raised e ↦ refused e world
            | returned key ↦ elim ready [ raised e ↦ refused e world | returned u ↦ run_on key ]
          ])
            ⊎ Bound (elim named [
              | raised e ↦ refused e world
              | returned key ↦ elim ready [ raised e ↦ refused e world | returned u ↦ run_on key ]
            ])
      by_key (raised e) keyed ready = inl (e, refl)
      by_key (returned key) keyed (raised e) = inl (e, refl)
      by_key (returned key) keyed (returned u) = inr (record {
        args = args;
        key = key;
        accepted = accepted;
        conforms = conforms;
        keyed = keyed;
        carried = inject-value "input_digest" (sha256 (print args)) args conforms.undigested;
        ran = refl;
      })

  -- `vcrun run` refuses and leaves everything as it is, or its arguments are accepted, conform to
  -- the contract of the workflow, and name one idempotency key; then the run asks the database for
  -- that key and the digest of exactly these arguments, which is also the digest that the arguments
  -- of the child carry.
  pub main_run-Bound :
      Unbegun (main_run x sha256 print installed helper spawn d workflow raw world)
      ⊎ Bound (main_run x sha256 print installed helper spawn d workflow raw world)
  unfolding main_run
  main_run-Bound = by_args (validate_workflow_args x workflow raw) refl
    where
      by_args :
          (checked : Outcome Args)
          → validate_workflow_args x workflow raw ≡ checked
          → Unbegun (elim checked [
            | raised e ↦ refused e world
            | returned args ↦ start_run x sha256 print installed helper spawn d workflow args world
          ])
            ⊎ Bound (elim checked [
              | raised e ↦ refused e world
              | returned args ↦
                  start_run x sha256 print installed helper spawn d workflow args world
            ])
      by_args (raised e) h = inl (e, refl)
      by_args (returned args) h = start_run-Bound args h
