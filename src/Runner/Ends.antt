-- ===== src/Runner/Ends.antt =====
-- How a control command may end.
use venture_capital_lead_res.Prelude.{ℕ, ◌≡◌, refl, String, Option, none, some}
use venture_capital_lead_res.Json.{Fields}
use venture_capital_lead_res.Runner.Helper.{Outcome, returned, raised, Raised, Helped}
use venture_capital_lead_res.Runner.Child.{Decoders, Child, execute}
use venture_capital_lead_res.Runner.Control.{
  Decision, ControlArgs, check_control, Cancellation, Controlled, resumed, stopped,
  reconcile_postgres_cancellation, resume, cancel_then_resume, control_main,
}
use venture_capital_lead_res.Runner.Cancel.{
  Acceptable, check_control-Acceptable, Acceptable-check_control, Cancelled,
  cancelled_result-Cancelled, Cancelled-cancelled_result,
}

module _ {ℓ} {World : Type ℓ} (helper : Cancellation → World → Helped × World)
    (installed : World → Outcome (Unit {0}))
    (spawn : String → Decision → String → World → Outcome Child × World) (d : Decoders)
    (operator_id : String) (args : ControlArgs) (world : World) where
  abbrev started_in : World → Outcome Child × World
  started_in w = spawn args.approval_id args.decision operator_id w

  -- What is left of a resumption in a world, behind a cancellation or none.
  pub data Resumes (reconciliation : Option Fields) (w : World) : Controlled World → Type ℓ where
    uninstalled :
        (e : Raised)
        → installed w ≡ raised e
        → Resumes reconciliation w (stopped reconciliation e w)
    not_started :
        (e : Raised)
        → installed w ≡ returned tt
        → (started_in w).0 ≡ raised e
        → Resumes reconciliation w (stopped reconciliation e (started_in w).1)
    started :
        (child : Child)
        → installed w ≡ returned tt
        → (started_in w).0 ≡ returned child
        → Resumes reconciliation w
            (resumed reconciliation (execute d none none child (started_in w).1))

  -- The request for a cancellation, in the operator's name.
  abbrev pub cancellation : String → ℕ → Cancellation
  cancellation run_id revision = record {
    run_id = run_id;
    expected_revision = revision;
    operator_id = operator_id;
  }

  pub data Ends : Controlled World → Type ℓ where
    untouched :
        (e : Raised)
        → ((target : Option (String × ℕ)) → ¬ Acceptable operator_id args target)
        → Ends (stopped none e world)
    approved :
        (end : Controlled World)
        → Acceptable operator_id args none
        → Resumes none world end
        → Ends end
    not_cancelled :
        (run_id : String) (revision : ℕ) (e : Raised)
        → Acceptable operator_id args (some (run_id, revision))
        → ((result : Fields) → ¬ Cancelled (helper (cancellation run_id revision) world).0 result)
        → Ends (stopped none e (helper (cancellation run_id revision) world).1)
    rejected :
        (run_id : String) (revision : ℕ) (result : Fields) (end : Controlled World)
        → Acceptable operator_id args (some (run_id, revision))
        → Cancelled (helper (cancellation run_id revision) world).0 result
        → Resumes (some result) (helper (cancellation run_id revision) world).1 end
        → Ends end

  resume-Resumes :
      (reconciliation : Option Fields) (w : World)
      → Resumes reconciliation w (resume helper installed spawn d operator_id args reconciliation w)
  unfolding resume
  resume-Resumes reconciliation w = by_install (installed w) refl (started_in w).0 refl
    where
      by_install :
          (ready : Outcome (Unit {0}))
          → installed w ≡ ready
          → (begun : Outcome Child) → (started_in w).0 ≡ begun
          → Resumes reconciliation w (elim ready [
            | raised e ↦ stopped reconciliation e w
            | returned u ↦ elim begun [
              | raised e ↦ stopped reconciliation e (started_in w).1
              | returned child ↦ resumed reconciliation (execute d none none child (started_in w).1)
            ]
          ])
      by_install (raised e) i begun s = uninstalled e i
      by_install (returned u) i (raised e) s = not_started e i s
      by_install (returned u) i (returned child) s = started child i s

  cancel_then_resume-Ends :
      (run_id : String) (revision : ℕ)
      → Acceptable operator_id args (some (run_id, revision))
      → Ends (
          cancel_then_resume helper installed spawn d operator_id args
            (cancellation run_id revision)
            world)
  unfolding cancel_then_resume reconcile_postgres_cancellation
  cancel_then_resume-Ends run_id revision acceptable =
      by_answer
        (reconcile_postgres_cancellation helper installed spawn d (cancellation run_id revision)
          world).0
        refl
    where
      asked : Helped × World
      asked = helper (cancellation run_id revision) world

      by_answer :
          (answer : Outcome Fields)
          → (reconcile_postgres_cancellation helper installed spawn d
              (cancellation run_id revision)
              world).0
            ≡ answer
          → Ends (elim answer [
            | raised e ↦ stopped none e asked.1
            | returned result ↦
                resume helper installed spawn d operator_id args (some result) asked.1
          ])
      by_answer (raised e) h =
          not_cancelled run_id revision e acceptable
            (λ result c. let done = Cancelled-cancelled_result asked.0 result c in cc (h, done))
      by_answer (returned result) h =
          rejected run_id revision result _ acceptable (cancelled_result-Cancelled asked.0 result h)
            (resume-Resumes (some result) asked.1)

  -- A control command of the operator ends in one of four ways. One that is not acceptable (a known
  -- operator, an approval id of eight hexadecimal digits, and for a rejection a run and a positive
  -- revision, for an approval neither) is refused and touches nothing. An approval resumes the
  -- paused workflow and asks vcops for no cancellation. A rejection first asks vcops to cancel
  -- exactly the run and the revision that the arguments name, in the operator's name; the workflow
  -- is resumed in the world behind that only if vcops ended with status 0 and at most 64 KiB that
  -- say `ok` and that the run is cancelled, and otherwise no child is started. A resumption whose
  -- installation check or start fails reports the error, and the cancellation that was made.
  pub control_main-Ends : Ends (control_main helper installed spawn d operator_id args world)
  unfolding control_main
  control_main-Ends = by_target (check_control operator_id args) refl
    where
      by_target :
          (checked : Outcome (Option (String × ℕ)))
          → check_control operator_id args ≡ checked
          → Ends (elim checked [
            | raised e ↦ stopped none e world
            | returned none ↦ resume helper installed spawn d operator_id args none world
            | returned (some (run_id, revision)) ↦
                cancel_then_resume helper installed spawn d operator_id args
                  (cancellation run_id revision)
                  world
          ])
      by_target (raised e) h = untouched e (λ target a.
          let fine = Acceptable-check_control operator_id args target a in cc (h, fine))
      by_target (returned none) h =
          approved _ (check_control-Acceptable operator_id args none h) (resume-Resumes none world)
      by_target (returned (some (run_id, revision))) h =
          cancel_then_resume-Ends run_id revision
            (check_control-Acceptable operator_id args (some (run_id, revision)) h)
