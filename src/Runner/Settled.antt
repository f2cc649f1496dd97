-- ===== src/Runner/Settled.antt =====
-- What a run of vcrun.py leaves behind: each failure of the child is reconciled once, with a reason
-- that `workflow-reconcile-failure` of vcops.py accepts.
use venture_capital_lead_res.Prelude.{
  ◌≡◌, ◌≢◌, refl, inl, inr, String, Bool, true, false, Option, none, some, [], str_eq, is_some,
  member, ◌==◌, arith, sym, ap, ◌∙◌, str_eq→eq, Bool-cases, Option-cases, if◌then◌else◌,
}
use venture_capital_lead_res.Json.{ℤ, pos, negsuc, Fields, get}
use venture_capital_lead_res.Runs.Commands.{runner_failure_classes}
use venture_capital_lead_res.Runner.Output.{last_json_object, redact_fields}
use venture_capital_lead_res.Runner.Helper.{
  Outcome, returned, raised, Raised, uncaught_error, attached, is_true, Helped, HelperCall,
  probe_workflow_replay, reconcile_workflow_failure,
}
use venture_capital_lead_res.Runner.Child.{
  Supervised, timed_out, over_limit, finished, supervise, Child, Payload, Decoders,
  normalize_lobster_output, failure_reason, exit_status, exit_behind, Hook, Ended, fail_with,
  killed, conclude, execute,
}
use venture_capital_lead_res.Runner.Launch.{
  Launched, replayed, executed, refused, run_child, run_workflow,
}

-- A child that succeeded left the world alone; one that failed had the hook called once, with a
-- known reason, and the payload carries what the hook answered.
pub data Settled {ℓ} {World : Type ℓ} (hook : Hook World) (world : World) (e : Ended World)
    : Type ℓ where
  completed :
      (envelope : Fields)
      → e.payload.lobster ≡ some envelope
      → is_true (get "ok" envelope) ≡ true
      → e.exit ≡ pos 0
      → e.world ≡ world
      → Settled hook world e
  reconciled_failure :
      (reason : String)
      → member reason runner_failure_classes ≡ true
      → e.payload.reconciliation ≡ some (attached (hook reason world).0)
      → e.world ≡ (hook reason world).1
      → e.exit ≢ pos 0
      → Settled hook world e

failure_reason-member : (p : Payload) → member (failure_reason p) runner_failure_classes ≡ true
unfolding failure_reason
failure_reason-member p = by_cases p.error (is_some p.lobster)
  where
    by_cases :
        (error : Option String) (enveloped : Bool)
        → member
            (elim error [
              | some code ↦
                  if str_eq code "invalid_lobster_output"
                  then "lobster_invalid_output"
                  else if enveloped
                  then "lobster_step_failure"
                  else "lobster_runner_failure"
              | none ↦ if enveloped then "lobster_step_failure" else "lobster_runner_failure"
            ])
            runner_failure_classes
          ≡ true
    by_cases none true = refl
    by_cases none false = refl
    by_cases (some code) enveloped = chosen (str_eq code "invalid_lobster_output") enveloped
      where
        chosen :
            (invalid enveloped : Bool)
            → member
                (if invalid
                  then "lobster_invalid_output"
                  else if enveloped
                  then "lobster_step_failure"
                  else "lobster_runner_failure")
                runner_failure_classes
              ≡ true
        chosen true enveloped = refl
        chosen false true = refl
        chosen false false = refl

exit_status-failed : (status : ℤ) → exit_status false status ≢ pos 0
exit_status-failed (pos n) h = by_value (n == 0) refl h
  where
    by_value : (b : Bool) → (n == 0) ≡ b → (if b then pos 1 else pos n) ≡ pos 0 → ⊥
    by_value true e h = cc h
    by_value false e h = ground arith
exit_status-failed (negsuc n) h = cc h

exit_behind-failed :
    (answer : Outcome Fields) (exit : ℤ) → exit ≢ pos 0 → exit_behind answer exit ≢ pos 0
unfolding exit_behind
exit_behind-failed (raised uncaught_error) exit failed h = ground arith
exit_behind-failed (raised e) exit failed h = failed h
exit_behind-failed (returned result) exit failed h = failed h

module _ {ℓ} {World : Type ℓ} (hook : Hook World) (world : World) where
  killed-Settled :
      (reason : String)
      → member reason runner_failure_classes ≡ true
      → Settled hook world (killed (some hook) reason world)
  unfolding killed fail_with
  killed-Settled reason known =
      reconciled_failure reason known refl refl
        (exit_behind-failed (hook reason world).0 (pos 1) (exit_status-failed (pos 0)))

  conclude-done :
      (p : Payload) (status : ℤ)
      → p.succeeds ≡ true
      → conclude (some hook) p status world ≡ record { payload = p; exit = pos 0; world = world }
  unfolding conclude
  conclude-done p status h = rw h refl

  conclude-failed :
      (p : Payload) (status : ℤ)
      → p.succeeds ≡ false
      → conclude (some hook) p status world
        ≡ fail_with (some hook) p (failure_reason p) (exit_status false status) world
  unfolding conclude
  conclude-failed p status h = rw h refl

  failed-Settled :
      (p : Payload) (status : ℤ)
      → p.succeeds ≡ false
      → Settled hook world (conclude (some hook) p status world)
  unfolding fail_with
  failed-Settled p status h = rw (conclude-failed p status h) (
      reconciled_failure (failure_reason p) (failure_reason-member p) refl refl (
        exit_behind-failed (hook (failure_reason p) world).0 (exit_status false status)
          (exit_status-failed status)))

  normalized-envelope :
      (d : Decoders) (status : ℤ) (rendered : String)
      → (normalize_lobster_output d status rendered none).succeeds ≡ true
      → (envelope : Fields) × ((normalize_lobster_output d status rendered none).lobster
          ≡ some envelope)
        × (is_true (get "ok" envelope) ≡ true)
  unfolding normalize_lobster_output
  normalized-envelope d status rendered h =
      elim (Option-cases (last_json_object d.raw_decode rendered)) [
        | inl missing ↦ absurd (ground arith)
        | inr (envelope, found) ↦
            (redact_fields d.lower envelope, ground arith, enveloped envelope found)
      ]
    where
      enveloped :
          (envelope : Fields)
          → last_json_object d.raw_decode rendered ≡ some envelope
          → is_true (get "ok" (redact_fields d.lower envelope)) ≡ true
      enveloped envelope found = ground arith

  conclude-Settled :
      (d : Decoders) (status : ℤ) (rendered : String)
      → Settled hook world
          (conclude (some hook) (normalize_lobster_output d status rendered none) status world)
  conclude-Settled d status rendered =
      let p = normalize_lobster_output d status rendered none in
      elim (Bool-cases p.succeeds) [
        | inl done ↦
            let (envelope, shown, said) = normalized-envelope d status rendered done in
            rw (conclude-done p status done) (completed envelope shown said refl refl)
        | inr failed ↦ failed-Settled p status failed
      ]

  -- A run of the child either succeeds, with exit status 0 and an envelope that says so, and
  -- reconciles nothing; or it fails, with another exit status, and is reconciled exactly once,
  -- with a reason that `workflow-reconcile-failure` accepts; the payload carries its answer, unless
  -- that is an error that nothing catches.
  pub execute-Settled :
      (d : Decoders) (child : Child) → Settled hook world (execute d none (some hook) child world)
  unfolding execute
  execute-Settled d child = by_output (supervise [] child.rounds) child.status
    where
      by_output :
          (s : Supervised) (status : Option ℤ)
          → Settled hook world (elim s [
            | timed_out ↦ killed (some hook) "lobster_timeout" world
            | over_limit ↦ killed (some hook) "lobster_output_limit" world
            | finished captured ↦ elim status [
              | none ↦ killed (some hook) "lobster_no_exit" world
              | some status ↦
                  conclude
                    (some hook)
                    (normalize_lobster_output d status (d.decode captured) none)
                    status
                    world
            ]
          ])
      by_output timed_out status = killed-Settled "lobster_timeout" refl
      by_output over_limit status = killed-Settled "lobster_output_limit" refl
      by_output (finished captured) none = killed-Settled "lobster_no_exit" refl
      by_output (finished captured) (some status) = conclude-Settled d status (d.decode captured)

differs : (o : String) → str_eq o "completed" ≡ false → o ≢ "completed"
differs o h same = absurd (cc (sym h ∙ ap (λ t. str_eq t "completed") same))

module _ {ℓ} {World : Type ℓ} (helper : HelperCall → World → Helped × World)
    (database_workflow : String → Option String) (installed : World → Outcome (Unit {0}))
    (spawn : World → Outcome Child × World) (d : Decoders)
    (workflow idempotency_key input_digest : String) (world : World) where
  abbrev pub probed : Outcome String × World
  probed =
      probe_workflow_replay helper database_workflow workflow idempotency_key input_digest world

  abbrev pub failure_hook : Hook World
  failure_hook = reconcile_workflow_failure helper database_workflow workflow idempotency_key

  -- How a run ends, by what the probe answers.
  pub data RunOutcome : Launched World → Type ℓ where
    not_repeated : probed.0 ≡ returned "completed" → RunOutcome (replayed probed.1)
    settled_run :
        (outcome : String) (child : Child) (e : Ended World)
        → probed.0 ≡ returned outcome
        → outcome ≢ "completed"
        → (spawn probed.1).0 ≡ returned child
        → e ≡ execute d none (some failure_hook) child (spawn probed.1).1
        → Settled failure_hook (spawn probed.1).1 e
        → RunOutcome (executed e)
    not_begun : (e : Raised) → probed.0 ≡ raised e → RunOutcome (refused e probed.1)
    not_installed :
        (outcome : String) (e : Raised)
        → probed.0 ≡ returned outcome
        → outcome ≢ "completed"
        → installed probed.1 ≡ raised e
        → RunOutcome (refused e probed.1)
    not_started :
        (outcome : String) (e : Raised)
        → probed.0 ≡ returned outcome
        → outcome ≢ "completed"
        → installed probed.1 ≡ returned tt
        → (spawn probed.1).0 ≡ raised e
        → RunOutcome (refused e (spawn probed.1).1)

  run_child-RunOutcome :
      (outcome : String)
      → probed.0 ≡ returned outcome
      → outcome ≢ "completed"
      → RunOutcome
          (run_child helper database_workflow installed spawn d (some failure_hook) probed.1)
  unfolding run_child
  run_child-RunOutcome outcome p other =
      by_install (installed probed.1) refl (spawn probed.1).0 refl
    where
      by_install :
          (ready : Outcome (Unit {0}))
          → installed probed.1 ≡ ready
          → (started : Outcome Child) → (spawn probed.1).0 ≡ started
          → RunOutcome (elim ready [
            | raised e ↦ refused e probed.1
            | returned u ↦ elim started [
              | raised e ↦ refused e (spawn probed.1).1
              | returned child ↦
                  executed (execute d none (some failure_hook) child (spawn probed.1).1)
            ]
          ])
      by_install (raised e) i started s = not_installed outcome e p other i
      by_install (returned u) i (raised e) s = not_started outcome e p other i s
      by_install (returned u) i (returned child) s =
          settled_run outcome child _ p other s refl
            (execute-Settled failure_hook (spawn probed.1).1 d child)

  -- `vcrun run` asks the database first. A request that is completed already, or that the probe
  -- refuses, starts no child and changes nothing more. For any other the installation is checked
  -- again and the child started, at most once: where either raises, the run ends with that error,
  -- with no child and no reconciliation; a child that is started runs with the hook that reconciles
  -- this request, and its run settles: it succeeds and reconciles nothing, or it fails and is
  -- reconciled exactly once.
  pub run_workflow-RunOutcome : RunOutcome (
      run_workflow helper database_workflow installed spawn d workflow idempotency_key input_digest
        world)
  unfolding run_workflow
  run_workflow-RunOutcome = by_probe probed.0 refl
    where
      by_outcome :
          (outcome : String) (b : Bool)
          → probed.0 ≡ returned outcome
          → str_eq outcome "completed" ≡ b
          → RunOutcome (
              if b
              then replayed probed.1
              else run_child helper database_workflow installed spawn d
                  (some failure_hook)
                  probed.1)
      by_outcome outcome true p h = not_repeated (p ∙ ap returned (str_eq→eq outcome "completed" h))
      by_outcome outcome false p h = run_child-RunOutcome outcome p (differs outcome h)

      by_probe :
          (answer : Outcome String)
          → probed.0 ≡ answer
          → RunOutcome (elim answer [
            | raised e ↦ refused e probed.1
            | returned outcome ↦
                if str_eq outcome "completed"
                then replayed probed.1
                else run_child helper database_workflow installed spawn d
                    (some failure_hook)
                    probed.1
          ])
      by_probe (raised e) p = not_begun e p
      by_probe (returned outcome) p = by_outcome outcome (str_eq outcome "completed") p refl
