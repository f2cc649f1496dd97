-- ===== src/Runner/Shown.antt =====
-- What vcrun.py shows of the output of its child.
use venture_capital_lead_res.Prelude.{
  ◌≡◌, refl, sym, ◌∙◌, inl, inr, String, Bool, true, false, Option, none, some, [], arith,
  Option-cases, if◌then◌else◌,
}
use venture_capital_lead_res.Json.{ℤ, pos, Fields}
use venture_capital_lead_res.Runner.Output.{
  last_json_object, redact_fields, AreRedacted, AreRedacted-fields,
}
use venture_capital_lead_res.Runner.Child.{
  Supervised, timed_out, over_limit, finished, supervise, Child, Payload, Decoders, failure_payload,
  normalize_lobster_output, failure_reason, exit_status, Hook, Ended, fail_with, killed, conclude,
  execute,
}

module _ (d : Decoders) (envelope : Fields) where
  normalized-AreRedacted :
      (status : ℤ) (rendered : String)
      → (normalize_lobster_output d status rendered none).lobster ≡ some envelope
      → AreRedacted d.lower envelope
  unfolding normalize_lobster_output
  normalized-AreRedacted status rendered h =
      elim (Option-cases (last_json_object d.raw_decode rendered)) [
        | inl missing ↦ absurd (ground arith)
        | inr (found, there) ↦
            let same : redact_fields d.lower found ≡ envelope = ground arith in
            rw same at (AreRedacted-fields d.lower found)
      ]

module _ {ℓ} {World : Type ℓ} (hook : Option (Hook World)) (world : World) where
  fail_with-lobster :
      (p : Payload) (reason : String) (exit : ℤ)
      → (fail_with hook p reason exit world).payload.lobster ≡ p.lobster
  unfolding fail_with
  fail_with-lobster p reason exit = by_hook hook
    where
      by_hook :
          (h : Option (Hook World)) → (fail_with h p reason exit world).payload.lobster ≡ p.lobster
      by_hook none = refl
      by_hook (some f) = refl

  killed-lobster : (reason : String) → (killed hook reason world).payload.lobster ≡ none
  unfolding killed
  killed-lobster reason = fail_with-lobster (failure_payload reason) reason (pos 1)

  conclude-lobster :
      (p : Payload) (status : ℤ) → (conclude hook p status world).payload.lobster ≡ p.lobster
  unfolding conclude
  conclude-lobster p status = by_success p.succeeds
    where
      ended : Bool → Ended World
      ended b =
          if b
          then record { payload = p; exit = pos 0; world = world }
          else fail_with hook p (failure_reason p) (exit_status false status) world

      by_success : (b : Bool) → (ended b).payload.lobster ≡ p.lobster
      by_success true = refl
      by_success false = fail_with-lobster p (failure_reason p) (exit_status false status)

  -- Whatever the child does, the envelope of it that a run, a dry run or a resumption emits shows
  -- the value of no field, at any depth, whose name, in lower case and without other characters
  -- than letters and digits, contains `password`, `passwd`, `secret`, `token`, `apikey`, `dsn` or
  -- `credential`. (What vcops answers to the probe and to the reconciliation is emitted as it is.)
  pub execute-AreRedacted :
      (d : Decoders) (child : Child) (envelope : Fields)
      → (execute d none hook child world).payload.lobster ≡ some envelope
      → AreRedacted d.lower envelope
  unfolding execute
  execute-AreRedacted d child envelope h = by_output (supervise [] child.rounds) child.status h
    where
      ended : Supervised → Option ℤ → Ended World
      ended s status = elim s [
        | timed_out ↦ killed hook "lobster_timeout" world
        | over_limit ↦ killed hook "lobster_output_limit" world
        | finished captured ↦ elim status [
          | none ↦ killed hook "lobster_no_exit" world
          | some status ↦
              conclude hook (normalize_lobster_output d status (d.decode captured) none) status
                world
        ]
      ]

      by_output :
          (s : Supervised) (status : Option ℤ)
          → (ended s status).payload.lobster ≡ some envelope
          → AreRedacted d.lower envelope
      by_output timed_out status k = absurd (cc (k, killed-lobster "lobster_timeout"))
      by_output over_limit status k = absurd (cc (k, killed-lobster "lobster_output_limit"))
      by_output (finished captured) none k = absurd (cc (k, killed-lobster "lobster_no_exit"))
      by_output (finished captured) (some status) k =
          let p = normalize_lobster_output d status (d.decode captured) none in
          normalized-AreRedacted d envelope status (d.decode captured)
            (sym (conclude-lobster p status) ∙ k)
