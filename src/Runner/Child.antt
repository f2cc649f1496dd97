-- ===== src/Runner/Child.antt =====
-- `_execute` and `_normalize_lobster_output` of vcrun.py. The metadata of the `version` command,
-- which is copied into the payload, is not modelled.
use venture_capital_lead_res.Prelude.{
  ℕ, String, Bool, true, false, not, ◌&&◌, ◌||◌, Option, none, some, List, [], ◌∷◌, ◌++◌, length,
  str_eq, is_some, ltb, if◌then◌else◌,
}
use venture_capital_lead_res.Json.{ℤ, pos, Json, boolean, Fields, get}
use venture_capital_lead_res.Runner.Output.{redact_fields, last_json_object}
use venture_capital_lead_res.Runner.Helper.{
  raised, uncaught_error, Outcome, Attached, attached, is_true, is_zero,
}

-- A round of the loop before its deadline: `select` has nothing, a chunk, or the end of the output.
-- A list of rounds ends where the deadline has passed.
pub data Round : Type 0 where
  idle closed : Round
  chunk : List ℕ → Round

pub data Supervised : Type 0 where
  timed_out over_limit : Supervised
  finished : List ℕ → Supervised

abbrev pub max_output_bytes : ℕ
max_output_bytes = 524288

-- The loop, whose accumulator is `captured`.
unfoldable pub supervise : List ℕ → List Round → Supervised
supervise captured [] = timed_out
supervise captured (idle ∷ rest) = supervise captured rest
supervise captured (closed ∷ rest) = finished captured
supervise captured (chunk bytes ∷ rest) =
    let longer = captured ++ bytes in
    let later = supervise longer rest in
    if ltb max_output_bytes (length longer) then over_limit else later

-- A child: the rounds until its output ends, and its status, or None where `process.wait` times out.
pub record Child : Type 0 where
  pub rounds : List Round
  pub status : Option ℤ

pub record Payload : Type 0 where
  pub succeeds : Bool
  pub error : Option String
  pub lobster : Option Fields
  pub reconciliation : Option Attached

abbrev pub failure_payload : String → Payload
failure_payload code = record {
  succeeds = false;
  error = some code;
  lobster = none;
  reconciliation = none;
}

-- The parts of Python that the output goes through.
pub record Decoders : Type 0 where
  pub decode : List ℕ → String
  pub raw_decode : String → Option (Json × String)
  pub lower : String → String

unfoldable pub normalize_lobster_output : Decoders → ℤ → String → Option String → Payload
normalize_lobster_output d status rendered (some expected) =
    if not (is_zero status) || not (str_eq rendered expected)
    then failure_payload "invalid_lobster_version"
    else record {
      succeeds = true;
      error = none;
      lobster = some (Fields.field "ok" (boolean true) Fields.end);
      reconciliation = none;
    }
normalize_lobster_output d status rendered none = elim (last_json_object d.raw_decode rendered) [
  | none ↦ failure_payload "invalid_lobster_output"
  | some envelope ↦
      let redacted = redact_fields d.lower envelope in
      record {
        succeeds = is_zero status && is_true (get "ok" redacted);
        error = none;
        lobster = some redacted;
        reconciliation = none;
      }
]

-- The reason for which a payload that is not ok is reconciled.
unfoldable pub failure_reason : Payload → String
failure_reason p = elim p.error [
  | some code ↦
      if str_eq code "invalid_lobster_output"
      then "lobster_invalid_output"
      else if is_some p.lobster
      then "lobster_step_failure"
      else "lobster_runner_failure"
  | none ↦ if is_some p.lobster then "lobster_step_failure" else "lobster_runner_failure"
]

-- `0 if ok else (return_code or 1)`.
abbrev pub exit_status : Bool → ℤ → ℤ
exit_status true status = pos 0
exit_status false status = if is_zero status then pos 1 else status

-- A failure hook: `_reconcile_workflow_failure` for the run, given the reason.
abbrev pub Hook {ℓ} : Type ℓ → Type ℓ
Hook World = String → World → Outcome Fields × World

-- What is emitted (nothing, where the reconciliation has escaped), the exit status and the world
-- behind.
pub record Ended {ℓ} (World : Type ℓ) : Type ℓ where
  pub payload : Payload
  pub exit : ℤ
  pub world : World

-- The exit status of Python where an error is not caught.
unfoldable pub exit_behind : Outcome Fields → ℤ → ℤ
exit_behind (raised uncaught_error) exit = pos 1
exit_behind answer exit = exit

module _ {ℓ} {World : Type ℓ} where
  -- `_attach_failure_reconciliation`, where there is a hook.
  unfoldable pub fail_with : Option (Hook World) → Payload → String → ℤ → World → Ended World
  fail_with none payload reason exit world = record {
    payload = payload;
    exit = exit;
    world = world;
  }
  fail_with (some hook) payload reason exit world =
      let (answer, world') = hook reason world in
      record {
        payload = record {
          succeeds = payload.succeeds;
          error = payload.error;
          lobster = payload.lobster;
          reconciliation = some (attached answer);
        };
        exit = exit_behind answer exit;
        world = world';
      }

  -- A child that was killed.
  unfoldable pub killed : Option (Hook World) → String → World → Ended World
  killed hook reason world = fail_with hook (failure_payload reason) reason (pos 1) world

  -- From the status of the child on.
  unfoldable pub conclude : Option (Hook World) → Payload → ℤ → World → Ended World
  conclude hook payload status world =
      if payload.succeeds
      then record { payload = payload; exit = pos 0; world = world }
      else fail_with hook payload (failure_reason payload) (exit_status false status) world

  unfoldable pub execute :
      Decoders → Option String → Option (Hook World) → Child → World → Ended World
  execute d expected hook child world = elim (supervise [] child.rounds) [
    | timed_out ↦ killed hook "lobster_timeout" world
    | over_limit ↦ killed hook "lobster_output_limit" world
    | finished captured ↦ elim child.status [
      | none ↦ killed hook "lobster_no_exit" world
      | some status ↦
          conclude hook (normalize_lobster_output d status (d.decode captured) expected) status
            world
    ]
  ]
