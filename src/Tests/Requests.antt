-- ===== src/Tests/Requests.antt =====
-- Workflow runs at concrete tables.
use venture_capital_lead_res.Prelude.{
  ℕ, ◌≡◌, refl, String, true, false, Option, none, some, List, [], ◌∷◌, ◌&&◌, ◌||◌, not,
  is_all_spaces, strip,
}
use venture_capital_lead_res.Fail.{ok, err, deny_exit, sqlstate}
use venture_capital_lead_res.Json.{Fields}
use venture_capital_lead_res.Validate.Checks.{
  absent, parse_json_object, require_input_digest, require_text,
}
use venture_capital_lead_res.Runs.Status.{
  Status, running, succeeded, failed, cancelled, status_in, same_status, run_transitions,
}
use venture_capital_lead_res.Runs.Rows.{Run, Db, find_run, find_key}
use venture_capital_lead_res.Runs.Commands.{Mode}
use venture_capital_lead_res.Runs.Handlers.{
  Digests, StartArgs, StartInput, start_input, run_lineage, requested_run, cmd_workflow_start,
  cmd_workflow_cancel, reconcile_run, is_other_workflow,
}
use venture_capital_lead_res.Runs.Commands.{transition_run, runtime_actor}
use venture_capital_lead_res.Runs.Sql.{guard_workflow_run_transition, transitioned}
use venture_capital_lead_res.Runs.Insert.{scope_check, queued_run}
use venture_capital_lead_res.Runs.Serve.{
  Command, workflow_transition, workflow_cancel, workflow_reconcile_failure, serve,
}
use venture_capital_lead_res.Runs.Advance.{Advances}
use venture_capital_lead_res.Runs.Distinct.{IsDistinct}
use venture_capital_lead_res.Runs.Lifecycle.{
  settled_forever, serve-Advances, serve-Continues, Continues,
}
use venture_capital_lead_res.Runs.Parity.{gate, ends_cancelled_run, is_ok, is_ok-guard_transitioned}
use venture_capital_lead_res.Runs.Progress.{reached, reached_db, transition_run-succeeds}
use venture_capital_lead_res.Runs.Reconcile.{ReconcileOutcome, reconcile_run-outcome}
use venture_capital_lead_res.Runs.Replay.{StartReplay}
use venture_capital_lead_res.Runs.Restart.{cmd_workflow_start-replay}
use venture_capital_lead_res.Runs.Revisions.{transition_run-stale, cmd_workflow_cancel-requested}

abbrev run_of : String → String → Status → Option ℕ → Run
run_of id key status asked = record {
  run_id = id;
  workflow_id = "document-ingest";
  idempotency_key = key;
  lead_id = none;
  company_id = none;
  input_hash = "document-ingest";
  input_digest = none;
  status = status;
  flow_revision = 1;
  record_version = 3;
  attempt = 1;
  started_at = some 1;
  heartbeat_at = some 2;
  finished_at = none;
  cancel_requested_at = asked;
  cancelled_by = none;
  cancellation_reason = none;
  error_class = none;
  error_message = none;
  result = "{}";
}

abbrev done : Run
done = run_of "a" "k1" succeeded none

abbrev live : Run
live = run_of "b" "k2" running none

abbrev asked_run : Run
asked_run = run_of "c" "k3" running (some 5)

abbrev table : Db
table = record {
  runs = done ∷ live ∷ asked_run ∷ [];
  audit_events = [];
  leads = [];
  companies = [];
  clock = 10;
}

abbrev workflow_process : Mode
workflow_process = record { workflow_mode = true; operator_mode = false; operator_id = "" }

abbrev operator : Mode
operator = record { workflow_mode = false; operator_mode = true; operator_id = "ops" }

abbrev digests : Digests
digests = record { sha256_json = λ request. request.workflow; db_json = λ metadata. "{}" }

abbrev script : List (Mode × ℕ × Command)
script =
    (operator, 11, workflow_cancel "a" 3 "stop" true none)
    ∷ (workflow_process, 12, workflow_transition "b" succeeded 3 none absent)
    ∷ (
      workflow_process,
      13,
      workflow_reconcile_failure (some "document-ingest") (some "k3") "lobster_timeout",
    )
    ∷ []

found_done : find_run "a" table.runs ≡ some done
unfolding find_run
found_done = refl

found_live : find_run "b" table.runs ≡ some live
unfolding find_run
found_live = refl

found_asked : find_run "c" table.runs ≡ some asked_run
unfolding find_run
found_asked = refl

settled_forever_example : find_run "a" (serve digests table script).runs ≡ some done
unfolding status_in is_all_spaces
settled_forever_example = settled_forever digests table script "a" done found_done refl

serve-Advances_example : Advances table (serve digests table script)
serve-Advances_example = serve-Advances digests table script

serve-Continues_example :
    (s : Run) × (find_run "b" (serve digests table script).runs ≡ some s) × Continues live s
serve-Continues_example = serve-Continues digests table script "b" live found_live

table-IsDistinct : IsDistinct table.runs
unfolding find_run find_key
table-IsDistinct = ((refl, refl, (refl, refl, (refl, refl, tt))))

-- A repeated request for the run that has succeeded.
abbrev again : StartArgs
again = record {
  run_id = "d";
  workflow = some "document-ingest";
  idempotency_key = some "k1";
  lead_id = none;
  company_id = none;
  external_flow_id = none;
  metadata = absent;
  input_digest = none;
}

abbrev again_input : StartInput
again_input = record {
  workflow = "document-ingest";
  key = "k1";
  company = none;
  digest = none;
  metadata = Fields.end;
}

again_ok : start_input workflow_process again table ≡ ok again_input
unfolding start_input parse_json_object require_input_digest run_lineage require_text strip
again_ok = refl

again_scope : scope_check (requested_run digests again again_input) ≡ true
unfolding scope_check requested_run queued_run
again_scope = refl

again_found :
    find_key
      (requested_run digests again again_input).workflow_id
      (requested_run digests again again_input).idempotency_key
      table.runs
    ≡ some done
unfolding find_key requested_run queued_run
again_found = refl

cmd_workflow_start-replay_example :
    StartReplay workflow_process table
      (requested_run digests again again_input)
      done
      (cmd_workflow_start digests workflow_process again table)
cmd_workflow_start-replay_example =
    cmd_workflow_start-replay digests workflow_process again again_input table done table-IsDistinct
      again_ok again_scope again_found

reconcile_run-outcome_example :
    ReconcileOutcome "document-ingest" "k3" table
      (reconcile_run workflow_process "document-ingest" "k3" "lobster_timeout" table)
reconcile_run-outcome_example =
    reconcile_run-outcome workflow_process "document-ingest" "k3" "lobster_timeout" table
      table-IsDistinct

is_ok-guard_transitioned_example :
    is_ok (
      guard_workflow_run_transition 10 live (transitioned 10 cancelled 1 "ops" "{}" none none live))
    ≡ (gate running cancelled && (not false || ends_cancelled_run cancelled))
unfolding same_status
is_ok-guard_transitioned_example =
    is_ok-guard_transitioned 10 cancelled "ops" "{}" none none live refl

running_succeeds : gate running succeeded ≡ true
unfolding gate status_in run_transitions
running_succeeds = refl

transition_run-succeeds_example :
    transition_run workflow_process "b" succeeded 3 none "{}" table
    ≡ ok (
      reached workflow_process "b" succeeded none "{}" table live,
      reached_db workflow_process "b" succeeded none "{}" table live,
    )
unfolding same_status
transition_run-succeeds_example =
    transition_run-succeeds workflow_process "b" succeeded none "{}" table live found_live refl
      running_succeeds refl

won :
    transition_run workflow_process "b" succeeded 3 none "{}" table
    ≡ ok (
      reached workflow_process "b" succeeded none "{}" table live,
      reached_db workflow_process "b" succeeded none "{}" table live,
    )
unfolding same_status
won =
    transition_run-succeeds workflow_process "b" succeeded none "{}" table live found_live refl
      running_succeeds refl

transition_run-stale_example :
    transition_run operator "b" failed 3
      (some "late")
      "{}"
      (reached_db workflow_process "b" succeeded none "{}" table live)
    ≡ deny_exit "revision_conflict" 1
unfolding same_status
transition_run-stale_example =
    transition_run-stale workflow_process "b" succeeded 3 none "{}" table
      (reached_db workflow_process "b" succeeded none "{}" table live) live
      (reached workflow_process "b" succeeded none "{}" table live) found_live refl won operator
      failed (some "late") "{}"

own : is_other_workflow none "document-ingest" ≡ false
own = refl

spaces : is_all_spaces (runtime_actor operator) ≡ false
unfolding runtime_actor is_all_spaces
spaces = refl

cmd_workflow_cancel-requested_example :
    cmd_workflow_cancel operator "c" 3 "stop" true none table ≡ err (sqlstate "40001")
unfolding status_in is_all_spaces
cmd_workflow_cancel-requested_example =
    cmd_workflow_cancel-requested operator "c" "stop" none table asked_run refl found_asked refl
      refl own spaces refl
