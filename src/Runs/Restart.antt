-- ===== src/Runs/Restart.antt =====
-- Every answer of `cmd_workflow_start` where the idempotency key is in use.
use venture_capital_lead_res.Prelude.{
  suc, ◌≡◌, refl, inl, inr, true, false, none, some, [], ◌∷◌, arith, is_some, Bool-cases,
}
use venture_capital_lead_res.Fail.{ok, err, sqlstate, deny_exit}
use venture_capital_lead_res.Runs.Status.{
  Status, succeeded, failed, cancelled, lost, same_status, same_status→eq, status_in,
  terminal_run_states, queued,
}
use venture_capital_lead_res.Runs.Rows.{Run, Db, find_run, find_key}
use venture_capital_lead_res.Runs.Sql.{reopened, stamp}
use venture_capital_lead_res.Runs.Insert.{scope_check, insert_run}
use venture_capital_lead_res.Runs.Commands.{
  Mode, workflow_started, completed, in_progress, retried, assert_replay_matches,
  classify_workflow_replay,
}
use venture_capital_lead_res.Runs.Handlers.{
  Digests, StartArgs, StartInput, start_input, requested_run, answer_replay, replay_start, open_run,
  cmd_workflow_start,
}
use venture_capital_lead_res.Runs.Distinct.{IsDistinct, find_run-find_key}
use venture_capital_lead_res.Runs.Replay.{
  retried_row, retried_db, request_matches, StartReplay, unowned, tampered, done_before,
  decided_before, resumed, not_reopened, reopened_run, retry-cancelled, retry-reopens,
}
use venture_capital_lead_res.Runs.Lineage.{start-lineage}

module _ (m : Mode) (db : Db) (wanted r : Run)
    (found : find_key wanted.workflow_id wanted.idempotency_key db.runs ≡ some r) where
  replay_start-tampered :
      request_matches wanted r ≡ false
      → replay_start m wanted db ≡ deny_exit "idempotency_payload_mismatch" 1
  unfolding replay_start assert_replay_matches
  replay_start-tampered h = ground arith

  module _ (match : request_matches wanted r ≡ true) where
    replay_start-done :
        same_status r.status succeeded ≡ true
        → replay_start m wanted db ≡ ok (workflow_started r completed false, db)
    unfolding replay_start assert_replay_matches answer_replay classify_workflow_replay
    replay_start-done h = ground arith

    module _ (open_ : same_status r.status succeeded ≡ false) where
      replay_start-decided :
          status_in (cancelled ∷ lost ∷ []) r.status ≡ true
          → replay_start m wanted db ≡ deny_exit "workflow_run_not_retryable" 1
      unfolding replay_start assert_replay_matches answer_replay classify_workflow_replay
      replay_start-decided h = ground arith

      replay_start-resumed :
          status_in (cancelled ∷ lost ∷ []) r.status ≡ false
          → same_status r.status failed ≡ false
          → replay_start m wanted db ≡ ok (workflow_started r in_progress true, db)
      unfolding replay_start assert_replay_matches answer_replay classify_workflow_replay
      replay_start-resumed h k = ground arith

      module _ (row : find_run r.run_id db.runs ≡ some r)
          (free : status_in (cancelled ∷ lost ∷ []) r.status ≡ false)
          (f : same_status r.status failed ≡ true) where
        replay_start-not_reopened :
            is_some r.cancel_requested_at ≡ true → replay_start m wanted db ≡ err (sqlstate "55000")
        unfolding replay_start assert_replay_matches answer_replay classify_workflow_replay
        replay_start-not_reopened c = ground (arith, retry-cancelled m db r row f c)

        replay_start-reopened :
            is_some r.cancel_requested_at ≡ false
            → replay_start m wanted db
              ≡ ok (workflow_started (retried_row db r) retried true, retried_db m db r)
        unfolding replay_start assert_replay_matches answer_replay classify_workflow_replay
        replay_start-reopened c = ground (arith, retry-reopens m db r row f c)

not_settled :
    (s : Status)
    → same_status s succeeded ≡ false
    → status_in (cancelled ∷ lost ∷ []) s ≡ false
    → same_status s failed ≡ false
    → status_in terminal_run_states s ≡ false
unfolding status_in
not_settled s a b c = ground arith

retried_row-fields :
    (db : Db) (r : Run)
    → ((retried_row db r).status ≡ queued)
      × ((retried_row db r).attempt ≡ suc r.attempt)
      × ((retried_row db r).error_class ≡ none)
unfolding retried_row stamp reopened
retried_row-fields db r = (refl, refl, refl)

replay_start-outcome :
    (m : Mode) (db : Db) (wanted r : Run)
    → find_key wanted.workflow_id wanted.idempotency_key db.runs ≡ some r
    → IsDistinct db.runs
    → StartReplay m db wanted r (replay_start m wanted db)
replay_start-outcome m db wanted r found d = elim (Bool-cases (request_matches wanted r)) [
  | inr other ↦ rw (replay_start-tampered m db wanted r found other) (tampered other)
  | inl same ↦ elim (Bool-cases (same_status r.status succeeded)) [
    | inl ended ↦
        rw (replay_start-done m db wanted r found same ended)
          (done_before same (same_status→eq r.status succeeded ended))
    | inr open_ ↦ elim (Bool-cases (status_in (cancelled ∷ lost ∷ []) r.status)) [
      | inl decided ↦
          rw (replay_start-decided m db wanted r found same open_ decided)
            (decided_before same decided)
      | inr free ↦ elim (Bool-cases (same_status r.status failed)) [
        | inr live ↦
            rw (replay_start-resumed m db wanted r found same open_ free live)
              (resumed same (not_settled r.status open_ free live))
        | inl f ↦ failed-outcome open_ same free f
      ]
    ]
  ]
]
  where
    row : find_run r.run_id db.runs ≡ some r
    row = find_run-find_key wanted.workflow_id wanted.idempotency_key db.runs r d found

    failed-outcome :
        same_status r.status succeeded ≡ false
        → request_matches wanted r ≡ true
        → status_in (cancelled ∷ lost ∷ []) r.status ≡ false
        → same_status r.status failed ≡ true
        → StartReplay m db wanted r (replay_start m wanted db)
    failed-outcome open_ same free f = elim (Bool-cases (is_some r.cancel_requested_at)) [
      | inl c ↦
          rw (replay_start-not_reopened m db wanted r found same open_ row free f c)
            (not_reopened same (same_status→eq r.status failed f) c)
      | inr c ↦
          let (status, attempt, class) = retried_row-fields db r in
          rw (replay_start-reopened m db wanted r found same open_ row free f c)
            (reopened_run same (same_status→eq r.status failed f) c status attempt class)
    ]

-- `workflow-start` under an idempotency key that a run `r` of the workflow already has, with valid
-- arguments: it never opens a second run. A request whose hash or argument digest differs is
-- refused; the same request resumes a live run unchanged, reports a succeeded one as completed and
-- asks for no execution, is refused on a cancelled or lost one, and reopens a failed one as queued
-- with the next attempt number, unless that run was asked to cancel. A lead that has no company is
-- refused before all this.
pub cmd_workflow_start-replay :
    (d : Digests) (m : Mode) (args : StartArgs) (i : StartInput) (db : Db) (r : Run)
    → IsDistinct db.runs
    → start_input m args db ≡ ok i
    → scope_check (requested_run d args i) ≡ true
    → find_key (requested_run d args i).workflow_id (requested_run d args i).idempotency_key db.runs
      ≡ some r
    → StartReplay m db (requested_run d args i) r (cmd_workflow_start d m args db)
unfolding cmd_workflow_start open_run insert_run
cmd_workflow_start-replay d m args i db r distinct input scope found =
    let wanted = requested_run d args i in
    elim (start-lineage d m args i db input) [
      | inl passed ↦
          rw input
            (rw passed (rw scope (rw found (replay_start-outcome m db wanted r found distinct))))
      | inr (l, named, unlinked, refused) ↦ rw input (rw refused (unowned l named unlinked))
    ]
