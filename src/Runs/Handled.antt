-- ===== src/Runs/Handled.antt =====
-- Every workflow handler advances the state: its rows make legal steps, or are new and queued.
use venture_capital_lead_res.Prelude.{
  ℕ, String, ◌≡◌, ◌⊎◌, inl, inr, Bool, false, not, Option, none, some, [], ◌∷◌, arith, Bool-cases,
  Option-cases, if◌then◌else◌,
}
use venture_capital_lead_res.Fail.{Failure, ok, err, Result-cases}
use venture_capital_lead_res.Runs.Status.{
  Status, started, running, failed, cancelled, status_in, terminal_run_states, same_status,
  same_status→eq,
}
use venture_capital_lead_res.Runs.Rows.{Run, Db, find_run, find_key}
use venture_capital_lead_res.Runs.Sql.{request_workflow_cancel, retry_workflow_run}
use venture_capital_lead_res.Runs.Commands.{
  Mode, Replay, Reply, runtime_actor, classify_workflow_replay, transition_run, workflow_started,
  replay_probed,
}
use venture_capital_lead_res.Runs.Handlers.{
  answer_replay, is_completed, lacks_digest, replay_start, probe_run, reconciled_result,
  reconcile_run, cancel_running, cancel_row,
}
use venture_capital_lead_res.Runs.Updates.{
  Updated, live_of_not_terminal, transition_workflow_run-Updated, request_workflow_cancel-Updated,
  retry_workflow_run-Updated,
}
use venture_capital_lead_res.Runs.Advance.{
  Advances, Advances-refl, Advances-trans, Updated-Advances,
}

-- A transition to another status, where it succeeds, is an update of the run's row.
pub transition_run-Updated :
    (m : Mode) (run_id : String) (target : Status) (expected : ℕ) (error : Option String)
    (result : String) (db db' : Db) (current s : Run)
    → find_run run_id db.runs ≡ some current
    → same_status current.status target ≡ false
    → transition_run m run_id target expected error result db ≡ ok (s, db')
    → Updated run_id db s db' × (s.status ≡ target)
unfolding transition_run
transition_run-Updated m run_id target expected error result db db' current s found other h =
    let class : Option String = if same_status target failed then some "workflow_error" else none in
    transition_workflow_run-Updated run_id expected (runtime_actor m) s db db' target
      current.flow_revision result class error (ground arith)
      (λ p q.
        let same : current ≡ p = ground arith in
        rw (← same) (live_of_not_terminal current.status (ground arith)))

pub transition_run-Advances :
    (m : Mode) (run_id : String) (target : Status) (expected : ℕ) (error : Option String)
    (result : String) (db db' : Db) (s : Run)
    → transition_run m run_id target expected error result db ≡ ok (s, db')
    → Advances db db' × (s.status ≡ target)
unfolding transition_run
transition_run-Advances m run_id target expected error result db db' s h =
    elim (Option-cases (find_run run_id db.runs)) [
      | inl missing ↦ absurd (ground arith)
      | inr (current, found) ↦ elim (Bool-cases (same_status current.status target)) [
        | inl same ↦
            let unchanged : db ≡ db' = ground arith in
            let row : current ≡ s = ground arith in
            (
              rw (← unchanged) (Advances-refl db),
              rw (← row) (same_status→eq current.status target same),
            )
        | inr other ↦
            let (u, status) =
              transition_run-Updated m run_id target expected error result db db' current s found
                other h in
            (Updated-Advances u, status)
      ]
    ]

module _ (m : Mode) (row : Run) (db db' : Db) (outcome : Replay) (s : Run) where
  classify-changes :
      (r : Run) (db'' : Db)
      → retry_workflow_run row.run_id row.record_version (runtime_actor m) db ≡ ok (r, db'')
      → classify_workflow_replay m row db ≡ ok ((outcome, s), db')
      → (db' ≡ db) ⊎ (db' ≡ db'')
  unfolding classify_workflow_replay
  classify-changes r db'' retry h = ground arith

  classify-refused :
      (e : Failure)
      → retry_workflow_run row.run_id row.record_version (runtime_actor m) db ≡ err e
      → classify_workflow_replay m row db ≡ ok ((outcome, s), db')
      → db' ≡ db
  unfolding classify_workflow_replay
  classify-refused e refused h = ground arith

  pub classify_workflow_replay-Advances :
      classify_workflow_replay m row db ≡ ok ((outcome, s), db') → Advances db db'
  classify_workflow_replay-Advances h =
      elim (Result-cases (retry_workflow_run row.run_id row.record_version (runtime_actor m) db)) [
        | inl ((r, db''), retry) ↦ elim (classify-changes r db'' retry h) [
          | inl same ↦ rw same (Advances-refl db)
          | inr moved ↦ rw moved (
              Updated-Advances (
                retry_workflow_run-Updated row.run_id row.record_version (runtime_actor m) r db db''
                  retry))
        ]
        | inr (e, refused) ↦ rw (classify-refused e refused h) (Advances-refl db)
      ]

-- A reply that is made from the outcome of a classification leaves the state as that left it.
module _ (m : Mode) (row : Run) (db db' : Db) (reply : Reply) (say : Replay → Run → Reply) where
  replied-Advances : answer_replay say m row db ≡ ok (reply, db') → Advances db db'
  unfolding answer_replay
  replied-Advances h = elim (Result-cases (classify_workflow_replay m row db)) [
    | inl (((outcome, s), d), classified) ↦
        let same : d ≡ db' = ground arith in
        rw (← same) (classify_workflow_replay-Advances m row db d outcome s classified)
    | inr (e, refused) ↦ absurd (ground arith)
  ]

module _ (m : Mode) (db db' : Db) (reply : Reply) where
  pub replay_start-Advances :
      (wanted : Run) → replay_start m wanted db ≡ ok (reply, db') → Advances db db'
  unfolding replay_start
  replay_start-Advances wanted h =
      elim (Option-cases (find_key wanted.workflow_id wanted.idempotency_key db.runs)) [
        | inl missing ↦ absurd (ground arith)
        | inr (existing, found) ↦
            replied-Advances m existing db db' reply
              (λ outcome s. workflow_started s outcome (not (is_completed outcome))) (ground arith)
      ]

  pub probe_run-Advances :
      (workflow key : String) (digest : Option String)
      → probe_run m workflow key digest db ≡ ok (reply, db')
      → Advances db db'
  unfolding probe_run
  probe_run-Advances workflow key digest h = elim (Option-cases (find_key workflow key db.runs)) [
    | inl missing ↦ let same : db ≡ db' = ground arith in rw (← same) (Advances-refl db)
    | inr (existing, found) ↦ elim (Bool-cases (lacks_digest digest existing.input_digest)) [
      | inl lacks ↦ let same : db ≡ db' = ground arith in rw (← same) (Advances-refl db)
      | inr has ↦
          replied-Advances m existing db db' reply (λ outcome s. replay_probed outcome (some s))
            (ground arith)
    ]
  ]

  pub reconcile_run-Advances :
      (workflow key reason : String)
      → reconcile_run m workflow key reason db ≡ ok (reply, db')
      → Advances db db'
  unfolding reconcile_run
  reconcile_run-Advances workflow key reason h =
      elim (Option-cases (find_key workflow key db.runs)) [
        | inl missing ↦ let same : db ≡ db' = ground arith in rw (← same) (Advances-refl db)
        | inr (current, found) ↦
            elim (Result-cases (
              transition_run m current.run_id failed current.record_version (some reason)
                (reconciled_result reason) db)) [
                  | inl ((s, d), moved) ↦
                      let here : (db' ≡ db) ⊎ (db' ≡ d) = ground arith in
                      elim here [
                        | inl same ↦ rw same (Advances-refl db)
                        | inr same ↦
                            rw same
                              (transition_run-Advances m current.run_id failed
                                current.record_version (some reason) (reconciled_result reason) db d
                                s moved).0
                      ]
                  | inr (e, refused) ↦
                      let same : db ≡ db' = ground arith in rw (← same) (Advances-refl db)
                ]
      ]

module _ (m : Mode) (db db' : Db) (reply : Reply) (row : Run) (expected : ℕ) (reason : String) where
  cancel_running-Advances :
      (terminal : Bool)
      → cancel_running m terminal row expected reason db ≡ ok (reply, db')
      → Advances db db'
  unfolding cancel_running
  cancel_running-Advances terminal h =
      elim (Result-cases
        (request_workflow_cancel row.run_id expected (runtime_actor m) reason db)) [
          | inl ((asked, d), requested) ↦
              let first : Advances db d = Updated-Advances (
                request_workflow_cancel-Updated row.run_id expected (runtime_actor m) asked db d
                  reason requested) in
              elim (Result-cases
                (transition_run m row.run_id cancelled asked.record_version (some reason) "{}" d)) [
                  | inl ((s, d2), ended) ↦
                      let there : (db' ≡ d) ⊎ (db' ≡ d2) = ground arith in
                      elim there [
                        | inl same ↦ rw same first
                        | inr same ↦ rw same (
                            Advances-trans first
                              (transition_run-Advances m row.run_id cancelled asked.record_version
                                (some reason) "{}" d d2 s ended).0)
                      ]
                  | inr (e, refused) ↦ let same : d ≡ db' = ground arith in rw (← same) first
                ]
          | inr (e, refused) ↦ absurd (ground arith)
        ]

  pub cancel_row-Advances :
      (terminal : Bool)
      → cancel_row m terminal row expected reason db ≡ ok (reply, db')
      → Advances db db'
  unfolding cancel_row
  cancel_row-Advances terminal h = elim (Bool-cases (status_in terminal_run_states row.status)) [
    | inl ended ↦ let same : db ≡ db' = ground arith in rw (← same) (Advances-refl db)
    | inr live ↦ elim (Bool-cases (status_in (started ∷ running ∷ []) row.status)) [
      | inl busy ↦ cancel_running-Advances terminal (ground arith)
      | inr idle ↦
          elim (Result-cases
            (transition_run m row.run_id cancelled expected (some reason) "{}" db)) [
              | inl ((s, d), ended) ↦
                  let same : d ≡ db' = ground arith in
                  rw (← same)
                    (transition_run-Advances m row.run_id cancelled expected (some reason) "{}" db d
                      s ended).0
              | inr (e, refused) ↦ absurd (ground arith)
            ]
    ]
  ]
