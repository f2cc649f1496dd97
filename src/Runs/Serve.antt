-- ===== src/Runs/Serve.antt =====
-- The workflow commands as one type, and a database that serves any sequence of them.
use mathlib.Core.List.{append-nil}
use venture_capital_lead_res.Prelude.{
  ℕ, String, ◌≡◌, refl, sym, ◌∙◌, inl, inr, Bool, Option, none, some, List, [], ◌∷◌, ◌++◌, arith,
  Option-cases,
}
use venture_capital_lead_res.Fail.{Result, ok, err, ok_of, Result-cases}
use venture_capital_lead_res.Runs.Status.{Status}
use venture_capital_lead_res.Runs.Rows.{Run, Db, find_run, find_key}
use venture_capital_lead_res.Runs.Insert.{queued_run, insert_run}
use venture_capital_lead_res.Runs.Commands.{Mode, Reply, transition_run}
use venture_capital_lead_res.Runs.Handlers.{
  Digests, StartArgs, StartInput, start_input, requested_run, open_run, cmd_workflow_start,
  fixed_request, cmd_workflow_replay_probe, cmd_workflow_transition, cmd_workflow_reconcile_failure,
  cmd_workflow_cancel,
}
use venture_capital_lead_res.Validate.Checks.{Loaded, parse_json_object, require_input_digest}
use venture_capital_lead_res.Runs.Evolution.{IsFresh, Evolves-append}
use venture_capital_lead_res.Runs.Distinct.{IsDistinct-append}
use venture_capital_lead_res.Runs.Edges.{is_none}
use venture_capital_lead_res.Runs.Advance.{Advances}
use venture_capital_lead_res.Runs.Handled.{
  transition_run-Advances, replay_start-Advances, probe_run-Advances, reconcile_run-Advances,
  cancel_row-Advances,
}

pub data Command : Type 0 where
  workflow_start : StartArgs → Command
  workflow_replay_probe : Option String → Option String → Option String → Command
  workflow_transition : String → Status → ℕ → Option String → Loaded → Command
  workflow_reconcile_failure : Option String → Option String → String → Command
  workflow_cancel : String → ℕ → String → Bool → Option String → Command

unfoldable pub execute : Digests → Mode → Command → Db → Result (Reply × Db)
execute d m (workflow_start args) db = cmd_workflow_start d m args db
execute d m (workflow_replay_probe workflow key digest) db =
    cmd_workflow_replay_probe m workflow key digest db
execute d m (workflow_transition run_id target expected error result) db =
    cmd_workflow_transition d m run_id target expected error result db
execute d m (workflow_reconcile_failure workflow key reason) db =
    cmd_workflow_reconcile_failure m workflow key reason db
execute d m (workflow_cancel run_id expected reason terminal workflow) db =
    cmd_workflow_cancel m run_id expected reason terminal workflow db

-- Each command is its own process and transaction; the clock of the next one is given with it.
abbrev pub after : Result (Reply × Db) → Db → Db
after (ok (reply, db')) db = db'
after (err e) db = db

unfoldable pub serve : Digests → Db → List (Mode × ℕ × Command) → Db
serve d db [] = db
serve d db ((m, now, c) ∷ rest) =
    serve d (after (execute d m c (record db { clock = now })) (record db { clock = now })) rest

requested_run-IsFresh :
    (d : Digests) (args : StartArgs) (i : StartInput) → IsFresh (requested_run d args i)
unfolding requested_run queued_run
requested_run-IsFresh d args i = ground arith

module _ (m : Mode) (db db' : Db) (reply : Reply) where
  insert_run-none : (r : Run) (d : Db) → insert_run r db ≡ ok (none, d) → d ≡ db
  unfolding insert_run
  insert_run-none r d h = ground arith

  insert_run-some :
      (r s : Run) (d : Db)
      → insert_run r db ≡ ok (some s, d)
      → d ≡ record db { runs = db.runs ++ r ∷ [] }
  unfolding insert_run
  insert_run-some r s d h = ground arith

  insert_run-free :
      (r s : Run) (d : Db)
      → insert_run r db ≡ ok (some s, d)
      → (find_run r.run_id db.runs ≡ none)
        × (find_key r.workflow_id r.idempotency_key db.runs ≡ none)
  unfolding insert_run
  insert_run-free r s d h = (
    is_none (find_run r.run_id db.runs) (ground arith),
    is_none (find_key r.workflow_id r.idempotency_key db.runs) (ground arith),
  )

  appended :
      (r s : Run) (d : Db)
      → IsFresh r
      → insert_run r db ≡ ok (some s, d)
      → Advances db (record db { runs = db.runs ++ r ∷ [] })
  appended r s d fresh done = record {
    rows = Evolves-append db.runs r fresh;
    added = [];
    audit = sym (append-nil db.audit_events);
    leads = refl;
    companies = refl;
    distinct =
        λ h. let (ids, keys) = insert_run-free r s d done in IsDistinct-append db.runs r ids keys h;
  }

  open_run-Advances :
      (wanted : Run) → IsFresh wanted → open_run m wanted db ≡ ok (reply, db') → Advances db db'
  unfolding open_run
  open_run-Advances wanted fresh h = elim (Result-cases (insert_run wanted db)) [
    | inl ((none, d), done) ↦
        let same : d ≡ db = insert_run-none wanted d done in rw same at (first d done)
    | inl ((some s, d), done) ↦
        let same : db' ≡ record db { runs = db.runs ++ wanted ∷ [] } =
          last s d done ∙ insert_run-some wanted s d done in
        rw same (appended wanted s d fresh done)
    | inr (e, refused) ↦ absurd (ground arith)
  ]
    where
      first : (d : Db) → insert_run wanted db ≡ ok (none, d) → Advances d db'
      first d done = replay_start-Advances m d db' reply wanted (ground arith)

      last : (s : Run) (d : Db) → insert_run wanted db ≡ ok (some s, d) → db' ≡ d
      last s d done = ground arith

  start-Advances :
      (d : Digests) (args : StartArgs)
      → cmd_workflow_start d m args db ≡ ok (reply, db')
      → Advances db db'
  unfolding cmd_workflow_start
  start-Advances d args h = elim (Result-cases (start_input m args db)) [
    | inl (i, checked) ↦
        open_run-Advances (requested_run d args i) (requested_run-IsFresh d args i) (ground arith)
    | inr (e, refused) ↦ absurd (ground arith)
  ]

  probe-Advances :
      (workflow key digest : Option String)
      → cmd_workflow_replay_probe m workflow key digest db ≡ ok (reply, db')
      → Advances db db'
  unfolding cmd_workflow_replay_probe
  probe-Advances workflow key digest h = elim (Result-cases (fixed_request workflow key)) [
    | inl ((name, k), checked) ↦ elim (Result-cases (require_input_digest digest)) [
      | inl (dg, read) ↦ probe_run-Advances m db db' reply name k dg (ground arith)
      | inr (e, refused) ↦ absurd (ground arith)
    ]
    | inr (e, refused) ↦ absurd (ground arith)
  ]

  transition-Advances :
      (digests : Digests) (run_id : String) (target : Status) (expected : ℕ) (error : Option String)
      (result : Loaded)
      → cmd_workflow_transition digests m run_id target expected error result db ≡ ok (reply, db')
      → Advances db db'
  unfolding cmd_workflow_transition
  transition-Advances digests run_id target expected error result h =
      let (fields, read) = ok_of (parse_json_object result) (λ e r. ground arith) in
      let text = digests.db_json fields in
      let ((s, d), moved) =
        ok_of (transition_run m run_id target expected error text db) (λ e r. ground arith) in
      let same : d ≡ db' = ground arith in
      rw (← same) (transition_run-Advances m run_id target expected error text db d s moved).0

  reconcile-Advances :
      (workflow key : Option String) (reason : String)
      → cmd_workflow_reconcile_failure m workflow key reason db ≡ ok (reply, db')
      → Advances db db'
  unfolding cmd_workflow_reconcile_failure
  reconcile-Advances workflow key reason h = elim (Result-cases (fixed_request workflow key)) [
    | inl ((name, k), checked) ↦ reconcile_run-Advances m db db' reply name k reason (ground arith)
    | inr (e, refused) ↦ absurd (ground arith)
  ]

  cancel-Advances :
      (run_id : String) (expected : ℕ) (reason : String) (terminal : Bool)
      (workflow : Option String)
      → cmd_workflow_cancel m run_id expected reason terminal workflow db ≡ ok (reply, db')
      → Advances db db'
  unfolding cmd_workflow_cancel
  cancel-Advances run_id expected reason terminal workflow h =
      elim (Option-cases (find_run run_id db.runs)) [
        | inl missing ↦ absurd (ground arith)
        | inr (row, found) ↦
            cancel_row-Advances m db db' reply row expected reason terminal (ground arith)
      ]

  -- A successful command advances the state.
  pub execute-Advances :
      (d : Digests) (c : Command) → execute d m c db ≡ ok (reply, db') → Advances db db'
  unfolding execute
  execute-Advances d (workflow_start args) h = start-Advances d args h
  execute-Advances d (workflow_replay_probe workflow key digest) h =
      probe-Advances workflow key digest h
  execute-Advances d (workflow_transition run_id target expected error result) h =
      transition-Advances d run_id target expected error result h
  execute-Advances d (workflow_reconcile_failure workflow key reason) h =
      reconcile-Advances workflow key reason h
  execute-Advances d (workflow_cancel run_id expected reason terminal workflow) h =
      cancel-Advances run_id expected reason terminal workflow h
