-- ===== src/Runs/Lifecycle.antt =====
-- What any sequence of workflow commands, failing or not, does to a run.
use venture_capital_lead_res.Prelude.{
  ℕ, ◌+◌, ◌≤◌, String, ◌≡◌, refl, ap, ◌∙◌, ◌⊎◌, inl, inr, true, some, List, [], ◌∷◌, arith, is_some,
}
use venture_capital_lead_res.Fail.{Result-cases}
use venture_capital_lead_res.Runs.Status.{status_in}
use venture_capital_lead_res.Runs.Rows.{Run, Db, find_run}
use venture_capital_lead_res.Runs.Commands.{Mode}
use venture_capital_lead_res.Runs.Handlers.{Digests}
use venture_capital_lead_res.Runs.Edges.{SameRequest, settled_states}
use venture_capital_lead_res.Runs.Evolution.{Reaches, here, next}
use venture_capital_lead_res.Runs.Updates.{SameRequest-refl}
use venture_capital_lead_res.Runs.Advance.{
  Advances, Advances-refl, Advances-trans, Reaches-settled, find_run-Evolves,
}
use venture_capital_lead_res.Runs.Serve.{Command, execute, after, serve, execute-Advances}

abbrev at_time : ℕ → Db → Db
at_time now db = record db { clock = now }

tick-Advances : (now : ℕ) (db : Db) → Advances db (at_time now db)
tick-Advances now db =
    let same : Advances db db = Advances-refl db in
    record {
      rows = same.rows;
      added = same.added;
      audit = same.audit;
      leads = refl;
      companies = refl;
      distinct = same.distinct;
    }

after-Advances :
    (d : Digests) (m : Mode) (c : Command) (db : Db) → Advances db (after (execute d m c db) db)
after-Advances d m c db = elim (Result-cases (execute d m c db)) [
  | inl ((reply, db'), done) ↦ rw done (execute-Advances m db db' reply d c done)
  | inr (e, refused) ↦ rw refused (Advances-refl db)
]

-- After any sequence of workflow commands, whether each succeeds or is refused, every row of the
-- table stands at its place with contents that it reached by legal steps (edges of the trigger's
-- table or the governed retry, from rows that are not settled, with the record version raised by
-- one and the request columns unchanged), every further row began as a queued run, the audit
-- trail was only extended, and leads and companies are unchanged.
pub serve-Advances :
    (d : Digests) (db : Db) (script : List (Mode × ℕ × Command)) → Advances db (serve d db script)
unfolding serve
serve-Advances d db [] = Advances-refl db
serve-Advances d db ((m, now, c) ∷ rest) =
    let start = at_time now db in
    Advances-trans (tick-Advances now db) (
      Advances-trans (after-Advances d m c start)
        (serve-Advances d (after (execute d m c start) start) rest))

-- A run that has succeeded, was cancelled or is lost has the same row after any sequence of
-- workflow commands: no command, in any mode, changes one of its columns.
pub settled_forever :
    (d : Digests) (db : Db) (script : List (Mode × ℕ × Command)) (run_id : String) (r : Run)
    → find_run run_id db.runs ≡ some r
    → status_in settled_states r.status ≡ true
    → find_run run_id (serve d db script).runs ≡ some r
settled_forever d db script run_id r found settled =
    let (s, later, reached) =
      find_run-Evolves run_id db.runs (serve d db script).runs r (serve-Advances d db script).rows
        found in
    later ∙ ap some (Reaches-settled settled reached)

-- What a run keeps along its whole life.
pub record Continues (r s : Run) : Type 0 where
  pub request : SameRequest r s
  pub version : r.record_version ≤ s.record_version
  pub revision : r.flow_revision ≤ s.flow_revision
  pub attempt : r.attempt ≤ s.attempt
  pub cancel : is_some r.cancel_requested_at ≡ true → is_some s.cancel_requested_at ≡ true
  pub changed : (s ≡ r) ⊎ (r.record_version + 1 ≤ s.record_version)

Reaches-Continues : {r s : Run} → Reaches r s → Continues r s
Reaches-Continues here = record {
  request = SameRequest-refl _;
  version = omega arith;
  revision = omega arith;
  attempt = omega arith;
  cancel = λ c. c;
  changed = inl refl;
}
Reaches-Continues {r} {s} (next {s = q} p st) =
    let c : Continues r q = Reaches-Continues p in
    record {
      request = record {
        run_id = c.request.run_id ∙ st.request.run_id;
        workflow_id = c.request.workflow_id ∙ st.request.workflow_id;
        idempotency_key = c.request.idempotency_key ∙ st.request.idempotency_key;
        input_hash = c.request.input_hash ∙ st.request.input_hash;
        input_digest = c.request.input_digest ∙ st.request.input_digest;
      };
      version = omega (arith, c.version, st.version);
      revision = omega (arith, c.revision, st.revision);
      attempt = omega (arith, c.attempt, st.attempt);
      cancel = λ h. st.cancel_kept (c.cancel h);
      changed = inr (omega (arith, c.version, st.version));
    }

-- A run that is in the table is there after any sequence of workflow commands under the same run
-- id, with its request columns (workflow, key, input hash and digest) unchanged, with no counter
-- lower, with a cancellation request kept, and unchanged as a whole unless its record version rose.
pub serve-Continues :
    (d : Digests) (db : Db) (script : List (Mode × ℕ × Command)) (run_id : String) (r : Run)
    → find_run run_id db.runs ≡ some r
    → (s : Run) × (find_run run_id (serve d db script).runs ≡ some s) × Continues r s
serve-Continues d db script run_id r found =
    let (s, later, reached) =
      find_run-Evolves run_id db.runs (serve d db script).runs r (serve-Advances d db script).rows
        found in
    (s, later, Reaches-Continues reached)
