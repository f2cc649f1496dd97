-- ===== src/Runs/Advance.antt =====
-- How the whole state may change in one transaction, and look-ups in a table that has changed.
use venture_capital_lead_res.Prelude.{
  String, ◌≡◌, refl, sym, ap, ◌∙◌, inl, inr, true, false, some, List, [], ◌∷◌, ◌++◌, arith,
  Bool-cases,
}
use mathlib.Core.List.{append-nil, append_assoc}
use venture_capital_lead_res.Runs.Status.{status_in}
use venture_capital_lead_res.Runs.Rows.{Run, AuditEvent, Db, has_run_id, find_run}
use venture_capital_lead_res.Runs.Edges.{settled_states}
use venture_capital_lead_res.Runs.Evolution.{
  Reaches, here, next, Evolves, Evolves-refl, Evolves-trans, Evolves-replace_run,
}
use venture_capital_lead_res.Runs.Distinct.{IsDistinct, IsDistinct-replace_run}
use venture_capital_lead_res.Runs.Updates.{Updated}

pub record Advances (db db' : Db) : Type 0 where
  pub rows : Evolves db.runs db'.runs
  pub added : List AuditEvent
  pub audit : db'.audit_events ≡ db.audit_events ++ added
  pub leads : db'.leads ≡ db.leads
  pub companies : db'.companies ≡ db.companies
  pub distinct : IsDistinct db.runs → IsDistinct db'.runs

pub Advances-refl : (db : Db) → Advances db db
Advances-refl db = record {
  rows = Evolves-refl db.runs;
  added = [];
  audit = sym (append-nil db.audit_events);
  leads = refl;
  companies = refl;
  distinct = λ h. h;
}

pub Advances-trans : {a b c : Db} → Advances a b → Advances b c → Advances a c
Advances-trans {a} {b} {c} p q = record {
  rows = Evolves-trans a.runs b.runs c.runs p.rows q.rows;
  added = p.added ++ q.added;
  audit = q.audit ∙ ap (λ es. es ++ q.added) p.audit ∙ append_assoc a.audit_events p.added q.added;
  leads = q.leads ∙ p.leads;
  companies = q.companies ∙ p.companies;
  distinct = λ h. q.distinct (p.distinct h);
}

pub Updated-Advances :
    {run_id : String} {db : Db} {s : Run} {db' : Db} → Updated run_id db s db' → Advances db db'
Updated-Advances {run_id} {db} {s} {db'} u = record {
  rows = rw u.runs (Evolves-replace_run run_id db.runs u.prior s u.found u.step);
  added = u.event ∷ [];
  audit = u.audit;
  leads = u.leads;
  companies = u.companies;
  distinct =
      λ h. rw u.runs (IsDistinct-replace_run run_id s db.runs u.prior u.found u.step.request h);
}

Reaches-run_id : {r s : Run} → Reaches r s → r.run_id ≡ s.run_id
Reaches-run_id here = refl
Reaches-run_id (next p st) = Reaches-run_id p ∙ st.request.run_id

-- A settled row has no step to make.
pub Reaches-settled : {r s : Run} → status_in settled_states r.status ≡ true → Reaches r s → s ≡ r
Reaches-settled settled here = refl
Reaches-settled {r} settled (next {s = q} p st) =
    let same : q ≡ r = Reaches-settled settled p in
    let live : status_in settled_states r.status ≡ false = rw same at st.live in cc

-- A look-up by run id finds the same row later, with the contents that it has reached.
pub find_run-Evolves :
    (run_id : String) (rs ss : List Run) (r : Run)
    → Evolves rs ss
    → find_run run_id rs ≡ some r
    → (s : Run) × (find_run run_id ss ≡ some s) × Reaches r s
unfolding find_run
find_run-Evolves run_id [] ss r e h = cc
find_run-Evolves run_id (q ∷ rs) [] r e h = absurd e
find_run-Evolves run_id (q ∷ rs) (t ∷ ss) r (p, e) h = elim (Bool-cases (has_run_id run_id q)) [
  | inl this ↦
      let same : q ≡ r = ground arith in
      let that : has_run_id run_id t ≡ true = rw (Reaches-run_id p) at this in
      (t, rw that refl, rw same at p)
  | inr other ↦
      let that : has_run_id run_id t ≡ false = rw (Reaches-run_id p) at other in
      let (s, found, reached) = find_run-Evolves run_id rs ss r e (ground arith) in
      (s, rw that found, reached)
]
