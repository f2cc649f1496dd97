-- ===== src/Runs/Lineage.antt =====
-- The lineage of a start and the trigger `guard_workflow_lineage` agree, but for a lead without company.
use venture_capital_lead_res.Prelude.{
  ℕ, not, ◌&&◌, member, ◌≡◌, ap, ◌∙◌, ◌⊎◌, Option, refl, inl, inr, none, some, arith,
}
use venture_capital_lead_res.Fail.{Result, ok, err, sqlstate, vcops_error, refuse_if, ◌>>=◌}
use venture_capital_lead_res.Json.{argument}
use venture_capital_lead_res.Validate.Checks.{parse_json_object, require_input_digest, require_text}
use venture_capital_lead_res.Runs.Rows.{Run, Db, lead_company}
use venture_capital_lead_res.Runs.Insert.{guard_workflow_lineage, queued_run}
use venture_capital_lead_res.Runs.Commands.{Mode, fixed_workflow_ids}
use venture_capital_lead_res.Runs.Handlers.{
  Digests, StartArgs, StartInput, start_input, run_lineage, requested_run,
}

-- The lineage trigger passes the lineage of a start, unless the lead has no company.
run_lineage-cases :
    (lead asked company : Option ℕ) (db : Db) (r : Run)
    → r.lead_id ≡ lead
    → r.company_id ≡ company
    → run_lineage lead asked db ≡ ok company
    → (guard_workflow_lineage r db ≡ ok tt)
      ⊎ ((l : ℕ) × (r.lead_id ≡ some l)
          × (lead_company l db.leads ≡ some none)
          × (guard_workflow_lineage r db ≡ err (sqlstate "23514")))
unfolding run_lineage guard_workflow_lineage
run_lineage-cases none asked company db r p q h = inl (rw p refl)
run_lineage-cases (some l) asked company db r p q h = by_owner (lead_company l db.leads) refl
  where
    by_owner :
        (found : Option (Option ℕ))
        → lead_company l db.leads ≡ found
        → (guard_workflow_lineage r db ≡ ok tt)
          ⊎ ((l : ℕ) × (r.lead_id ≡ some l)
              × (lead_company l db.leads ≡ some none)
              × (guard_workflow_lineage r db ≡ err (sqlstate "23514")))
    by_owner none e = absurd (ground arith)
    by_owner (some none) e = inr (l, p, e, ground arith)
    by_owner (some (some owner)) e =
        let same : company ≡ some owner = ground arith in inl (ground arith)

bind-ok {ℓ κ} :
    {A : Type ℓ} {B : Type κ} (m : Result A) (f : A → Result B) (b : B)
    → (m >>= f) ≡ ok b
    → (a : A) × (m ≡ ok a) × (f a ≡ ok b)
bind-ok (ok a) f b h = (a, refl, h)
bind-ok (err e) f b h = absurd (cc h)

abbrev company_or : Option ℕ → Result StartInput → Result (Option ℕ)
company_or company (ok i) = ok i.company
company_or company (err e) = ok company

start_input-lineage :
    (m : Mode) (args : StartArgs) (i : StartInput) (db : Db)
    → start_input m args db ≡ ok i
    → run_lineage args.lead_id args.company_id db ≡ ok i.company
unfolding start_input
start_input-lineage m args i db h =
    let (metadata, one, behind_metadata) = bind-ok (parse_json_object args.metadata) _ i h in
    let (digest, two, behind_digest) =
      bind-ok (require_input_digest args.input_digest) _ i behind_metadata in
    let (company, read, rest) =
      bind-ok (run_lineage args.lead_id args.company_id db) _ i behind_digest in
    let (workflow, three, behind_workflow) =
      bind-ok (require_text (argument args.workflow) 200) _ i rest in
    let (u, four, behind_mode) =
      bind-ok
        (refuse_if (m.workflow_mode && not (member workflow fixed_workflow_ids))
          (vcops_error "unsupported_workflow" 2))
        _ i behind_workflow in
    let (key, five, last) =
      bind-ok (require_text (argument args.idempotency_key) 300) _ i behind_mode in
    read ∙ ap (company_or company) last

pub start-lineage :
    (d : Digests) (m : Mode) (args : StartArgs) (i : StartInput) (db : Db)
    → start_input m args db ≡ ok i
    → (guard_workflow_lineage (requested_run d args i) db ≡ ok tt)
      ⊎ ((l : ℕ) × ((requested_run d args i).lead_id ≡ some l)
          × (lead_company l db.leads ≡ some none)
          × (guard_workflow_lineage (requested_run d args i) db ≡ err (sqlstate "23514")))
unfolding requested_run queued_run
start-lineage d m args i db h =
    run_lineage-cases args.lead_id args.company_id i.company db (requested_run d args i) refl refl
      (start_input-lineage m args i db h)
