-- ===== src/Approvals/Erase.antt =====
-- The governed erasure of a lead: what it demands of the permit, what it leaves of the lead, and
-- that the permit is then spent for good.
use venture_capital_lead_res.Prelude.{
  ℕ, ◌≡◌, refl, ap, ◌∙◌, String, true, false, List, [], ◌∷◌, arith,
}
use venture_capital_lead_res.Fail.{Result, ok, err, ok_of}
use venture_capital_lead_res.Json.{argument}
use venture_capital_lead_res.Validate.Checks.{require_text}
use venture_capital_lead_res.Table.{Grows-update_first}
use venture_capital_lead_res.Approvals.Rows.{Approval, Ledger}
use venture_capital_lead_res.Approvals.Sql.{
  has_token, spent, consume_approval, erase_lead, consume_approval_and_erase_lead, names_lead,
  other_lead,
}
use venture_capital_lead_res.Approvals.Handlers.{
  Keys, EraseArgs, Erasure, erase_input, cmd_approval_request, cmd_approval_decide,
  cmd_data_erase_lead,
}
use venture_capital_lead_res.Approvals.Moves.{
  Moves, Moves-refl, Moves-spent, Begun, Evolves, Evolves-refl, Evolves-trans,
}
use venture_capital_lead_res.Approvals.Serve.{
  Command, approval_request, approval_decide, approval_consume, data_erase_lead, after, run_command,
  serve, Consumed, consume_approval-Consumed, cmd_approval_request-Evolves,
  cmd_approval_decide-Evolves,
}

pub erase_lead-approvals :
    (lead n : ℕ) (db db' : Ledger) → erase_lead lead db ≡ ok (n, db') → db'.approvals ≡ db.approvals
unfolding erase_lead
erase_lead-approvals lead n db db' h = ground arith

-- What a successful erasure has gone through: the checked arguments, the permit, and the state
-- between the consumption and the erasure.
pub record Erased (k : Keys) (args : EraseArgs) (db db' : Ledger) (n : ℕ) (e : Erasure)
    (target transaction : String) (prior : Approval) (between : Ledger) : Type 0 where
  pub input : erase_input k args ≡ ok e
  pub used :
      Consumed e.token_hash
        (k.sha256_json e.scope)
        "data.erase_lead"
        target
        e.payload_hash
        transaction
        db
        between
        prior
  pub named : names_lead k.sql_text k.decimal e.lead prior.scope ≡ true
  pub bound : other_lead e.lead prior.lead_id ≡ false
  pub rest : erase_lead e.lead between ≡ ok (n, db')

spent-scope : (now : ℕ) (t : String) (a : Approval) → (spent now t a).scope ≡ a.scope
unfolding spent
spent-scope now t a = refl

spent-lead_id : (now : ℕ) (t : String) (a : Approval) → (spent now t a).lead_id ≡ a.lead_id
unfolding spent
spent-lead_id now t a = refl

module _ (k : Keys) (args : EraseArgs) (db db' : Ledger) (n : ℕ) where
  pub consumed-Erased :
      (e : Erasure) (target transaction : String)
      → erase_input k args ≡ ok e
      → consume_approval_and_erase_lead k.sql_text k.decimal e.lead e.token_hash
          (k.sha256_json e.scope)
          "data.erase_lead"
          target
          e.payload_hash
          transaction
          db
        ≡ ok (n, db')
      → (prior : Approval) × (between : Ledger) × Erased k args db db' n e target transaction prior
          between
  unfolding consume_approval_and_erase_lead
  consumed-Erased e target transaction given h =
      let ((permit, between), used) =
        ok_of
          (consume_approval e.token_hash (k.sha256_json e.scope) "data.erase_lead" target
            e.payload_hash transaction db)
          (λ f r. ground arith) in
      let (prior, was, row) =
        consume_approval-Consumed e.token_hash (k.sha256_json e.scope) "data.erase_lead" target
          e.payload_hash transaction db between permit used in
      let scope : permit.scope ≡ prior.scope =
        ap (λ (a : Approval). a.scope) row ∙ spent-scope db.clock transaction prior in
      let lead : permit.lead_id ≡ prior.lead_id =
        ap (λ (a : Approval). a.lead_id) row ∙ spent-lead_id db.clock transaction prior in
      let named : names_lead k.sql_text k.decimal e.lead permit.scope ≡ true = ground arith in
      let bound : other_lead e.lead permit.lead_id ≡ false = ground arith in
      (
        prior,
        between,
        record {
          input = given;
          used = was;
          named = rw scope at named;
          bound = rw lead at bound;
          rest = ground arith;
        },
      )

  -- The steps of a successful erasure.
  pub cmd_data_erase_lead-Erased :
      cmd_data_erase_lead k args db ≡ ok (n, db')
      → (e : Erasure) × (target : String) × (transaction : String) × (prior : Approval)
        × (between : Ledger) × Erased k args db db' n e target transaction prior between
  unfolding cmd_data_erase_lead
  cmd_data_erase_lead-Erased h =
      let (e, given) = ok_of (erase_input k args) (λ f r. ground arith) in
      let (target, aimed) =
        ok_of (require_text (argument args.target_system) 200) (λ f r. ground arith) in
      let (transaction, keyed) =
        ok_of (require_text (argument args.transaction_id) 200) (λ f r. ground arith) in
      let (prior, between, erased) = consumed-Erased e target transaction given (ground arith) in
      (e, target, transaction, prior, between, erased)

  pub cmd_data_erase_lead-Evolves :
      cmd_data_erase_lead k args db ≡ ok (n, db') → Evolves db.approvals db'.approvals
  cmd_data_erase_lead-Evolves h =
      let (e, target, transaction, prior, between, erased) = cmd_data_erase_lead-Erased h in
      let kept = erase_lead-approvals e.lead n between db' erased.rest ∙ erased.used.rows in
      rw kept (
        Grows-update_first Moves Begun Moves-refl (has_token e.token_hash) db.approvals prior
          (spent db.clock transaction prior) erased.used.found
          (Moves-spent db.clock transaction prior erased.used.was_approved))

pub after-Evolves :
    {A : Type 0} (m : Result (A × Ledger)) (db : Ledger)
    → ((a : A) (db' : Ledger) → m ≡ ok (a, db') → Evolves db.approvals db'.approvals)
    → Evolves db.approvals (after m db).approvals
after-Evolves (ok (a, db')) db h = h a db' refl
after-Evolves (err e) db h = Evolves-refl db.approvals

pub run_command-Evolves :
    (k : Keys) (c : Command) (db : Ledger) → Evolves db.approvals (run_command k c db).approvals
unfolding run_command
run_command-Evolves k (approval_request args) db =
    after-Evolves (cmd_approval_request k args db) db
      (λ a db'. cmd_approval_request-Evolves k args db db' a)
run_command-Evolves k (approval_decide lane args) db =
    after-Evolves (cmd_approval_decide lane args db) db
      (λ a db'. cmd_approval_decide-Evolves lane args db db' a)
run_command-Evolves k approval_consume db = Evolves-refl db.approvals
run_command-Evolves k (data_erase_lead args) db =
    after-Evolves (cmd_data_erase_lead k args db) db
      (λ n db'. cmd_data_erase_lead-Evolves k args db db' n)

-- Whatever the script, each approval keeps its place, its request, its token, its scope, its action,
-- its target, its lead, its payload and its expiry; its status only moves forward along the edges of
-- the state machine; a row that is rejected, revoked, expired or consumed is never written again; and
-- each added row began as a pending one.
pub serve-Evolves :
    (k : Keys) (script : List (ℕ × Command)) (db : Ledger)
    → Evolves db.approvals (serve k db script).approvals
unfolding serve
serve-Evolves k [] db = Evolves-refl db.approvals
serve-Evolves k ((now, c) ∷ rest) db =
    Evolves-trans db.approvals (run_command k c (record db { clock = now })).approvals
      (serve k db ((now, c) ∷ rest)).approvals (run_command-Evolves k c (record db { clock = now }))
      (serve-Evolves k rest (run_command k c (record db { clock = now })))
