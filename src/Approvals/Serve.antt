-- ===== src/Approvals/Serve.antt =====
-- Sequences of approval commands, and how each changes the table of approvals.
use venture_capital_lead_res.Prelude.{
  ℕ, ◌≡◌, ap, inl, inr, String, Bool, true, false, Option, some, List, [], ◌∷◌, ◌++◌, find, any,
  leb, arith, Bool-cases, Option-cases,
}
use venture_capital_lead_res.Fail.{Result, ok, err, Result-cases, ok_of}
use venture_capital_lead_res.Json.{Fields, argument}
use venture_capital_lead_res.Validate.Checks.{require_text, parse_json_object}
use venture_capital_lead_res.Table.{Grows-append, Grows-update_first, update_first}
use venture_capital_lead_res.Approvals.Rows.{pending, approved, is_status, Approval, Ledger}
use venture_capital_lead_res.Approvals.Sql.{
  has_request, has_token, has_idempotency, insert_approval, update_approval, decided,
  decide_approval, spent, consume_approval, matches_action, issued_after,
}
use venture_capital_lead_res.Approvals.Handlers.{
  Keys, RequestArgs, DecideArgs, EraseArgs, Lane, approval_token_hash, requested, store_request,
  cmd_approval_request, cmd_approval_decide, cmd_data_erase_lead, given_or,
}
use venture_capital_lead_res.Approvals.Moves.{
  Moves, Moves-refl, Moves-decided, Begun, Evolves, Evolves-refl,
}

pub data Command : Type 0 where
  approval_request : RequestArgs → Command
  approval_decide : Lane → DecideArgs → Command
  approval_consume : Command
  data_erase_lead : EraseArgs → Command

-- The state behind a command; an error rolls its transaction back.
abbrev pub after {ℓ} : {A : Type ℓ} → Result (A × Ledger) → Ledger → Ledger
after (ok (reply, db')) db = db'
after (err e) db = db

unfoldable pub run_command : Keys → Command → Ledger → Ledger
run_command k (approval_request args) db = after (cmd_approval_request k args db) db
run_command k (approval_decide lane args) db = after (cmd_approval_decide lane args db) db
run_command k approval_consume db = db
run_command k (data_erase_lead args) db = after (cmd_data_erase_lead k args db) db

-- Each command has its own time.
unfoldable pub serve : Keys → Ledger → List (ℕ × Command) → Ledger
serve k db [] = db
serve k db ((now, c) ∷ rest) = serve k (run_command k c (record db { clock = now })) rest

insert_approval-Evolves :
    (new : Approval) (db db' : Ledger) (stored : Option Approval)
    → new.status ≡ pending
    → insert_approval new db ≡ ok (stored, db')
    → Evolves db.approvals db'.approvals
unfolding insert_approval
insert_approval-Evolves new db db' stored p h =
    elim (Bool-cases (any (has_idempotency new.idempotency_key) db.approvals)) [
      | inl held ↦
          let same : db'.approvals ≡ db.approvals = ground arith in
          rw same (Evolves-refl db.approvals)
      | inr fresh ↦
          let same : db'.approvals ≡ db.approvals ++ new ∷ [] = ground arith in
          rw same (Grows-append Moves Begun Moves-refl db.approvals new (new, p, Moves-refl new))
    ]

update_approval-Evolves :
    (p : Approval → Bool) (old new : Approval) (db db' : Ledger)
    → find p db.approvals ≡ some old
    → Moves old new
    → update_approval p old new db ≡ ok db'
    → Evolves db.approvals db'.approvals
unfolding update_approval
update_approval-Evolves p old new db db' f m h =
    let same : db'.approvals ≡ update_first p new db.approvals = ground arith in
    rw same (Grows-update_first Moves Begun Moves-refl p db.approvals old new f m)

pub requested-pending :
    (k : Keys) (args : RequestArgs) (scope : Fields) (payload_hash token_hash : String)
    (db : Ledger) (row : Approval)
    → requested k args scope payload_hash token_hash db ≡ ok row
    → row.status ≡ pending
unfolding requested
requested-pending k args scope payload_hash token_hash db row h = ground arith

store_request-Evolves :
    (row : Approval) (token : String) (db db' : Ledger) (reply : Approval × String)
    → row.status ≡ pending
    → store_request row token db ≡ ok (reply, db')
    → Evolves db.approvals db'.approvals
unfolding store_request
store_request-Evolves row token db db' reply p h = elim (Result-cases (insert_approval row db)) [
  | inl ((stored, next), inserted) ↦
      let same : db' ≡ next = ground arith in
      rw same (insert_approval-Evolves row db next stored p inserted)
  | inr (e, refused) ↦ absurd (ground arith)
]

pub cmd_approval_request-Evolves :
    (k : Keys) (args : RequestArgs) (db db' : Ledger) (reply : Approval × String)
    → cmd_approval_request k args db ≡ ok (reply, db')
    → Evolves db.approvals db'.approvals
unfolding cmd_approval_request
cmd_approval_request-Evolves k args db db' reply h =
    let (scope, parsed) = ok_of (parse_json_object args.scope) (λ e r. ground arith) in
    let (preview, shown) = ok_of (parse_json_object args.action_preview) (λ e r. ground arith) in
    let (token_hash, hashed) = ok_of (approval_token_hash k args.token) (λ e r. ground arith) in
    let payload_hash : String = given_or args.payload_hash (k.sha256_json preview) in
    let (row, made) =
      ok_of (requested k args scope payload_hash token_hash db) (λ e r. ground arith) in
    store_request-Evolves row args.token db db' reply
      (requested-pending k args scope payload_hash token_hash db row made) (ground arith)

decide_approval-Evolves :
    (request_id : String) (approve : Bool) (approver channel : String) (db db' : Ledger)
    (a : Approval)
    → decide_approval request_id approve approver channel db ≡ ok (a, db')
    → Evolves db.approvals db'.approvals
unfolding decide_approval
decide_approval-Evolves request_id approve approver channel db db' a h =
    elim (Option-cases (find (has_request request_id) db.approvals)) [
      | inl missed ↦ absurd (ground arith)
      | inr (prior, found) ↦
          let held : is_status prior.status pending ≡ true = ground arith in
          let new = decided db.clock approve approver channel prior in
          let updated : update_approval (has_request request_id) prior new db ≡ ok db' =
            ground arith in
          update_approval-Evolves (has_request request_id) prior new db db' found
            (Moves-decided db.clock approve approver channel prior held) updated
    ]

pub cmd_approval_decide-Evolves :
    (lane : Lane) (args : DecideArgs) (db db' : Ledger) (a : Approval)
    → cmd_approval_decide lane args db ≡ ok (a, db')
    → Evolves db.approvals db'.approvals
unfolding cmd_approval_decide
cmd_approval_decide-Evolves lane args db db' a h =
    let (approver, named) =
      ok_of (require_text (argument args.approver) 300) (λ e r. ground arith) in
    let (channel, reached) =
      ok_of (require_text (argument args.approval_channel) 300) (λ e r. ground arith) in
    decide_approval-Evolves args.request_id args.approve approver channel db db' a (ground arith)

-- What a permit that is spent was, and what the spending leaves.
pub record Consumed (token_hash scope_hash action target payload_hash transaction : String)
    (db db' : Ledger) (prior : Approval) : Type 0 where
  pub found : find (has_token token_hash) db.approvals ≡ some prior
  pub was_approved : is_status prior.status approved ≡ true
  pub was_issued : issued_after db.clock prior.issued_at ≡ false
  pub unexpired : leb prior.expires_at db.clock ≡ false
  pub matched : matches_action scope_hash action target payload_hash prior ≡ true
  pub rows :
      db'.approvals
      ≡ update_first (has_token token_hash) (spent db.clock transaction prior) db.approvals
  pub same_facts : db'.facts ≡ db.facts
  pub same_leads : db'.leads ≡ db.leads
  pub same_next : db'.next_fact ≡ db.next_fact

pub update_approval-rows :
    (p : Approval → Bool) (old new : Approval) (db db' : Ledger)
    → update_approval p old new db ≡ ok db'
    → db' ≡ record db { approvals = update_first p new db.approvals }
unfolding update_approval
update_approval-rows p old new db db' h = ground arith

pub consume_approval-Consumed :
    (token_hash scope_hash action target payload_hash transaction : String) (db db' : Ledger)
    (permit : Approval)
    → consume_approval token_hash scope_hash action target payload_hash transaction db
      ≡ ok (permit, db')
    → (prior : Approval) × Consumed token_hash scope_hash action target payload_hash transaction db
        db' prior
      × (permit ≡ spent db.clock transaction prior)
unfolding consume_approval
consume_approval-Consumed token_hash scope_hash action target payload_hash transaction db db' permit
      h =
    elim (Option-cases (find (has_token token_hash) db.approvals)) [
      | inl missed ↦ absurd (ground arith)
      | inr (prior, found) ↦
          let new = spent db.clock transaction prior in
          let updated : update_approval (has_token token_hash) prior new db ≡ ok db' =
            ground arith in
          let left = update_approval-rows (has_token token_hash) prior new db db' updated in
          (
            prior,
            record {
              found = found;
              was_approved = ground arith;
              was_issued = ground arith;
              unexpired = ground arith;
              matched = ground arith;
              rows = ap (λ (d : Ledger). d.approvals) left;
              same_facts = ap (λ (d : Ledger). d.facts) left;
              same_leads = ap (λ (d : Ledger). d.leads) left;
              same_next = ap (λ (d : Ledger). d.next_fact) left;
            },
            ground arith,
          )
    ]
