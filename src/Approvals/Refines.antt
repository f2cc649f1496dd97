-- ===== src/Approvals/Refines.antt =====
-- The approval commands implement the permits of the specification.
use venture_capital_lead_res.Prelude.{
  ℕ, ◌≡◌, refl, ap, ◌∙◌, inl, inr, String, Bool, true, false, List, [], ◌∷◌, ◌++◌, map, find, any,
  ltb, arith, Option-cases, if◌then◌else◌,
}
use venture_capital_lead_res.Fail.{Result, ok, err, ok_of}
use venture_capital_lead_res.Json.{Fields, argument}
use venture_capital_lead_res.Validate.Checks.{require_text, parse_json_object}
use venture_capital_lead_res.Approvals.Rows.{
  ApprovalStatus, pending, approved, rejected, revoked, expired, consumed, is_status, Approval,
  Ledger,
}
use venture_capital_lead_res.Approvals.Sql.{
  has_request, has_token, approval_checks, insert_approval, update_approval, decided,
  decide_approval, spent,
}
use venture_capital_lead_res.Approvals.Handlers.{
  Keys, RequestArgs, DecideArgs, EraseArgs, Lane, approval_token_hash, given_or, requested,
  store_request, cmd_approval_request, cmd_approval_decide, cmd_data_erase_lead,
}
use venture_capital_lead_res.Approvals.Serve.{
  Command, approval_request, approval_decide, approval_consume, data_erase_lead, after, run_command,
  serve, requested-pending, update_approval-rows,
}
use venture_capital_lead_res.Approvals.Erase.{cmd_data_erase_lead-Erased, erase_lead-approvals}
use venture_capital_lead_res.Approvals.Permits.{
  PermitState, waiting, granted, refused, used, Permit, for_request, for_token, PermitStep, idle,
  ask, answer, spend, PermitSteps, done, next, any-map, find-map, map-update_first, map-append,
}

abbrev state_of : ApprovalStatus → PermitState
state_of pending = waiting
state_of approved = granted
state_of consumed = used
state_of rejected = refused
state_of revoked = refused
state_of expired = refused

abbrev permit_of : Approval → Permit
permit_of a = record {
  request_id = a.request_id;
  token_hash = a.token_hash;
  expires_at = a.expires_at;
  state = state_of a.status;
}

abbrev pub permits : Ledger → List Permit
permits db = map permit_of db.approvals

for_request-permit_of :
    (id : String) (a : Approval) → for_request id (permit_of a) ≡ has_request id a
for_request-permit_of id a = refl

for_token-permit_of : (h : String) (a : Approval) → for_token h (permit_of a) ≡ has_token h a
for_token-permit_of h a = refl

pending-state : (a : Approval) → is_status a.status pending ≡ true → (permit_of a).state ≡ waiting
unfolding is_status
pending-state a h = ground arith

approved-state : (a : Approval) → is_status a.status approved ≡ true → (permit_of a).state ≡ granted
unfolding is_status
approved-state a h = ground arith

permit_of-decided :
    (now : ℕ) (approve : Bool) (approver channel : String) (a : Approval)
    → permit_of (decided now approve approver channel a)
      ≡ record (permit_of a) { state = if approve then granted else refused }
unfolding decided
permit_of-decided now true approver channel a = refl
permit_of-decided now false approver channel a = refl

permit_of-spent :
    (now : ℕ) (t : String) (a : Approval)
    → permit_of (spent now t a) ≡ record (permit_of a) { state = used }
unfolding spent
permit_of-spent now t a = refl

permit_of-expires :
    (a : Approval) (now : ℕ) → ltb now a.expires_at ≡ true → ltb now (permit_of a).expires_at ≡ true
permit_of-expires a now h = h

-- A stored request: it was fresh, and is the one row more.
store_request-fresh :
    (row : Approval) (token : String) (db db' : Ledger) (reply : Approval × String)
    → store_request row token db ≡ ok (reply, db')
    → (db'.approvals ≡ db.approvals ++ row ∷ [])
      × (any (has_request row.request_id) db.approvals ≡ false)
      × (any (has_token row.token_hash) db.approvals ≡ false)
      × (ltb row.requested_at row.expires_at ≡ true)
unfolding store_request insert_approval approval_checks
store_request-fresh row token db db' reply h =
    (ground arith, ground arith, ground arith, ground arith)

store_request-Step :
    (row : Approval) (token : String) (db db' : Ledger) (reply : Approval × String)
    → row.status ≡ pending
    → row.requested_at ≡ db.clock
    → store_request row token db ≡ ok (reply, db')
    → PermitStep db.clock (permits db) (permits db')
unfolding is_status
store_request-Step row token db db' reply p at h =
    let (rows, fresh_request, fresh_token, expires) =
      store_request-fresh row token db db' reply h in
    let id = row.request_id in
    let hash = row.token_hash in
    let new : permits db' ≡ permits db ++ permit_of row ∷ [] =
      ap (map permit_of) rows ∙ map-append permit_of db.approvals row in
    rw new (
      ask (permit_of row) (pending-state row (ap (λ s. is_status s pending) p))
        (permit_of-expires row db.clock (ground arith))
        (any-map permit_of (has_request id) (for_request id) (for_request-permit_of id) db.approvals
          ∙ fresh_request)
        (any-map permit_of (has_token hash) (for_token hash) (for_token-permit_of hash) db.approvals
          ∙ fresh_token))

-- A row's approval or use, where the guards let it through.
answered-Step :
    (id : String) (approve : Bool) (approver channel : String) (db db' : Ledger) (a : Approval)
    → decide_approval id approve approver channel db ≡ ok (a, db')
    → PermitStep db.clock (permits db) (permits db')
unfolding decide_approval
answered-Step id approve approver channel db db' a h =
    elim (Option-cases (find (has_request id) db.approvals)) [
      | inl missed ↦ absurd (ground arith)
      | inr (prior, found) ↦
          let held : is_status prior.status pending ≡ true = ground arith in
          let live : ltb db.clock prior.expires_at ≡ true = ground arith in
          let new = decided db.clock approve approver channel prior in
          let updated : update_approval (has_request id) prior new db ≡ ok db' = ground arith in
          let rows =
            ap (λ (d : Ledger). d.approvals)
              (update_approval-rows (has_request id) prior new db db' updated) in
          let seen =
            map-update_first permit_of (has_request id) (for_request id) (for_request-permit_of id)
              new db.approvals in
          rw (rows, seen, permit_of-decided db.clock approve approver channel prior)
            (answer id (permit_of prior) approve
              (find-map permit_of (has_request id) (for_request id) (for_request-permit_of id)
                db.approvals prior found)
              (pending-state prior held) live)
    ]

cmd_approval_decide-Step :
    (lane : Lane) (args : DecideArgs) (db db' : Ledger) (a : Approval)
    → cmd_approval_decide lane args db ≡ ok (a, db')
    → PermitStep db.clock (permits db) (permits db')
unfolding cmd_approval_decide
cmd_approval_decide-Step lane args db db' a h =
    let (approver, named) =
      ok_of (require_text (argument args.approver) 300) (λ e r. ground arith) in
    let (channel, reached) =
      ok_of (require_text (argument args.approval_channel) 300) (λ e r. ground arith) in
    answered-Step args.request_id args.approve approver channel db db' a (ground arith)

cmd_data_erase_lead-Step :
    (k : Keys) (args : EraseArgs) (db db' : Ledger) (n : ℕ)
    → cmd_data_erase_lead k args db ≡ ok (n, db')
    → PermitStep db.clock (permits db) (permits db')
cmd_data_erase_lead-Step k args db db' n h =
    let (e, target, transaction, prior, between, was) =
      cmd_data_erase_lead-Erased k args db db' n h in
    let hash = e.token_hash in
    let new = spent db.clock transaction prior in
    let rows = erase_lead-approvals e.lead n between db' was.rest ∙ was.used.rows in
    let seen =
      map-update_first permit_of (has_token hash) (for_token hash) (for_token-permit_of hash) new
        db.approvals in
    rw (rows, seen, permit_of-spent db.clock transaction prior)
      (spend hash (permit_of prior)
        (find-map permit_of (has_token hash) (for_token hash) (for_token-permit_of hash)
          db.approvals prior was.used.found)
        (approved-state prior was.used.was_approved) (ground (arith, was.used.unexpired)))

requested-row :
    (k : Keys) (args : RequestArgs) (scope : Fields) (payload_hash token_hash : String)
    (db : Ledger) (row : Approval)
    → requested k args scope payload_hash token_hash db ≡ ok row
    → row.requested_at ≡ db.clock
unfolding requested
requested-row k args scope payload_hash token_hash db row h = ground arith

cmd_approval_request-Step :
    (k : Keys) (args : RequestArgs) (db db' : Ledger) (reply : Approval × String)
    → cmd_approval_request k args db ≡ ok (reply, db')
    → PermitStep db.clock (permits db) (permits db')
unfolding cmd_approval_request
cmd_approval_request-Step k args db db' reply h =
    let (scope, parsed) = ok_of (parse_json_object args.scope) (λ e r. ground arith) in
    let (preview, shown) = ok_of (parse_json_object args.action_preview) (λ e r. ground arith) in
    let (token_hash, hashed) = ok_of (approval_token_hash k args.token) (λ e r. ground arith) in
    let payload_hash : String = given_or args.payload_hash (k.sha256_json preview) in
    let (row, made) =
      ok_of (requested k args scope payload_hash token_hash db) (λ e r. ground arith) in
    store_request-Step row args.token db db' reply
      (requested-pending k args scope payload_hash token_hash db row made)
      (requested-row k args scope payload_hash token_hash db row made) (ground arith)

after-Step :
    {A : Type 0} (m : Result (A × Ledger)) (db : Ledger)
    → ((a : A) (db' : Ledger) → m ≡ ok (a, db') → PermitStep db.clock (permits db) (permits db'))
    → PermitStep db.clock (permits db) (permits (after m db))
after-Step (ok (a, db')) db h = h a db' refl
after-Step (err e) db h = idle

run_command-Step :
    (k : Keys) (c : Command) (db : Ledger)
    → PermitStep db.clock (permits db) (permits (run_command k c db))
unfolding run_command
run_command-Step k (approval_request args) db =
    after-Step (cmd_approval_request k args db) db
      (λ a db'. cmd_approval_request-Step k args db db' a)
run_command-Step k (approval_decide lane args) db =
    after-Step (cmd_approval_decide lane args db) db
      (λ a db'. cmd_approval_decide-Step lane args db db' a)
run_command-Step k approval_consume db = idle
run_command-Step k (data_erase_lead args) db =
    after-Step (cmd_data_erase_lead k args db) db
      (λ n db'. cmd_data_erase_lead-Step k args db db' n)

-- The approval commands implement the permits of the specification: on the view of each row as a
-- permit that is waiting, granted, refused or used, a script of commands makes, command by command,
-- one step of the specification at the command's time.
pub serve-Steps :
    (k : Keys) (script : List (ℕ × Command)) (db : Ledger)
    → PermitSteps (map (λ (c : ℕ × Command). c.0) script) (permits db) (permits (serve k db script))
unfolding serve
serve-Steps k [] db = done
serve-Steps k ((now, c) ∷ rest) db =
    let start = record db { clock = now } in
    next (run_command-Step k c start) (serve-Steps k rest (run_command k c start))
