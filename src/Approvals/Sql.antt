-- ===== src/Approvals/Sql.antt =====
-- The database's side of an approval: the INSERT with its checks, the trigger of an UPDATE, and the
-- functions `decide_approval`, `consume_approval` (migrations/001_initial_v2.sql) and
-- `consume_approval_and_erase_lead` (migrations/017_erasure_tombstone_and_append_only_grants.sql).
-- The audit rows are not modelled.
use venture_capital_lead_res.Prelude.{
  ℕ, suc, ◌+◌, String, Bool, true, false, not, ◌&&◌, ◌||◌, Option, none, some, List, [], ◌∷◌, ◌++◌,
  str_eq, find, any, is_all_spaces, ltb, leb, ◌==◌, if◌then◌else◌,
}
use venture_capital_lead_res.Fail.{sqlstate, Result, ok, raise_sqlstate, refuse_if, ◌>>=◌, ◌>>◌}
use venture_capital_lead_res.Json.{Json, Fields, get}
use venture_capital_lead_res.Validate.Checks.{is_hex_text}
use venture_capital_lead_res.Table.{update_first}
use venture_capital_lead_res.Approvals.Rows.{
  ApprovalStatus, pending, approved, rejected, revoked, expired, consumed, is_status, Approval,
  FactRow, LeadRow, Ledger,
}

abbrev pub has_request : String → Approval → Bool
has_request request_id a = str_eq a.request_id request_id

abbrev pub has_token : String → Approval → Bool
has_token token_hash a = str_eq a.token_hash token_hash

abbrev pub has_idempotency : String → Approval → Bool
has_idempotency key a = str_eq a.idempotency_key key

-- The CHECK constraints on a row's digests, texts and times.
unfoldable pub approval_checks : Approval → Bool
approval_checks a =
    (is_hex_text 64 a.token_hash && (is_hex_text 64 a.scope_hash && is_hex_text 64 a.payload_hash))
    && (ltb a.requested_at a.expires_at && not (is_all_spaces a.idempotency_key))

abbrev pub known_lead : List LeadRow → Option ℕ → Bool
known_lead leads none = true
known_lead leads (some l) = any (λ (r : LeadRow). r.id == l) leads

-- `INSERT ... ON CONFLICT (idempotency_key) DO NOTHING RETURNING ...`.
unfoldable pub insert_approval : Approval → Ledger → Result (Option Approval × Ledger)
insert_approval new db =
    if not (approval_checks new)
    then raise_sqlstate "23514"
    else if any (has_idempotency new.idempotency_key) db.approvals
    then ok (none, db)
    else if any (has_request new.request_id) db.approvals
        || any (has_token new.token_hash) db.approvals
    then raise_sqlstate "23505"
    else if not (known_lead db.leads new.lead_id)
    then raise_sqlstate "23503"
    else ok (some new, record db { approvals = db.approvals ++ new ∷ [] })

-- The edges of `guard_approval_transition`.
unfoldable pub approval_edge : ApprovalStatus → ApprovalStatus → Bool
approval_edge old new =
    is_status new old
    || ((is_status old pending
          && (is_status new approved
              || (is_status new rejected || (is_status new revoked || is_status new expired))))
        || (is_status old approved
            && (is_status new consumed || (is_status new revoked || is_status new expired))))

-- The UPDATE of the row that `p` has found, with the trigger's test of the edge. The statements
-- below write none of the columns that the trigger holds fixed.
unfoldable pub update_approval : (Approval → Bool) → Approval → Approval → Ledger → Result Ledger
update_approval p old new db =
    if approval_edge old.status new.status
    then ok (record db { approvals = update_first p new db.approvals })
    else raise_sqlstate "23514"

-- `p_decision`; the approver, the channel and the actor are not blank.
unfoldable pub decided : ℕ → Bool → String → String → Approval → Approval
decided now approve approver channel a = record a {
  status = if approve then approved else rejected;
  approver_id = some approver;
  approval_channel_id = some channel;
  issued_at = if approve then some now else none;
}

unfoldable pub decide_approval :
    String → Bool → String → String → Ledger → Result (Approval × Ledger)
decide_approval request_id approve approver channel db =
    if is_all_spaces approver || is_all_spaces channel
    then raise_sqlstate "22023"
    else elim (find (has_request request_id) db.approvals) [
      | none ↦ raise_sqlstate "P0002"
      | some prior ↦
          if not (is_status prior.status pending)
          then raise_sqlstate "40001"
          else if leb prior.expires_at db.clock
          then raise_sqlstate "28000"
          else (do
            db' ←
                update_approval (has_request request_id) prior
                  (decided db.clock approve approver channel prior) db
            ok (decided db.clock approve approver channel prior, db'))
    ]

unfoldable pub spent : ℕ → String → Approval → Approval
spent now transaction a = record a {
  status = consumed;
  consumed_at = some now;
  governed_transaction_id = some transaction;
}

abbrev pub issued_after : ℕ → Option ℕ → Bool
issued_after now none = false
issued_after now (some issued) = ltb now issued

unfoldable pub matches_action : String → String → String → String → Approval → Bool
matches_action scope_hash action target payload_hash a =
    (str_eq a.scope_hash scope_hash && str_eq a.action_type action)
    && (str_eq a.target_system target && str_eq a.payload_hash payload_hash)

unfoldable pub consume_approval :
    String → String → String → String → String → String → Ledger → Result (Approval × Ledger)
consume_approval token_hash scope_hash action target payload_hash transaction db =
    elim (find (has_token token_hash) db.approvals) [
      | none ↦ raise_sqlstate "28000"
      | some prior ↦
          if not (is_status prior.status approved)
          then raise_sqlstate "28000"
          else if issued_after db.clock prior.issued_at || leb prior.expires_at db.clock
          then raise_sqlstate "28000"
          else if not (matches_action scope_hash action target payload_hash prior)
          then raise_sqlstate "28000"
          else if is_all_spaces transaction
          then raise_sqlstate "22023"
          else (do
            db' ← update_approval (has_token token_hash) prior (spent db.clock transaction prior) db
            ok (spent db.clock transaction prior, db'))
    ]

-- The facts of the lead that are live: not retracted, and superseded by no fact.
abbrev pub on_lead : ℕ → FactRow → Bool
on_lead lead f = elim f.lead_id [ none ↦ false | some l ↦ l == lead ]

abbrev pub replaces : ℕ → FactRow → Bool
replaces id s = elim s.supersedes [ none ↦ false | some k ↦ k == id ]

unfoldable pub is_superseded : List FactRow → FactRow → Bool
is_superseded facts f = any (replaces f.id) facts

unfoldable pub is_live : ℕ → List FactRow → FactRow → Bool
is_live lead facts f = on_lead lead f && (not f.is_retracted && not (is_superseded facts f))

unfoldable pub tombstone : ℕ → FactRow → FactRow
tombstone id f = record {
  id = id;
  lead_id = f.lead_id;
  fact_type = f.fact_type;
  values = none;
  is_retracted = true;
  supersedes = some f.id;
  version = suc f.version;
}

-- `INSERT INTO facts SELECT ... FROM current_facts`: the new rows. `all_facts` is the whole table.
unfoldable pub tombstones : ℕ → List FactRow → ℕ → List FactRow → List FactRow
tombstones lead all_facts next [] = []
tombstones lead all_facts next (f ∷ fs) =
    let with_it = tombstone next f ∷ tombstones lead all_facts (suc next) fs in
    let without = tombstones lead all_facts next fs in
    if is_live lead all_facts f then with_it else without

unfoldable pub count_rows : List FactRow → ℕ
count_rows [] = 0
count_rows (f ∷ fs) = suc (count_rows fs)

unfoldable pub archive : ℕ → List LeadRow → List LeadRow
archive lead [] = []
archive lead (r ∷ rs) =
    (if r.id == lead then record r { status = "archived" } else r) ∷ archive lead rs

unfoldable pub erase_lead : ℕ → Ledger → Result (ℕ × Ledger)
erase_lead lead db =
    let retracted = tombstones lead db.facts db.next_fact db.facts in
    if any (λ (r : LeadRow). r.id == lead) db.leads
    then ok (
      count_rows retracted,
      record db {
        facts = db.facts ++ retracted;
        next_fact = db.next_fact + count_rows retracted;
        leads = archive lead db.leads;
      },
    )
    else raise_sqlstate "P0002"

abbrev pub other_lead : ℕ → Option ℕ → Bool
other_lead lead none = false
other_lead lead (some bound) = not (bound == lead)

-- `sql_text` is PostgreSQL's `->>`, and `decimal` the text of a BIGINT.
module _ (sql_text : Json → Option String) (decimal : ℕ → String) where
  -- `scope->>'lead_id'` names the lead.
  unfoldable pub names_lead : ℕ → Fields → Bool
  names_lead lead scope = elim (sql_text (get "lead_id" scope)) [
    | none ↦ false
    | some named ↦ str_eq named (decimal lead)
  ]

  unfoldable pub consume_approval_and_erase_lead :
      ℕ → String → String → String → String → String → String → Ledger → Result (ℕ × Ledger)
  consume_approval_and_erase_lead lead token_hash scope_hash action target payload_hash transaction
        db =
      if not (str_eq action "data.erase_lead") then raise_sqlstate "28000" else do
        (permit, db') ←
            consume_approval token_hash scope_hash action target payload_hash transaction db
        refuse_if (not (names_lead lead permit.scope)) (sqlstate "28000")
        refuse_if (other_lead lead permit.lead_id) (sqlstate "28000")
        erase_lead lead db'
