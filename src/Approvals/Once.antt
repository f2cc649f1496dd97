-- ===== src/Approvals/Once.antt =====
-- A token erases at most once.
use venture_capital_lead_res.Prelude.{
  Bool, ℕ, ◌≡◌, ◌≢◌, refl, sym, ap, ◌∙◌, String, true, false, Option, some, List, [], ◌∷◌, inl, inr,
  find, arith, Bool-cases, Option-cases,
}
use venture_capital_lead_res.Fail.{err, Result, ok, ◌>>=◌, ok_of}
use venture_capital_lead_res.Json.{argument}
use venture_capital_lead_res.Validate.Checks.{require_text, positive_bigint}
use venture_capital_lead_res.Table.{update_first}
use venture_capital_lead_res.Approvals.Rows.{ApprovalStatus, approved, is_status, Approval, Ledger}
use venture_capital_lead_res.Approvals.Sql.{has_token, spent}
use venture_capital_lead_res.Approvals.Handlers.{
  Keys, EraseArgs, Erasure, lead_input, erase_input, cmd_data_erase_lead, approval_token_hash,
}
use venture_capital_lead_res.Approvals.Moves.{find_token-Evolves, is_closed}
use venture_capital_lead_res.Approvals.Serve.{Command, serve}
use venture_capital_lead_res.Approvals.Erase.{
  cmd_data_erase_lead-Erased, erase_lead-approvals, serve-Evolves,
}

-- The digest that a token is looked up by is computed from the token alone.
abbrev token_digest : Keys → Option String → Result String
token_digest k token = require_text (argument token) 500 >>= approval_token_hash k

lead_input-digest :
    (k : Keys) (a : EraseArgs) (lead : ℕ) (d : Erasure)
    → lead_input k a lead ≡ ok d
    → token_digest k a.token ≡ ok d.token_hash
unfolding lead_input
lead_input-digest k a lead d h =
    let (token, three) = ok_of (require_text (argument a.token) 500) (λ e r. ground arith) in
    let (hash, four) = ok_of (approval_token_hash k token) (λ e r. ground arith) in
    let same : hash ≡ d.token_hash = ground arith in rw three (four ∙ ap ok same)

erase_input-digest :
    (k : Keys) (a : EraseArgs) (d : Erasure)
    → erase_input k a ≡ ok d
    → token_digest k a.token ≡ ok d.token_hash
unfolding erase_input
erase_input-digest k a d h =
    let (named, one) = ok_of (positive_bigint a.lead_id) (λ e r. ground arith) in
    elim (Option-cases named) [
      | inl missing ↦ absurd (ground arith)
      | inr (lead, there) ↦ lead_input-digest k a lead d (ground arith)
    ]

erase_input-token :
    (k : Keys) (a b : EraseArgs) (d e : Erasure)
    → a.token ≡ b.token
    → erase_input k a ≡ ok d
    → erase_input k b ≡ ok e
    → d.token_hash ≡ e.token_hash
erase_input-token k a b d e same h1 h2 =
    let first = erase_input-digest k a d h1 in
    let second = erase_input-digest k b e h2 in
    let both : ok d.token_hash ≡ ok e.token_hash = sym first ∙ ap (token_digest k) same ∙ second in
    cc both

is_closed-spent : (now : ℕ) (t : String) (a : Approval) → is_closed (spent now t a).status ≡ true
unfolding spent is_status
is_closed-spent now t a = refl

is_closed-approved : (s : ApprovalStatus) → is_status s approved ≡ true → is_closed s ≡ false
is_closed-approved s h = ground arith

-- The row that a token found before its use is the spent one after it.
find-spent :
    (h : String) (rows : List Approval) (a : Approval) (now : ℕ) (t : String)
    → find (has_token h) rows ≡ some a
    → find (has_token h) (update_first (has_token h) (spent now t a) rows) ≡ some (spent now t a)
unfolding update_first spent
find-spent h [] a now t f = absurd (cc f)
find-spent h (r ∷ rows) a now t f = elim (Bool-cases (has_token h r)) [
  | inl this ↦ let same : a ≡ r = ground arith in ground arith
  | inr other ↦
      let missed : has_token h r ≡ false = other in
      let later = find-spent h rows a now t (ground arith) in ground arith
]

erase-refused :
    (k : Keys) (first second : EraseArgs) (db db' : Ledger) (n : ℕ) (script : List (ℕ × Command))
    (now : ℕ)
    → first.token ≡ second.token
    → cmd_data_erase_lead k first db ≡ ok (n, db')
    → (reply : ℕ × Ledger)
    → cmd_data_erase_lead k second (record (serve k db' script) { clock = now }) ≢ ok reply
erase-refused k first second db db' n script now same done (m, last) again =
    let (e, target, transaction, prior, between, was) =
      cmd_data_erase_lead-Erased k first db db' n done in
    let start = record (serve k db' script) { clock = now } in
    let (e2, target2, transaction2, prior2, between2, was2) =
      cmd_data_erase_lead-Erased k second start last m again in
    let hash : e.token_hash ≡ e2.token_hash =
      erase_input-token k first second e e2 same was.input was2.input in
    let left : db'.approvals
        ≡ update_first (has_token e.token_hash) (spent db.clock transaction prior) db.approvals =
      erase_lead-approvals e.lead n between db' was.rest ∙ was.used.rows in
    let found : find (has_token e.token_hash) db'.approvals
        ≡ some (spent db.clock transaction prior) =
      rw left (find-spent e.token_hash db.approvals prior db.clock transaction was.used.found) in
    let (now_row, there, moved) =
      find_token-Evolves e.token_hash db'.approvals (serve k db' script).approvals
        (spent db.clock transaction prior) found (serve-Evolves k script db') in
    let kept : now_row ≡ spent db.clock transaction prior =
      moved.closed (is_closed-spent db.clock transaction prior) in
    let this : some prior2 ≡ some now_row =
      sym was2.used.found ∙ ap (λ h. find (has_token h) start.approvals) (sym hash) ∙ there in
    let row : prior2 ≡ spent db.clock transaction prior = cc this ∙ kept in
    let open_row : is_closed prior2.status ≡ false =
      is_closed-approved prior2.status was2.used.was_approved in
    let closed_row : is_closed prior2.status ≡ true =
      ap (λ (a : Approval). is_closed a.status) row ∙ is_closed-spent db.clock transaction prior in
    cc (sym open_row ∙ closed_row)

abbrev pub succeeds {ℓ} : {A : Type ℓ} → Result A → Bool
succeeds (ok a) = true
succeeds (err e) = false

succeeds_not {ℓ} : {A : Type ℓ} (m : Result A) → ((a : A) → m ≢ ok a) → succeeds m ≡ false
succeeds_not (ok a) h = absurd (h a refl)
succeeds_not (err e) h = refl

-- A token erases at most once: after a successful erasure, whatever approval commands follow, in
-- whatever order and at whatever times, an erasure with the same token text does not succeed.
pub cmd_data_erase_lead-once :
    (k : Keys) (first second : EraseArgs) (db db' : Ledger) (n : ℕ) (script : List (ℕ × Command))
    (now : ℕ)
    → first.token ≡ second.token
    → cmd_data_erase_lead k first db ≡ ok (n, db')
    → succeeds (cmd_data_erase_lead k second (record (serve k db' script) { clock = now })) ≡ false
cmd_data_erase_lead-once k first second db db' n script now same done =
    succeeds_not (cmd_data_erase_lead k second (record (serve k db' script) { clock = now }))
      (erase-refused k first second db db' n script now same done)
