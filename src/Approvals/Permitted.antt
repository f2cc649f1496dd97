-- ===== src/Approvals/Permitted.antt =====
-- What the permit of a successful erasure was, and what the erasure leaves of the approvals.
use venture_capital_lead_res.Prelude.{
  ℕ, ◌≡◌, ◌≤◌, ◌<◌, refl, ap, ◌∙◌, inl, inr, String, true, false, Option, none, some, List, ◌∷◌,
  ◌++◌, str_eq→eq, arith, Option-cases,
}
use venture_capital_lead_res.Fail.{ok, ok_of}
use venture_capital_lead_res.Json.{Json, Fields, get, argument}
use venture_capital_lead_res.Validate.Checks.{require_text, positive_bigint, parse_json_object}
use venture_capital_lead_res.Table.{found_between}
use venture_capital_lead_res.Approvals.Rows.{
  approved, consumed, ApprovalStatus, is_status, Approval, Ledger,
}
use venture_capital_lead_res.Approvals.Sql.{
  has_token, spent, issued_after, matches_action, names_lead, other_lead,
}
use venture_capital_lead_res.Approvals.Handlers.{
  Keys, EraseArgs, Erasure, lead_input, erase_input, approval_token_hash, cmd_data_erase_lead,
}
use venture_capital_lead_res.Approvals.Erase.{Erased, consumed-Erased, erase_lead-approvals}

is_status-eq : (s : ApprovalStatus) → is_status s approved ≡ true → s ≡ approved
unfolding is_status
is_status-eq approved h = refl
is_status-eq s h = absurd (cc h)

matches_action-eq :
    (scope_hash action target payload_hash : String) (a : Approval)
    → matches_action scope_hash action target payload_hash a ≡ true
    → (a.scope_hash ≡ scope_hash)
      × (a.action_type ≡ action)
      × (a.target_system ≡ target)
      × (a.payload_hash ≡ payload_hash)
unfolding matches_action
matches_action-eq scope_hash action target payload_hash a h = (
  str_eq→eq a.scope_hash scope_hash (ground arith),
  str_eq→eq a.action_type action (ground arith),
  str_eq→eq a.target_system target (ground arith),
  str_eq→eq a.payload_hash payload_hash (ground arith),
)

issued_after-le :
    (now issued : ℕ) (at_time : Option ℕ)
    → issued_after now at_time ≡ false
    → at_time ≡ some issued
    → issued ≤ now
issued_after-le now issued none h e = absurd (cc e)
issued_after-le now issued (some t) h e = let same : t ≡ issued = cc e in ground arith

names_lead-eq :
    (sql_text : Json → Option String) (decimal : ℕ → String) (lead : ℕ) (scope : Fields)
    → names_lead sql_text decimal lead scope ≡ true
    → sql_text (get "lead_id" scope) ≡ some (decimal lead)
unfolding names_lead
names_lead-eq sql_text decimal lead scope h = elim (Option-cases (sql_text (get "lead_id" scope))) [
  | inl missing ↦ absurd (ground arith)
  | inr (named, there) ↦
      let same = str_eq→eq named (decimal lead) (ground arith) in there ∙ ap some same
]

other_lead-eq :
    (lead l : ℕ) (bound : Option ℕ) → other_lead lead bound ≡ false → bound ≡ some l → l ≡ lead
other_lead-eq lead l none h e = absurd (cc e)
other_lead-eq lead l (some b) h e = let same : b ≡ l = cc e in ground arith

-- What the checks of the arguments read.
record Read (k : Keys) (args : EraseArgs) (e : Erasure) : Type 0 where
  token : String
  token_is : require_text (argument args.token) 500 ≡ ok token
  digest_is : e.token_hash ≡ k.hmac k.pepper token
  payload_is : require_text (argument args.payload_hash) 64 ≡ ok e.payload_hash
  scope_is : parse_json_object args.scope ≡ ok e.scope
  lead_is : positive_bigint args.lead_id ≡ ok (some e.lead)

lead_input-Read :
    (k : Keys) (args : EraseArgs) (lead : ℕ) (e : Erasure)
    → positive_bigint args.lead_id ≡ ok (some lead)
    → lead_input k args lead ≡ ok e
    → Read k args e
unfolding lead_input approval_token_hash
lead_input-Read k args lead e named h =
    let (scope, one) = ok_of (parse_json_object args.scope) (λ e r. ground arith) in
    let (payload, two) =
      ok_of (require_text (argument args.payload_hash) 64) (λ e r. ground arith) in
    let (token, three) = ok_of (require_text (argument args.token) 500) (λ e r. ground arith) in
    let same_scope : scope ≡ e.scope = ground arith in
    let same_payload : payload ≡ e.payload_hash = ground arith in
    let same_lead : lead ≡ e.lead = ground arith in
    record {
      token = token;
      token_is = three;
      digest_is = ground arith;
      payload_is = two ∙ ap ok same_payload;
      scope_is = one ∙ ap ok same_scope;
      lead_is = named ∙ ap (λ l. ok (some l)) same_lead;
    }

erase_input-Read :
    (k : Keys) (args : EraseArgs) (e : Erasure) → erase_input k args ≡ ok e → Read k args e
unfolding erase_input
erase_input-Read k args e h =
    let (named, one) = ok_of (positive_bigint args.lead_id) (λ e r. ground arith) in
    elim (Option-cases named) [
      | inl missing ↦ absurd (ground arith)
      | inr (lead, there) ↦ lead_input-Read k args lead e (one ∙ ap ok there) (ground arith)
    ]

-- The permit of an erasure: the arguments it fits, its place in the table, and what it was.
pub record Permitted (k : Keys) (args : EraseArgs) (db db' : Ledger) : Type 0 where
  pub lead : ℕ
  pub scope : Fields
  pub token : String
  pub payload_hash : String
  pub target : String
  pub transaction : String
  pub lead_is : positive_bigint args.lead_id ≡ ok (some lead)
  pub scope_is : parse_json_object args.scope ≡ ok scope
  pub token_is : require_text (argument args.token) 500 ≡ ok token
  pub payload_is : require_text (argument args.payload_hash) 64 ≡ ok payload_hash
  pub target_is : require_text (argument args.target_system) 200 ≡ ok target
  pub transaction_is : require_text (argument args.transaction_id) 200 ≡ ok transaction
  pub permit : Approval
  pub earlier : List Approval
  pub later : List Approval
  pub before : db.approvals ≡ earlier ++ permit ∷ later
  pub after :
      db'.approvals
      ≡ earlier
        ++ record permit {
          status = consumed;
          consumed_at = some db.clock;
          governed_transaction_id = some transaction;
        }
          ∷ later
  pub token_matches : permit.token_hash ≡ k.hmac k.pepper token
  pub was_approved : permit.status ≡ approved
  pub was_issued : (issued : ℕ) → permit.issued_at ≡ some issued → issued ≤ db.clock
  pub unexpired : db.clock < permit.expires_at
  pub action_matches : permit.action_type ≡ "data.erase_lead"
  pub scope_matches : permit.scope_hash ≡ k.sha256_json scope
  pub target_matches : permit.target_system ≡ target
  pub payload_matches : permit.payload_hash ≡ payload_hash
  pub names : k.sql_text (get "lead_id" permit.scope) ≡ some (k.decimal lead)
  pub bound : (other : ℕ) → permit.lead_id ≡ some other → other ≡ lead

module _ (k : Keys) (args : EraseArgs) (db db' : Ledger) (n : ℕ) where
  Erased-Permitted :
      (e : Erasure) (target transaction : String) (prior : Approval) (between : Ledger)
      → require_text (argument args.target_system) 200 ≡ ok target
      → require_text (argument args.transaction_id) 200 ≡ ok transaction
      → Erased k args db db' n e target transaction prior between
      → Permitted k args db db'
  unfolding spent
  Erased-Permitted e target transaction prior between aimed keyed was =
      let used = was.used in
      let read = erase_input-Read k args e was.input in
      let (earlier, later, has, before, after) =
        found_between (has_token e.token_hash) db.approvals prior (spent db.clock transaction prior)
          used.found in
      let (scope_matches, action_matches, target_matches, payload_matches) =
        matches_action-eq (k.sha256_json e.scope) "data.erase_lead" target e.payload_hash prior
          used.matched in
      let fresh = used.unexpired in
      record {
        lead = e.lead;
        scope = e.scope;
        token = read.token;
        payload_hash = e.payload_hash;
        target = target;
        transaction = transaction;
        lead_is = read.lead_is;
        scope_is = read.scope_is;
        token_is = read.token_is;
        payload_is = read.payload_is;
        target_is = aimed;
        transaction_is = keyed;
        permit = prior;
        earlier = earlier;
        later = later;
        before = before;
        after = erase_lead-approvals e.lead n between db' was.rest ∙ used.rows ∙ after;
        token_matches = str_eq→eq prior.token_hash e.token_hash has ∙ read.digest_is;
        was_approved = is_status-eq prior.status used.was_approved;
        was_issued = λ issued. issued_after-le db.clock issued prior.issued_at used.was_issued;
        unexpired = ground arith;
        action_matches = action_matches;
        scope_matches = scope_matches;
        target_matches = target_matches;
        payload_matches = payload_matches;
        names = names_lead-eq k.sql_text k.decimal e.lead prior.scope was.named;
        bound = λ other. other_lead-eq e.lead other prior.lead_id was.bound;
      }

  -- A successful erasure had the token of an approval in the table that, when it ran, was approved,
  -- issued and not expired; that was given for the action `data.erase_lead`, for the target, the
  -- payload and the digest of the scope that the arguments name; and whose own scope, and own lead
  -- where it has one, name the lead of the arguments. It spent this approval, now and for the
  -- transaction of the arguments, and wrote nothing else of the approvals.
  pub cmd_data_erase_lead-Permitted :
      cmd_data_erase_lead k args db ≡ ok (n, db') → Permitted k args db db'
  unfolding cmd_data_erase_lead
  cmd_data_erase_lead-Permitted h =
      let (e, given) = ok_of (erase_input k args) (λ f r. ground arith) in
      let (target, aimed) =
        ok_of (require_text (argument args.target_system) 200) (λ f r. ground arith) in
      let (transaction, keyed) =
        ok_of (require_text (argument args.transaction_id) 200) (λ f r. ground arith) in
      let (prior, between, erased) =
        consumed-Erased k args db db' n e target transaction given (ground arith) in
      Erased-Permitted e target transaction prior between aimed keyed erased
