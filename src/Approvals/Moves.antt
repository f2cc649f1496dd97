-- ===== src/Approvals/Moves.antt =====
-- How a row of `approvals` may change.
use venture_capital_lead_res.Prelude.{
  ℕ, ◌≡◌, refl, ap, ◌∙◌, String, Bool, true, not, ◌&&◌, ◌||◌, some, List, str_eq, find, arith,
}
use venture_capital_lead_res.Table.{Grows, Grows-refl, Grows-trans, find-Grows}
use venture_capital_lead_res.Approvals.Rows.{
  ApprovalStatus, pending, approved, rejected, is_status, Approval,
}
use venture_capital_lead_res.Approvals.Sql.{has_token, decided, spent}

-- The states that follow a state in any number of steps of the trigger's table.
unfoldable pub follows : ApprovalStatus → ApprovalStatus → Bool
follows a b =
    is_status a b
    || (is_status a pending
        || (is_status a approved && not (is_status b pending || is_status b rejected)))

abbrev pub is_closed : ApprovalStatus → Bool
is_closed s = not (is_status s pending || is_status s approved)

pub record Moves (a b : Approval) : Type 0 where
  pub request : b.request_id ≡ a.request_id
  pub token : b.token_hash ≡ a.token_hash
  pub scope_hash : b.scope_hash ≡ a.scope_hash
  pub scope : b.scope ≡ a.scope
  pub action : b.action_type ≡ a.action_type
  pub target : b.target_system ≡ a.target_system
  pub lead : b.lead_id ≡ a.lead_id
  pub payload : b.payload_hash ≡ a.payload_hash
  pub expires : b.expires_at ≡ a.expires_at
  pub later : follows a.status b.status ≡ true
  pub closed : is_closed a.status ≡ true → b ≡ a

follows_refl : (s : ApprovalStatus) → follows s s ≡ true
unfolding follows is_status
follows_refl s = ground arith

follows_trans :
    (a b c : ApprovalStatus) → follows a b ≡ true → follows b c ≡ true → follows a c ≡ true
unfolding follows is_status
follows_trans a b c p q = ground arith

pub Moves-refl : (a : Approval) → Moves a a
Moves-refl a = record {
  request = refl;
  token = refl;
  scope_hash = refl;
  scope = refl;
  action = refl;
  target = refl;
  lead = refl;
  payload = refl;
  expires = refl;
  later = follows_refl a.status;
  closed = λ c. refl;
}

pub Moves-trans : (a b c : Approval) → Moves a b → Moves b c → Moves a c
Moves-trans a b c m n = record {
  request = n.request ∙ m.request;
  token = n.token ∙ m.token;
  scope_hash = n.scope_hash ∙ m.scope_hash;
  scope = n.scope ∙ m.scope;
  action = n.action ∙ m.action;
  target = n.target ∙ m.target;
  lead = n.lead ∙ m.lead;
  payload = n.payload ∙ m.payload;
  expires = n.expires ∙ m.expires;
  later = follows_trans a.status b.status c.status m.later n.later;
  closed = λ h.
      let same = m.closed h in n.closed (ap (λ (r : Approval). is_closed r.status) same ∙ h) ∙ same;
}

pub Moves-decided :
    (now : ℕ) (approve : Bool) (approver channel : String) (a : Approval)
    → is_status a.status pending ≡ true
    → Moves a (decided now approve approver channel a)
unfolding decided follows
Moves-decided now approve approver channel a h = record {
  request = refl;
  token = refl;
  scope_hash = refl;
  scope = refl;
  action = refl;
  target = refl;
  lead = refl;
  payload = refl;
  expires = refl;
  later = ground arith;
  closed = λ c. absurd (ground arith);
}

pub Moves-spent :
    (now : ℕ) (transaction : String) (a : Approval)
    → is_status a.status approved ≡ true
    → Moves a (spent now transaction a)
unfolding spent follows is_status
Moves-spent now transaction a h = record {
  request = refl;
  token = refl;
  scope_hash = refl;
  scope = refl;
  action = refl;
  target = refl;
  lead = refl;
  payload = refl;
  expires = refl;
  later = ground arith;
  closed = λ c. absurd (ground arith);
}

-- A row that began pending.
abbrev pub Begun : Approval → Type 0
Begun b = (a : Approval) × (a.status ≡ pending) × Moves a b

pub Begun-Moves : (a b : Approval) → Begun a → Moves a b → Begun b
Begun-Moves a b (start, new, m) n = (start, new, Moves-trans start a b m n)

abbrev pub Evolves : List Approval → List Approval → Type 0
Evolves = Grows Moves Begun

pub Evolves-refl : (rs : List Approval) → Evolves rs rs
Evolves-refl = Grows-refl Moves Begun Moves-refl

pub Evolves-trans : (rs ss ts : List Approval) → Evolves rs ss → Evolves ss ts → Evolves rs ts
Evolves-trans = Grows-trans Moves Begun Moves-trans Begun-Moves

-- The row of a token stays the row of that token.
pub find_token-Evolves :
    (h : String) (rs ss : List Approval) (a : Approval)
    → find (has_token h) rs ≡ some a
    → Evolves rs ss
    → (b : Approval) × (find (has_token h) ss ≡ some b) × Moves a b
find_token-Evolves h = find-Grows Moves Begun (has_token h) (λ a b m. ap (λ t. str_eq t h) m.token)
