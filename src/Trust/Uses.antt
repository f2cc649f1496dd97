-- ===== src/Trust/Uses.antt =====
-- `consume_trusted_context` of vcops.py on the tables `channel_principals` and
-- `trusted_context_uses`. `last_seen_at` and `expires_at` are not modelled.
use venture_capital_lead_res.Prelude.{
  ℕ, suc, String, Bool, not, ◌&&◌, Option, none, some, List, [], ◌∷◌, ◌++◌, str_eq, member, find,
  ◌==◌, if◌then◌else◌,
}
use venture_capital_lead_res.Fail.{Result, ok, deny_exit, ◌>>=◌, vcops_error, refuse_if, ◌>>◌}
use venture_capital_lead_res.Json.{str}
use venture_capital_lead_res.Validate.Checks.{require_text}

pub record Principal : Type 0 where
  pub id : ℕ
  pub provider : String
  pub account_id : String
  pub sender_id : String

pub record Use : Type 0 where
  pub principal_id : ℕ
  pub nonce : String
  pub scope : String
  pub operation_key : String
  pub event_id : String
  pub run_id : String

-- `next_id` is the sequence of `channel_principals.id`.
pub record Store : Type 0 where
  pub next_id : ℕ
  pub principals : List Principal
  pub uses : List Use

-- The fields of a verified token that its use reads.
pub record Payload : Type 0 where
  pub provider : String
  pub account_id : String
  pub sender_id : String
  pub nonce : String
  pub event_id : String
  pub run_id : String
  pub scopes : List String

abbrev pub is_principal : Payload → Principal → Bool
is_principal p q =
    str_eq q.provider p.provider
    && (str_eq q.account_id p.account_id && str_eq q.sender_id p.sender_id)

-- `INSERT INTO channel_principals ... ON CONFLICT ... RETURNING id`, given the conflicting row.
unfoldable pub principal_row : Option Principal → Payload → Store → ℕ × Store
principal_row (some q) p store = (q.id, store)
principal_row none p store = (
  store.next_id,
  record {
    next_id = suc store.next_id;
    principals =
        store.principals
        ++ record {
          id = store.next_id;
          provider = p.provider;
          account_id = p.account_id;
          sender_id = p.sender_id;
        }
          ∷ [];
    uses = store.uses;
  },
)

unfoldable pub upsert_principal : Payload → Store → ℕ × Store
upsert_principal p store = principal_row (find (is_principal p) store.principals) p store

unfoldable pub find_use : String → String → List Use → Option Use
find_use nonce scope [] = none
find_use nonce scope (u ∷ us) =
    let rest = find_use nonce scope us in
    if str_eq u.nonce nonce && str_eq u.scope scope then some u else rest

abbrev pub is_same_use : Use → Use → Bool
is_same_use prior wanted =
    (prior.principal_id == wanted.principal_id)
    && (str_eq prior.operation_key wanted.operation_key && str_eq prior.event_id wanted.event_id)

-- `INSERT INTO trusted_context_uses ... ON CONFLICT(nonce,scope) DO NOTHING` and the test of the
-- prior use.
unfoldable pub record_use : Use → Store → Result Store
record_use wanted store = elim (find_use wanted.nonce wanted.scope store.uses) [
  | none ↦ ok (record {
    next_id = store.next_id;
    principals = store.principals;
    uses = store.uses ++ wanted ∷ [];
  })
  | some prior ↦ if is_same_use prior wanted then ok store else deny_exit "trusted_context_replay" 1
]

unfoldable pub consume_trusted_context : Payload → String → String → Store → Result (ℕ × Store)
consume_trusted_context p scope operation_key store = do
  refuse_if (not (member scope p.scopes)) (vcops_error "trusted_context_scope_denied" 1)
  let (id, store') = upsert_principal p store
  operation ← require_text (str operation_key) 300
  recorded ←
      record_use
        (record {
          principal_id = id;
          nonce = p.nonce;
          scope = scope;
          operation_key = operation;
          event_id = p.event_id;
          run_id = p.run_id;
        })
        store'
  ok (id, recorded)
