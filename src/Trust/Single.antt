-- ===== src/Trust/Single.antt =====
-- A nonce is used for one operation in each scope.
use venture_capital_lead_res.Prelude.{
  ℕ, ◌≡◌, refl, sym, ap, ◌∙◌, inl, inr, String, true, Option, none, some, List, [], ◌∷◌, ◌++◌,
  str_eq_refl, str_eq→eq, find, arith, Option-cases,
}
use venture_capital_lead_res.Fail.{ok, Result-cases}
use venture_capital_lead_res.Json.{str}
use venture_capital_lead_res.Validate.Checks.{require_text}
use venture_capital_lead_res.Trust.Uses.{
  Use, Store, Payload, Principal, is_principal, principal_row, upsert_principal, find_use,
  is_same_use, record_use, consume_trusted_context,
}

find_use-append :
    (nonce scope : String) (us : List Use) (u w : Use)
    → find_use nonce scope us ≡ some u
    → find_use nonce scope (us ++ w ∷ []) ≡ some u
unfolding find_use
find_use-append nonce scope [] u w h = absurd (cc h)
find_use-append nonce scope (v ∷ us) u w h = ground (arith, find_use-append nonce scope us u w)

find_use-added :
    (us : List Use) (w : Use)
    → find_use w.nonce w.scope us ≡ none
    → find_use w.nonce w.scope (us ++ w ∷ []) ≡ some w
unfolding find_use
find_use-added [] w h = ground (arith, str_eq_refl w.nonce, str_eq_refl w.scope)
find_use-added (v ∷ us) w h = ground (arith, find_use-added us w)

upsert_principal-uses :
    (p : Payload) (store : Store) → (upsert_principal p store).1.uses ≡ store.uses
unfolding upsert_principal principal_row
upsert_principal-uses p store = by_row (find (is_principal p) store.principals)
  where
    by_row : (row : Option Principal) → (principal_row row p store).1.uses ≡ store.uses
    by_row (some q) = refl
    by_row none = refl

record_use-kept :
    (w : Use) (store store' : Store) (nonce scope : String) (u : Use)
    → record_use w store ≡ ok store'
    → find_use nonce scope store.uses ≡ some u
    → find_use nonce scope store'.uses ≡ some u
unfolding record_use
record_use-kept w store store' nonce scope u h k =
    elim (Option-cases (find_use w.nonce w.scope store.uses)) [
      | inl fresh ↦
          let added : store'.uses ≡ store.uses ++ w ∷ [] = ground arith in
          rw added (find_use-append nonce scope store.uses u w k)
      | inr (prior, found) ↦ let same : store'.uses ≡ store.uses = ground arith in rw same k
    ]

-- What the table holds for the nonce and the scope of a use that was recorded.
record_use-found :
    (w : Use) (store store' : Store)
    → record_use w store ≡ ok store'
    → (u : Use) × (find_use w.nonce w.scope store'.uses ≡ some u) × (is_same_use u w ≡ true)
unfolding record_use
record_use-found w store store' h = elim (Option-cases (find_use w.nonce w.scope store.uses)) [
  | inl fresh ↦
      let added : store'.uses ≡ store.uses ++ w ∷ [] = ground arith in
      (
        w,
        rw added (find_use-added store.uses w fresh),
        ground (arith, str_eq_refl w.operation_key, str_eq_refl w.event_id),
      )
  | inr (prior, found) ↦
      let same : store'.uses ≡ store.uses = ground arith in (prior, rw same found, ground arith)
]

-- The use that a successful consumption recorded.
record Consumed (p : Payload) (scope operation_key : String) (store : Store) (id : ℕ)
    (store' : Store) : Type 0 where
  operation : String
  required : require_text (str operation_key) 300 ≡ ok operation
  wanted : Use
  wanted_is : wanted ≡ record {
    principal_id = id;
    nonce = p.nonce;
    scope = scope;
    operation_key = operation;
    event_id = p.event_id;
    run_id = p.run_id;
  }
  recorded : record_use wanted (upsert_principal p store).1 ≡ ok store'

consume_trusted_context-Consumed :
    (p : Payload) (scope operation_key : String) (store : Store) (id : ℕ) (store' : Store)
    → consume_trusted_context p scope operation_key store ≡ ok (id, store')
    → Consumed p scope operation_key store id store'
unfolding consume_trusted_context
consume_trusted_context-Consumed p scope operation_key store id store' h =
    elim (Result-cases (require_text (str operation_key) 300)) [
      | inl (operation, q) ↦
          let w : Use = record {
            principal_id = (upsert_principal p store).0;
            nonce = p.nonce;
            scope = scope;
            operation_key = operation;
            event_id = p.event_id;
            run_id = p.run_id;
          } in
          elim (Result-cases (record_use w (upsert_principal p store).1)) [
            | inl (recorded, r) ↦
                let same_id : (upsert_principal p store).0 ≡ id = ground arith in
                let same_store : recorded ≡ store' = ground arith in
                record {
                  operation = operation;
                  required = q;
                  wanted = w;
                  wanted_is = rw same_id refl;
                  recorded = r ∙ ap ok same_store;
                }
            | inr (e, refused) ↦ absurd (ground arith)
          ]
      | inr (e, refused) ↦ absurd (ground arith)
    ]

same_fields :
    (u w : Use)
    → is_same_use u w ≡ true
    → (u.principal_id ≡ w.principal_id)
      × (u.operation_key ≡ w.operation_key)
      × (u.event_id ≡ w.event_id)
same_fields u w h = (
  ground arith,
  str_eq→eq u.operation_key w.operation_key (ground arith),
  str_eq→eq u.event_id w.event_id (ground arith),
)

-- Further successful consumptions, of any tokens.
pub data Later (store : Store) : Store → Type 0 where
  now : Later store store
  consumed :
      (middle after : Store) (p : Payload) (scope operation_key : String) (id : ℕ)
      → Later store middle
      → consume_trusted_context p scope operation_key middle ≡ ok (id, after)
      → Later store after

find_use-Later :
    (store after : Store) (nonce scope : String) (u : Use)
    → Later store after
    → find_use nonce scope store.uses ≡ some u
    → find_use nonce scope after.uses ≡ some u
find_use-Later store after nonce scope u now h = h
find_use-Later store after nonce scope u (consumed middle _ p s k id before step) h =
    let c = consume_trusted_context-Consumed p s k middle id after step in
    let first = find_use-Later store middle nonce scope u before h in
    let upserted : find_use nonce scope (upsert_principal p middle).1.uses ≡ some u =
      rw (upsert_principal-uses p middle) first in
    record_use-kept c.wanted (upsert_principal p middle).1 after nonce scope u c.recorded upserted

-- Once a token's nonce was consumed in a scope, whatever is consumed in between, it is accepted
-- again in that scope only for the same principal, operation and event.
pub consume_trusted_context-single :
    (p q : Payload) (scope first_key second_key : String) (store after between last : Store)
    (id again : ℕ)
    → consume_trusted_context p scope first_key store ≡ ok (id, after)
    → Later after between
    → q.nonce ≡ p.nonce
    → consume_trusted_context q scope second_key between ≡ ok (again, last)
    → (again ≡ id)
      × (require_text (str second_key) 300 ≡ require_text (str first_key) 300)
      × (q.event_id ≡ p.event_id)
consume_trusted_context-single p q scope first_key second_key store after between last id again one
      later same two =
    let c = consume_trusted_context-Consumed p scope first_key store id after one in
    let d = consume_trusted_context-Consumed q scope second_key between again last two in
    let (u, found, agrees) =
      record_use-found c.wanted (upsert_principal p store).1 after c.recorded in
    let (v, found', agrees') =
      record_use-found d.wanted (upsert_principal q between).1 last d.recorded in
    let nonce_c : c.wanted.nonce ≡ p.nonce = ap (λ (w : Use). w.nonce) c.wanted_is in
    let scope_c : c.wanted.scope ≡ scope = ap (λ (w : Use). w.scope) c.wanted_is in
    let nonce_d : d.wanted.nonce ≡ p.nonce = ap (λ (w : Use). w.nonce) d.wanted_is ∙ same in
    let scope_d : d.wanted.scope ≡ scope = ap (λ (w : Use). w.scope) d.wanted_is in
    let held : find_use p.nonce scope after.uses ≡ some u = rw (sym nonce_c, sym scope_c) found in
    let kept =
      find_use-Later after last p.nonce scope u
        (consumed between last q scope second_key again later two) held in
    let held' : find_use p.nonce scope last.uses ≡ some v = rw (sym nonce_d, sym scope_d) found' in
    let one_use : u ≡ v = ground arith in
    let (i, k, e) = same_fields u c.wanted agrees in
    let (i', k', e') = same_fields v d.wanted agrees' in
    let key : d.operation ≡ c.operation =
      sym (ap (λ (w : Use). w.operation_key) d.wanted_is)
      ∙ sym k'
      ∙ sym (ap (λ (w : Use). w.operation_key) one_use)
      ∙ k
      ∙ ap (λ (w : Use). w.operation_key) c.wanted_is in
    (
      sym (ap (λ (w : Use). w.principal_id) d.wanted_is)
          ∙ sym i'
          ∙ sym (ap (λ (w : Use). w.principal_id) one_use)
          ∙ i
          ∙ ap (λ (w : Use). w.principal_id) c.wanted_is,
      d.required ∙ ap ok key ∙ sym c.required,
      sym (ap (λ (w : Use). w.event_id) d.wanted_is)
          ∙ sym e'
          ∙ sym (ap (λ (w : Use). w.event_id) one_use)
          ∙ e
          ∙ ap (λ (w : Use). w.event_id) c.wanted_is,
    )
