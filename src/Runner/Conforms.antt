-- ===== src/Runner/Conforms.antt =====
-- Accepted arguments conform to the workflow's contract, and vcops accepts their identifiers.
use venture_capital_lead_res.Prelude.{
  ℕ, ◌≡◌, refl, sym, ap, ◌∙◌, inl, inr, String, Bool, true, false, not, ◌||◌, Option, some, List,
  [], ◌∷◌, All, str_eq, str_eq→eq, member, all, arith, Bool-cases, Option-cases,
}
use venture_capital_lead_res.Fail.{Result, ok, err}
use venture_capital_lead_res.Json.{Fields}
use venture_capital_lead_res.Validate.Checks.{
  digits_value, bounded_bigint, positive_bigint, nonnegative_bigint,
}
use venture_capital_lead_res.Runs.Commands.{fixed_workflow_ids}
use venture_capital_lead_res.Runner.Helper.{Outcome, returned, raised, returned_of}
use venture_capital_lead_res.Runner.Contracts.{
  Contract, contract_of, bigint_id_arg_keys, non_negative_bigint_arg_keys,
}
use venture_capital_lead_res.Runner.Args.{
  Args, keys_of, RawArgs, load_args, matches_contract, canonical_bigint, checked_args,
}
use venture_capital_lead_res.Runner.Rules.{Codecs, ruled_args, validate_workflow_args}
use venture_capital_lead_res.Runner.Accepted.{
  is_identifier, Bounded, Bounded-Revised, keys_of-Revised, ruled_args-Revised, contract_of_sound,
  checked_args-inverted, and-both,
}

abbrev pub has_returned : Outcome (Unit {0}) → Bool
has_returned (returned u) = true
has_returned (raised e) = false

abbrev pub is_ok : Result (Option ℕ) → Bool
is_ok (ok n) = true
is_ok (err e) = false

abbrev pub vcops_bigint : Bool → String → Result (Option ℕ)
vcops_bigint true value = nonnegative_bigint (some value)
vcops_bigint false value = positive_bigint (some value)

-- The launcher and vcops accept the same identifiers and the same counters: `_canonical_bigint`
-- raises nothing exactly where `_nonnegative_bigint`, or `_positive_bigint`, gives a number.
pub has_returned-canonical_bigint :
    (allow_zero : Bool) (value : String)
    → has_returned (canonical_bigint allow_zero value) ≡ is_ok (vcops_bigint allow_zero value)
unfolding canonical_bigint positive_bigint nonnegative_bigint bounded_bigint
has_returned-canonical_bigint true value = ground arith
has_returned-canonical_bigint false value = ground arith

number_of :
    (allow_zero : Bool) (value : String)
    → canonical_bigint allow_zero value ≡ returned tt
    → vcops_bigint allow_zero value ≡ ok (some (digits_value 0 value))
unfolding canonical_bigint positive_bigint nonnegative_bigint bounded_bigint
number_of true value h = ground arith
number_of false value h = ground arith

-- The arguments of these names are numbers for vcops.
abbrev pub Numbers : Bool → List String → Args → Type 0
Numbers allow_zero names = All (λ (kv : String × String).
    member kv.0 names ≡ true → (n : ℕ) × (vcops_bigint allow_zero kv.1 ≡ ok (some n)))

Bounded-Numbers :
    (allow_zero : Bool) (names : List String) (args : Args)
    → Bounded allow_zero names args
    → Numbers allow_zero names args
Bounded-Numbers allow_zero names [] h = tt
Bounded-Numbers allow_zero names ((k, v) ∷ rest) (h, hs) = (
  (λ m. (digits_value 0 v, number_of allow_zero v (h m))),
  Bounded-Numbers allow_zero names rest hs,
)

all-member :
    (p : String → Bool) (k : String) (ks : List String)
    → all p ks ≡ true
    → member k ks ≡ true
    → p k ≡ true
all-member p k [] h m = absurd (cc m)
all-member p k (x ∷ xs) h m = elim (Bool-cases (str_eq k x)) [
  | inl this ↦ let same : k ≡ x = str_eq→eq k x this in rw same (ground arith)
  | inr other ↦ all-member p k xs (ground arith) (ground arith)
]

pub record Conforms (workflow : String) (args : Args) : Type 0 where
  pub contract : Contract
  pub found : contract_of workflow ≡ some contract
  pub fixed : member contract.database_workflow fixed_workflow_ids ≡ true
  pub complete : all (λ k. member k (keys_of args)) contract.keys ≡ true
  pub closed :
      all (λ k. member k contract.keys || member k contract.optional_keys) (keys_of args) ≡ true
  pub undigested : member "input_digest" (keys_of args) ≡ false
  pub identifiers : Numbers false bigint_id_arg_keys args
  pub counters : Numbers true non_negative_bigint_arg_keys args

undigested-keys :
    (keys optional actual : List String)
    → not (member "input_digest" keys || member "input_digest" optional) ≡ true
    → all (λ k. member k keys || member k optional) actual ≡ true
    → member "input_digest" actual ≡ false
undigested-keys keys optional actual free closed =
    elim (Bool-cases (member "input_digest" actual)) [
      | inl held ↦
          let there =
            all-member (λ k. member k keys || member k optional) "input_digest" actual closed
              held in
          absurd (cc (sym (ap not there) ∙ free))
      | inr missing ↦ missing
    ]

not_identifier :
    (key : String)
    → is_identifier key ≡ false
    → (member key bigint_id_arg_keys ≡ false) × (member key non_negative_bigint_arg_keys ≡ false)
not_identifier key h =
    neither (member key bigint_id_arg_keys) (member key non_negative_bigint_arg_keys) h
  where
    neither : (a b : Bool) → (a || b) ≡ false → (a ≡ false) × (b ≡ false)
    neither false false h = (refl, refl)
    neither false true h = absurd (cc h)
    neither true b h = absurd (cc h)

ruled_args-Conforms :
    (x : Codecs) (workflow : String) (c : Contract) (fields : Fields) (a b : Args)
    → contract_of workflow ≡ some c
    → checked_args c fields ≡ returned a
    → ruled_args x workflow c a ≡ returned b
    → Conforms workflow b
unfolding matches_contract
ruled_args-Conforms x workflow c fields a b found checked ruled =
    let (plain, digest, fixed) = contract_of_sound workflow c found in
    let (matched, ids, counts) = checked_args-inverted c fields a checked in
    let revised = ruled_args-Revised x workflow c a b plain ruled in
    let same : keys_of b ≡ keys_of a = keys_of-Revised a b revised in
    let (complete, closed) = and-both _ _ matched in
    record {
      contract = c;
      found = found;
      fixed = fixed;
      complete = rw same complete;
      closed = rw same closed;
      undigested = rw same (undigested-keys c.keys c.optional_keys (keys_of a) digest closed);
      identifiers = Bounded-Numbers false bigint_id_arg_keys b (
          Bounded-Revised false bigint_id_arg_keys a b (λ key h. (not_identifier key h).0) revised
            ids);
      counters = Bounded-Numbers true non_negative_bigint_arg_keys b (
          Bounded-Revised true non_negative_bigint_arg_keys a b (λ key h. (not_identifier key h).1)
            revised counts);
    }

-- Accepted arguments conform to the contract of their workflow: they have each of its keys and none
-- outside it, never the injected digest, and each identifier and each counter among them is one that
-- vcops accepts; the run that the workflow stands for is one that vcops knows.
pub validate_workflow_args-Conforms :
    (x : Codecs) (workflow : String) (raw : RawArgs) (args : Args)
    → validate_workflow_args x workflow raw ≡ returned args
    → Conforms workflow args
unfolding validate_workflow_args
validate_workflow_args-Conforms x workflow raw args h = elim (Option-cases (contract_of workflow)) [
  | inl missing ↦ absurd (ground arith)
  | inr (c, found) ↦
      let (fields, read) = returned_of (load_args raw) (λ e r. ground arith) in
      let (a, checked) = returned_of (checked_args c fields) (λ e r. ground arith) in
      ruled_args-Conforms x workflow c fields a args found checked (ground arith)
]
