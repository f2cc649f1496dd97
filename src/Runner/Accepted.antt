-- ===== src/Runner/Accepted.antt =====
-- What `validate_workflow_args` accepts.
use venture_capital_lead_res.Prelude.{
  ◌≡◌, refl, sym, ap, ◌∙◌, inl, inr, String, Bool, true, false, not, ◌&&◌, ◌||◌, Option, none, some,
  List, [], ◌∷◌, All, str_eq, str_eq→eq, member, all, strip, arith, Bool-cases, if◌then◌else◌,
}
use venture_capital_lead_res.Json.{Json, str, arr, Fields, end, field}
use venture_capital_lead_res.Runs.Commands.{fixed_workflow_ids}
use venture_capital_lead_res.Runner.Helper.{Outcome, returned, raised, vcrun_error, returned_of}
use venture_capital_lead_res.Runner.Contracts.{
  Contract, workflows, find_contract, contract_of, bigint_id_arg_keys, non_negative_bigint_arg_keys,
}
use venture_capital_lead_res.Runner.Args.{
  Args, keys_of, value_of, set_value, names_of, matches_contract, text_args, canonical_bigint,
  check_bigints, revise, checked_args,
}
use venture_capital_lead_res.Runner.Rules.{
  source_uri_rule, Codecs, memo_rule, bare_domain, domain_rule, json_object_string,
  json_object_rules, with_domain, sourced_args, ruled_args, are_objects,
}

abbrev pub is_identifier : String → Bool
is_identifier key = member key bigint_id_arg_keys || member key non_negative_bigint_arg_keys

-- Arguments after some that are no identifiers were rewritten.
pub data Revised : Args → Args → Type 0 where
  kept : {args : Args} → Revised args args
  set :
      {args last : Args} (key value : String)
      → is_identifier key ≡ false
      → Revised (set_value key value args) last
      → Revised args last

Revised-trans : (a b c : Args) → Revised a b → Revised b c → Revised a c
Revised-trans a b c kept s = s
Revised-trans a b c (set key value h r) s =
    set key value h (Revised-trans (set_value key value a) b c r s)

keys_of-set_value :
    (key value : String) (args : Args) → keys_of (set_value key value args) ≡ keys_of args
unfolding set_value
keys_of-set_value key value [] = refl
keys_of-set_value key value ((k, v) ∷ rest) = ap (λ ks. k ∷ ks) (keys_of-set_value key value rest)

pub keys_of-Revised : (a b : Args) → Revised a b → keys_of b ≡ keys_of a
keys_of-Revised a b kept = refl
keys_of-Revised a b (set key value h r) =
    keys_of-Revised (set_value key value a) b r ∙ keys_of-set_value key value a

-- Each argument of these names is the canonical text of a number.
abbrev pub Bounded : Bool → List String → Args → Type 0
Bounded allow_zero names = All (λ (kv : String × String).
    member kv.0 names ≡ true → canonical_bigint allow_zero kv.1 ≡ returned tt)

Bounded-set_value :
    (allow_zero : Bool) (names : List String) (key value : String) (args : Args)
    → member key names ≡ false
    → Bounded allow_zero names args
    → Bounded allow_zero names (set_value key value args)
unfolding set_value
Bounded-set_value allow_zero names key value [] h b = tt
Bounded-set_value allow_zero names key value ((k, v) ∷ rest) h (b, bs) =
    let others = Bounded-set_value allow_zero names key value rest h bs in
    elim (Bool-cases (str_eq k key)) [
      | inl this ↦
          let same : k ≡ key = str_eq→eq k key this in
          let no : member k names ≡ false = rw same h in
          rw this ((λ m. absurd (cc (sym no ∙ m))), others)
      | inr other ↦ rw other (b, others)
    ]

pub Bounded-Revised :
    (allow_zero : Bool) (names : List String) (a b : Args)
    → ((key : String) → is_identifier key ≡ false → member key names ≡ false)
    → Revised a b
    → Bounded allow_zero names a
    → Bounded allow_zero names b
Bounded-Revised allow_zero names a b out kept h = h
Bounded-Revised allow_zero names a b out (set key value plain r) h =
    Bounded-Revised allow_zero names (set_value key value a) b out r
      (Bounded-set_value allow_zero names key value a (out key plain) h)

check_bigints-Bounded :
    (allow_zero : Bool) (names : List String) (args : Args)
    → check_bigints allow_zero names args ≡ returned tt
    → Bounded allow_zero names args
unfolding check_bigints
check_bigints-Bounded allow_zero names [] h = tt
check_bigints-Bounded allow_zero names ((k, v) ∷ rest) h = elim (Bool-cases (member k names)) [
  | inl this ↦
      let (u, first) = returned_of (canonical_bigint allow_zero v) (λ e r. ground arith) in
      ((λ m. first), check_bigints-Bounded allow_zero names rest (ground arith))
  | inr other ↦ (
    (λ m. absurd (cc (sym other ∙ m))),
    check_bigints-Bounded allow_zero names rest (ground arith),
  )
]

text_args-names :
    (fields : Fields) (args : Args)
    → text_args fields ≡ returned args
    → keys_of args ≡ names_of fields
unfolding text_args names_of
text_args-names end args h = ground arith
text_args-names (field k (str v) rest) args h =
    let (others, read) = returned_of (text_args rest) (λ e r. ground arith) in
    let same : args ≡ (k, v) ∷ others = ground arith in
    rw same (ap (λ ks. k ∷ ks) (text_args-names rest others read))
text_args-names (field k _ rest) args h = absurd (cc h)

-- Each rule rewrites arguments that are no identifiers.
source_uri_rule-Revised : (a b : Args) → source_uri_rule a ≡ returned b → Revised a b
unfolding source_uri_rule
source_uri_rule-Revised a b h =
    let (uri, read) = returned_of (value_of "source_uri" a) (λ e r. ground arith) in
    let same : b ≡ set_value "source_uri" (strip uri) a = ground arith in
    rw same (set "source_uri" (strip uri) refl kept)

domain_rule-Revised : (x : Codecs) (a b : Args) → domain_rule x a ≡ returned b → Revised a b
unfolding domain_rule
domain_rule-Revised x a b h =
    let (text, read) = returned_of (value_of "company_domain" a) (λ e r. ground arith) in
    let (domain, bare) = returned_of (bare_domain x text) (λ e r. ground arith) in
    let same : b ≡ set_value "company_domain" domain a = ground arith in
    rw same (set "company_domain" domain refl kept)

memo_rule-Revised : (x : Codecs) (a b : Args) → memo_rule x a ≡ returned b → Revised a b
unfolding memo_rule
memo_rule-Revised x a b h =
    let (hash, read) = returned_of (value_of "evidence_hash" a) (λ e r. ground arith) in
    let (citations, cited) = returned_of (value_of "citations_json" a) (λ e r. ground arith) in
    by_value citations (x.loads_any citations) (ground arith)
  where
    by_value :
        (citations : String) (value : Option Json)
        → (elim value [
          | some (arr items) ↦
              if are_objects items
              then returned (set_value "citations_json" (x.dumps (arr items)) a)
              else raised vcrun_error
          | _ ↦ raised vcrun_error
        ])
          ≡ returned b
        → Revised a b
    by_value citations (some (arr items)) h =
        let same : b ≡ set_value "citations_json" (x.dumps (arr items)) a = ground arith in
        rw same (set "citations_json" (x.dumps (arr items)) refl kept)
    by_value citations none h = absurd (cc h)
    by_value citations (some _) h = absurd (cc h)

json_object_rules-Revised :
    (x : Codecs) (keys : List String) (a b : Args)
    → all (λ k. not (is_identifier k)) keys ≡ true
    → json_object_rules x keys a ≡ returned b
    → Revised a b
unfolding json_object_rules
json_object_rules-Revised x [] a b plain h = let same : a ≡ b = ground arith in rw (← same) kept
json_object_rules-Revised x (key ∷ keys) a b plain h =
    let (value, read) = returned_of (value_of key a) (λ e r. ground arith) in
    let (canonical, printed) = returned_of (json_object_string x value) (λ e r. ground arith) in
    set key canonical (ground arith)
      (json_object_rules-Revised x keys (set_value key canonical a) b (ground arith) (ground arith))

revise-Revised :
    (test : Bool) (rule : Args → Outcome Args) (a b : Args)
    → ((c : Args) → rule a ≡ returned c → Revised a c)
    → revise test rule a ≡ returned b
    → Revised a b
revise-Revised true rule a b step h = step b h
revise-Revised false rule a b step h = let same : a ≡ b = ground arith in rw (← same) kept

sourced_args-Revised :
    (x : Codecs) (workflow : String) (a b : Args)
    → sourced_args x workflow a ≡ returned b
    → Revised a b
unfolding sourced_args
sourced_args-Revised x workflow a b h =
    let (a1, one) =
      returned_of
        (revise (member workflow ("source-watch" ∷ "source-unwatch" ∷ [])) source_uri_rule a)
        (λ e r. ground arith) in
    let last : revise (str_eq workflow "memo-record") (memo_rule x) a1 ≡ returned b =
      ground arith in
    Revised-trans a a1 b
      (revise-Revised (member workflow ("source-watch" ∷ "source-unwatch" ∷ [])) source_uri_rule a
        a1 (source_uri_rule-Revised a) one)
      (revise-Revised (str_eq workflow "memo-record") (memo_rule x) a1 b (memo_rule-Revised x a1)
        last)

pub ruled_args-Revised :
    (x : Codecs) (workflow : String) (c : Contract) (a b : Args)
    → all (λ k. not (is_identifier k)) c.json_object_keys ≡ true
    → ruled_args x workflow c a ≡ returned b
    → Revised a b
unfolding ruled_args
ruled_args-Revised x workflow c a b plain h =
    let (a2, two) = returned_of (sourced_args x workflow a) (λ e r. ground arith) in
    let (a3, three) =
      returned_of (revise (member workflow with_domain) (domain_rule x) a2) (λ e r. ground arith) in
    let last : json_object_rules x c.json_object_keys a3 ≡ returned b = ground arith in
    Revised-trans a a2 b (sourced_args-Revised x workflow a a2 two) (
      Revised-trans a2 a3 b
        (revise-Revised (member workflow with_domain) (domain_rule x) a2 a3
          (domain_rule-Revised x a2) three)
        (json_object_rules-Revised x c.json_object_keys a3 b plain last))

-- What holds of each contract of the table.
abbrev is_sound : Contract → Bool
is_sound c =
    all (λ k. not (is_identifier k)) c.json_object_keys
    && (not (member "input_digest" c.keys || member "input_digest" c.optional_keys)
        && member c.database_workflow fixed_workflow_ids)

all_sound : all (λ (e : String × Contract). is_sound e.1) workflows ≡ true
unfolding workflows
all_sound = refl

find_contract-all :
    (p : Contract → Bool) (workflow : String) (table : List (String × Contract)) (c : Contract)
    → all (λ (e : String × Contract). p e.1) table ≡ true
    → find_contract workflow table ≡ some c
    → p c ≡ true
unfolding find_contract
find_contract-all p workflow [] c h f = absurd (cc f)
find_contract-all p workflow ((name, d) ∷ rest) c h f = elim (Bool-cases (str_eq name workflow)) [
  | inl this ↦ let same : d ≡ c = ground arith in rw (← same) (ground arith)
  | inr other ↦ find_contract-all p workflow rest c (ground arith) (ground arith)
]

pub and-both : (a b : Bool) → (a && b) ≡ true → (a ≡ true) × (b ≡ true)
and-both true true h = (refl, refl)
and-both true false h = absurd (cc h)
and-both false b h = absurd (cc h)

-- No contract rewrites an identifier, has the injected digest as a key, or stands for a run that
-- vcops does not know.
pub contract_of_sound :
    (workflow : String) (c : Contract)
    → contract_of workflow ≡ some c
    → (all (λ k. not (is_identifier k)) c.json_object_keys ≡ true)
      × (not (member "input_digest" c.keys || member "input_digest" c.optional_keys) ≡ true)
      × (member c.database_workflow fixed_workflow_ids ≡ true)
unfolding contract_of
contract_of_sound workflow c f =
    let (plain, rest) =
      and-both _ _ (find_contract-all is_sound workflow workflows c all_sound f) in
    let (digest, fixed) = and-both _ _ rest in (plain, digest, fixed)

pub checked_args-inverted :
    (c : Contract) (fields : Fields) (args : Args)
    → checked_args c fields ≡ returned args
    → (matches_contract c (keys_of args) ≡ true)
      × Bounded false bigint_id_arg_keys args
      × Bounded true non_negative_bigint_arg_keys args
unfolding checked_args
checked_args-inverted c fields args h =
    let (a, read) = returned_of (text_args fields) (λ e r. ground arith) in
    let (key, found) = returned_of (value_of "idempotency_key" a) (λ e r. ground arith) in
    let (u, ids) = returned_of (check_bigints false bigint_id_arg_keys a) (λ e r. ground arith) in
    let (v, counts) =
      returned_of (check_bigints true non_negative_bigint_arg_keys a) (λ e r. ground arith) in
    let same : a ≡ args = ground arith in
    let matched : matches_contract c (names_of fields) ≡ true = ground arith in
    rw (← same) (
      ap (matches_contract c) (text_args-names fields a read) ∙ matched,
      check_bigints-Bounded false bigint_id_arg_keys a ids,
      check_bigints-Bounded true non_negative_bigint_arg_keys a counts,
    )
