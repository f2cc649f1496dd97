-- ===== src/Runner/Args.antt =====
-- `_canonical_bigint` of vcrun.py, and what `validate_workflow_args` checks of the arguments of every
-- workflow.
use venture_capital_lead_res.Prelude.{
  ℕ, String, code, Bool, true, false, not, ◌&&◌, ◌||◌, List, [], ◌∷◌, str_eq, member, all, any,
  is_blank, len, all_chars, ltb, leb, ◌==◌, if◌then◌else◌,
}
use venture_capital_lead_res.Json.{str, obj, Fields, end, field}
use venture_capital_lead_res.Validate.Checks.{
  Loaded, absent, unreadable, loaded, is_alnum, is_positive_shape, is_nonnegative_shape,
  digits_value, bigint_max,
}
use venture_capital_lead_res.Runner.Helper.{
  Outcome, returned, raised, vcrun_error, raise_if, ◌>>=◌, ◌>>◌,
}
use venture_capital_lead_res.Runner.Contracts.{
  Contract, unclassified_id_arg_keys, bigint_id_arg_keys, non_negative_bigint_arg_keys,
}

-- The arguments, once all are texts: names and values, in the order of the object.
abbrev pub Args : Type 0
Args = List (String × String)

abbrev pub keys_of : Args → List String
keys_of [] = []
keys_of ((k, v) ∷ rest) = k ∷ keys_of rest

-- `parsed[key]`. The contract has every key that the rules read.
unfoldable pub value_of : String → Args → Outcome String
value_of key [] = raised vcrun_error
value_of key ((k, v) ∷ rest) =
    let later = value_of key rest in if str_eq k key then returned v else later

-- `parsed[key] = value` for a key that is there.
unfoldable pub set_value : String → String → Args → Args
set_value key value [] = []
set_value key value ((k, v) ∷ rest) =
    (k, if str_eq k key then value else v) ∷ set_value key value rest

abbrev pub max_args_bytes : ℕ
max_args_bytes = 32768

abbrev pub max_value_chars : ℕ
max_value_chars = 16384

-- The raw JSON: its size in UTF-8 and what the strict decoder makes of it.
pub record RawArgs : Type 0 where
  pub bytes : ℕ
  pub value : Loaded

unfoldable pub load_args : RawArgs → Outcome Fields
load_args raw = if ltb max_args_bytes raw.bytes then raised vcrun_error else elim raw.value [
  | absent ↦ raised vcrun_error
  | unreadable ↦ raised vcrun_error
  | loaded (obj fields) ↦ returned fields
  | loaded _ ↦ raised vcrun_error
]

unfoldable pub names_of : Fields → List String
names_of end = []
names_of (field k v rest) = k ∷ names_of rest

-- Neither `missing` nor `extra`.
unfoldable pub matches_contract : Contract → List String → Bool
matches_contract c actual =
    all (λ k. member k actual) c.keys
    && all (λ k. member k c.keys || member k c.optional_keys) actual

abbrev pub is_value : String → Bool
is_value v = not (is_blank v) && (all_chars (λ c. not (c == 0)) v && leb (len v) max_value_chars)

unfoldable pub text_args : Fields → Outcome Args
text_args end = returned []
text_args (field k (str v) rest) =
    if is_value v
    then text_args rest >>= (λ others. returned ((k, v) ∷ others))
    else raised vcrun_error
text_args (field k _ rest) = raised vcrun_error

-- `IDEMPOTENCY_RE`.
unfoldable pub is_idempotency_key : String → Bool
is_idempotency_key String.[] = false
is_idempotency_key (String.◌∷◌ c s) =
    is_alnum (code c)
    && (all_chars (λ k. is_alnum k || (k == b'.' || (k == b'_' || (k == b':' || k == b'-')))) s
        && leb (len s) 199)

-- `_canonical_bigint`, for one value.
unfoldable pub canonical_bigint : Bool → String → Outcome (Unit {0})
canonical_bigint allow_zero value =
    if not (if allow_zero then is_nonnegative_shape value else is_positive_shape value)
    then raised vcrun_error
    else raise_if (ltb bigint_max (digits_value 0 value))

-- `for key in sorted(KEYS & actual): _canonical_bigint(parsed, key)`.
unfoldable pub check_bigints : Bool → List String → Args → Outcome (Unit {0})
check_bigints allow_zero bounded [] = returned tt
check_bigints allow_zero bounded ((k, v) ∷ rest) =
    if member k bounded
    then canonical_bigint allow_zero v >> check_bigints allow_zero bounded rest
    else check_bigints allow_zero bounded rest

unfoldable pub one_of : String → List String → Args → Outcome (Unit {0})
one_of key allowed args = do value ← value_of key args; raise_if (not (member value allowed))

-- `if test: ...`, for checks and for rules that rewrite an argument.
abbrev pub when : Bool → Outcome (Unit {0}) → Outcome (Unit {0})
when true m = m
when false m = returned tt

abbrev pub revise : Bool → (Args → Outcome Args) → Args → Outcome Args
revise true rule args = rule args
revise false rule args = returned args

unfoldable pub check_kinds : String → Args → Outcome (Unit {0})
check_kinds workflow args = do
  when (str_eq workflow "orchestration-record")
      (one_of "record_kind" ("delegation_eval" ∷ "return_assessment" ∷ "chief_output" ∷ []) args)
  when (str_eq workflow "proposal-record") (
      one_of "proposal_kind" ("schema_change" ∷ "source_policy" ∷ "skill_candidate" ∷ "other" ∷ [])
        args)
  when (str_eq workflow "contradiction-record")
      (one_of "severity" ("low" ∷ "medium" ∷ "high" ∷ "blocking" ∷ []) args)

-- The checks of the keys, the values and the identifiers.
unfoldable pub checked_args : Contract → Fields → Outcome Args
checked_args contract fields = do
  raise_if (not (matches_contract contract (names_of fields)))
  args ← text_args fields
  idempotency_key ← value_of "idempotency_key" args
  raise_if (not (is_idempotency_key idempotency_key))
  raise_if (any (λ k. member k (keys_of args)) unclassified_id_arg_keys)
  check_bigints false bigint_id_arg_keys args
  check_bigints true non_negative_bigint_arg_keys args
  returned args
