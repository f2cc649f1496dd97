-- ===== src/Preferences/Handlers.antt =====
-- `cmd_preference_lookup`, `cmd_preference_observe` and `cmd_preference_forget` of vcops.py. The
-- order of the rows that a lookup shows is not modelled.
use venture_capital_lead_res.Prelude.{
  ℕ, String, Bool, true, false, not, ◌&&◌, ◌||◌, Option, none, some, List, [], ◌∷◌, str_eq, member,
  leb, ◌==◌, if◌then◌else◌,
}
use venture_capital_lead_res.Fail.{Failure, vcops_error, Result, ok, refuse_if, ◌>>=◌, ◌>>◌}
use venture_capital_lead_res.Json.{Json, boolean, str, arr, Fields, get, argument}
use venture_capital_lead_res.Validate.Checks.{require_text}
use venture_capital_lead_res.Trust.Token.{verify_trusted_context, texts_of}
use venture_capital_lead_res.Trust.Uses.{Payload, consume_trusted_context}
use venture_capital_lead_res.Preferences.Rows.{
  Kind, explicit, inferred, Observation, Preference, active, is_active, Book, insert_observation,
  evidence, upsert_preference, insert_markers, forget_preferences,
}

-- What the check of a trusted context takes from outside: see Trust/Token.
pub record Gate : Type 0 where
  pub sign : String → String
  pub load : String → Option Json
  pub key_length : Option ℕ
  pub relative_parts : String → Option (List String)
  pub unit : ℕ

abbrev pub preference_values : List (String × List String)
preference_values =
    ("memo_length", "short" ∷ "standard" ∷ "detailed" ∷ [])
    ∷ ("communication_tone", "concise" ∷ "balanced" ∷ "explanatory" ∷ [])
    ∷ ("research_depth", "quick_scan" ∷ "standard" ∷ "deep" ∷ [])
    ∷ ("citation_density", "light" ∷ "standard" ∷ "dense" ∷ [])
    ∷ ("output_structure", "narrative" ∷ "headings" ∷ "bullet_heavy" ∷ [])
    ∷ []

abbrev pub sorted_keys : List String
sorted_keys =
    "citation_density" ∷ "communication_tone" ∷ "memo_length" ∷ "output_structure"
    ∷ "research_depth" ∷ []

unfoldable pub values_of : String → List (String × List String) → List String
values_of key [] = []
values_of key ((k, values) ∷ rest) =
    let later = values_of key rest in if str_eq k key then values else later

abbrev pub invalid_preference : Failure
invalid_preference = vcops_error "invalid_preference" 2

unfoldable pub preference_value : Option String → Option String → Result (String × String)
preference_value key value = do
  k ← require_text (argument key) 64
  v ← require_text (argument value) 64
  refuse_if (not (member v (values_of k preference_values))) invalid_preference
  ok (k, v)

-- The fields of a verified context: `verify_trusted_context` has checked their types.
abbrev pub text_of : Json → String
text_of (str s) = s
text_of _ = ""

abbrev pub list_of : Json → List String
list_of (arr items) = elim (texts_of items) [ none ↦ [] | some ts ↦ ts ]
list_of _ = []

abbrev pub is_true : Json → Bool
is_true (boolean b) = b
is_true _ = false

unfoldable pub payload_of : Fields → Payload
payload_of f = record {
  provider = text_of (get "provider" f);
  account_id = text_of (get "account_id" f);
  sender_id = text_of (get "sender_id" f);
  nonce = text_of (get "nonce" f);
  event_id = text_of (get "event_id" f);
  run_id = text_of (get "run_id" f);
  scopes = list_of (get "scopes" f);
}

unfoldable pub verified : Gate → ℕ → String → String → Result Fields
verified g now token scope =
    verify_trusted_context g.sign g.load g.key_length g.relative_parts g.unit now token (some scope)

abbrev pub group_denied : Failure
group_denied = vcops_error "group_preference_write_denied" 1

pub record ObserveArgs : Type 0 where
  pub preference_key : Option String
  pub preference_value : Option String
  pub trusted_context : String
  pub observation_kind : Kind
  pub idempotency_key : Option String

pub record Observed : Type 0 where
  pub observation_recorded : Bool
  pub activated : Bool
  pub evidence_count : ℕ

abbrev pub is_explicit : Kind → Bool
is_explicit explicit = true
is_explicit inferred = false

unfoldable pub activates : Kind → ℕ → Bool
activates kind count = is_explicit kind || leb 3 count

-- From the INSERT on.
unfoldable pub record_observation : Observation → Book → Observed × Book
record_observation o b =
    let (inserted, b') = insert_observation o b in
    let count = evidence o.principal_id o.preference_key o.preference_value o.observation_kind b' in
    let reply : Observed = record {
      observation_recorded = inserted;
      activated = activates o.observation_kind count;
      evidence_count = count;
    } in
    if activates o.observation_kind count
    then (
      reply,
      record b' {
        preferences =
            upsert_preference
              (record {
                principal_id = o.principal_id;
                preference_key = o.preference_key;
                preference_value = some o.preference_value;
                source_kind = some o.observation_kind;
                evidence_count = count;
                status = active;
                source_event_id = some o.event_id;
              })
              b'.preferences;
      },
    )
    else (reply, b')

unfoldable pub cmd_preference_observe : Gate → ObserveArgs → Book → Result (Observed × Book)
cmd_preference_observe g args b = do
  (key, value) ← preference_value args.preference_key args.preference_value
  context ← verified g b.clock args.trusted_context "preference.write"
  refuse_if (is_true (get "is_group" context)) group_denied
  operation ← require_text (argument args.idempotency_key) 300
  (principal, trust) ←
      consume_trusted_context (payload_of context) "preference.write" operation b.trust
  ok (
      record_observation
        (record {
          principal_id = principal;
          preference_key = key;
          preference_value = value;
          observation_kind = args.observation_kind;
          event_id = (payload_of context).event_id;
          created_at = b.clock;
        })
        (record b { trust = trust }))

pub record ForgetArgs : Type 0 where
  pub trusted_context : String
  pub preference_key : Option String
  pub idempotency_key : Option String

abbrev pub is_unknown_key : Option String → Bool
is_unknown_key none = false
is_unknown_key (some key) = not (member key sorted_keys)

-- A key that is given and known is not empty.
abbrev pub target_keys : Option String → List String
target_keys none = sorted_keys
target_keys (some key) = key ∷ []

-- The principal, and what the markers and the UPDATE leave.
unfoldable pub forget : ℕ → String → Option String → Book → Book
forget principal event key b = record b {
  markers = insert_markers principal event b.clock (target_keys key) b.markers;
  preferences = forget_preferences principal key b.preferences;
}

unfoldable pub cmd_preference_forget : Gate → ForgetArgs → Book → Result (List String × Book)
cmd_preference_forget g args b = do
  context ← verified g b.clock args.trusted_context "preference.forget"
  refuse_if (is_true (get "is_group" context)) group_denied
  refuse_if (is_unknown_key args.preference_key) invalid_preference
  operation ← require_text (argument args.idempotency_key) 300
  (principal, trust) ←
      consume_trusted_context (payload_of context) "preference.forget" operation b.trust
  ok (
    target_keys args.preference_key,
    forget principal (payload_of context).event_id args.preference_key (record b { trust = trust }),
  )

unfoldable pub active_of : ℕ → List Preference → List Preference
active_of principal [] = []
active_of principal (p ∷ ps) =
    let rest = active_of principal ps in
    if (p.principal_id == principal) && is_active p.status then p ∷ rest else rest

unfoldable pub append_text : String → String → String
append_text String.[] t = t
append_text (String.◌∷◌ c s) t = String.◌∷◌ c (append_text s t)

unfoldable pub cmd_preference_lookup : Gate → String → Book → Result (List Preference × Book)
cmd_preference_lookup g token b = do
  context ← verified g b.clock token "preference.read"
  (principal, trust) ←
      consume_trusted_context (payload_of context) "preference.read"
        (append_text "preference-lookup:" (payload_of context).event_id) b.trust
  ok (active_of principal b.preferences, record b { trust = trust })
