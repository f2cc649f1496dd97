-- ===== src/Runner/Rules.antt =====
-- The rules of `validate_workflow_args` of vcrun.py for each workflow, up to the printing of the result.
use venture_capital_lead_res.Prelude.{
  ℕ, ◌+◌, String, code, Bool, true, false, not, ◌&&◌, ◌||◌, Option, none, some, List, [], ◌∷◌,
  str_eq, member, is_blank, len, all_chars, is_space, strip, ltb, leb, length, ◌==◌, if◌then◌else◌,
}
use venture_capital_lead_res.Json.{Json, arr, obj, Items, nil, cons}
use venture_capital_lead_res.Validate.Checks.{
  is_hex_text, is_alnum, is_positive_shape, digits_value,
}
use venture_capital_lead_res.Runner.Helper.{
  Outcome, returned, raised, vcrun_error, raise_if, ◌>>=◌, ◌>>◌,
}
use venture_capital_lead_res.Runner.Contracts.{Contract, contract_of}
use venture_capital_lead_res.Runner.Args.{
  Args, value_of, set_value, RawArgs, load_args, one_of, when, revise, check_kinds, checked_args,
}

-- A letter of an ASCII pattern under IGNORECASE, where U+017F folds to `s`.
abbrev pub is_letter : ℕ → ℕ → Bool
is_letter lower c = (c == lower) || ((c + 32 == lower) || ((lower == b's') && (c == 383)))

-- `^://[^\s/]+` at the start of the rest.
unfoldable pub is_authority : String → Bool
is_authority (String.◌∷◌ a (String.◌∷◌ b (String.◌∷◌ c (String.◌∷◌ d s)))) =
    (code a == b':')
    && ((code b == b'/') && ((code c == b'/') && not (is_space (code d) || code d == b'/')))
is_authority _ = false

unfoldable pub is_scheme_rest : String → Bool
is_scheme_rest String.[] = false
is_scheme_rest (String.◌∷◌ c s) =
    is_authority (String.◌∷◌ c s) || (is_letter b's' (code c) && is_authority s)

unfoldable pub is_http_url : String → Bool
is_http_url (String.◌∷◌ h (String.◌∷◌ t (String.◌∷◌ u (String.◌∷◌ p s)))) =
    (is_letter b'h' (code h)
      && (is_letter b't' (code t) && (is_letter b't' (code u) && is_letter b'p' (code p))))
    && is_scheme_rest s
is_http_url _ = false

unfoldable pub source_uri_rule : Args → Outcome Args
source_uri_rule args = do
  source_uri ← value_of "source_uri" args
  raise_if (not (is_http_url (strip source_uri)))
  returned (set_value "source_uri" (strip source_uri) args)

unfoldable pub check_source_watch : Args → Outcome (Unit {0})
check_source_watch args = do
  one_of "source_class"
      ("company_blog" ∷ "vc_portfolio" ∷ "news_rss" ∷ "press_release" ∷ "research_report"
        ∷ "open_source" ∷ "job_board" ∷ "other" ∷ [])
      args
  one_of "cadence" ("daily" ∷ "weekly" ∷ "monthly" ∷ []) args

unfoldable pub check_source_scan : Args → Outcome (Unit {0})
check_source_scan args = do
  limit ← value_of "limit" args
  raise_if (not (is_positive_shape limit && leb (len limit) 3) || ltb 500 (digits_value 0 limit))

-- `isinstance(item, dict)` for each item.
abbrev pub are_objects : Items → Bool
are_objects nil = true
are_objects (cons (obj fields) rest) = are_objects rest
are_objects (cons _ rest) = false

-- `DOMAIN_RE`: labels, each before a dot, and a last one of letters. `split_dots` gives the first
-- label and the others.
unfoldable pub split_dots : String → String × List String
split_dots String.[] = (String.[], [])
split_dots (String.◌∷◌ c s) =
    let (first, others) = split_dots s in
    if code c == b'.' then (String.[], first ∷ others) else (String.◌∷◌ c first, others)

unfoldable pub ends_alnum : String → Bool
ends_alnum String.[] = false
ends_alnum (String.◌∷◌ c s) =
    let later = ends_alnum s in if is_blank s then is_alnum (code c) else later

abbrev pub starts_alnum : String → Bool
starts_alnum String.[] = false
starts_alnum (String.◌∷◌ c s) = is_alnum (code c)

unfoldable pub is_label : String → Bool
is_label l =
    (starts_alnum l && ends_alnum l)
    && (all_chars (λ c. is_alnum c || c == b'-') l && leb (len l) 63)

unfoldable pub is_top_label : String → Bool
is_top_label l =
    all_chars (λ c. (leb b'a' c && leb c b'z') || (leb b'A' c && leb c b'Z')) l
    && (leb 2 (len l) && leb (len l) 63)

unfoldable pub ends_domain : String → List String → Bool
ends_domain label [] = is_top_label label
ends_domain label (next ∷ others) = is_label label && ends_domain next others

unfoldable pub is_domain : String → Bool
is_domain text =
    let (first, others) = split_dots text in
    ends_domain first others && (not (length others == 0) && leb (len text) 253)

-- `text.rstrip(".")`.
unfoldable pub rstrip_dots : String → String
rstrip_dots String.[] = String.[]
rstrip_dots (String.◌∷◌ c s) =
    let rest = rstrip_dots s in
    if is_blank rest && code c == b'.' then String.[] else String.◌∷◌ c rest

-- `PurePosixPath` as its parts, of which an absolute path's first is its root.
abbrev pub is_absolute : List String → Bool
is_absolute (root ∷ rest) = str_eq root "/" || str_eq root "//"
is_absolute [] = false

abbrev pub is_below_inbox : List String → Bool
is_below_inbox (root ∷ top ∷ name ∷ rest) = str_eq root "/" && str_eq top "inbox"
is_below_inbox _ = false

abbrev pub is_direct_media : List String → Bool
is_direct_media (root ∷ a ∷ b ∷ c ∷ d ∷ e ∷ name ∷ []) =
    (str_eq root "/" && (str_eq a "home" && str_eq b "node"))
    && (str_eq c ".openclaw" && (str_eq d "media" && str_eq e "inbound"))
is_direct_media _ = false

abbrev pub preference_keys : List String
preference_keys =
    "memo_length" ∷ "communication_tone" ∷ "research_depth" ∷ "citation_density"
    ∷ "output_structure" ∷ []

unfoldable pub check_preferences : String → Args → Outcome (Unit {0})
check_preferences workflow args = do
  when (str_eq workflow "preference-observe") (
      one_of "preference_key" preference_keys args
      >> one_of "observation_kind" ("explicit" ∷ "inferred" ∷ []) args)
  when (str_eq workflow "preference-forget") (one_of "preference_key" preference_keys args)

-- `path_parts` are the parts of a `PurePosixPath`; `lower` is `str.lower`; `loads` is the strict
-- decoder and `loads_any` the one that also takes NaN and Infinity; `dumps` prints with sorted keys.
pub record Codecs : Type 0 where
  pub path_parts : String → List String
  pub lower : String → String
  pub loads : String → Option Json
  pub loads_any : String → Option Json
  pub dumps : Json → String

unfoldable pub memo_rule : Codecs → Args → Outcome Args
memo_rule x args = do
  evidence_hash ← value_of "evidence_hash" args
  raise_if (not (is_hex_text 64 evidence_hash))
  citations ← value_of "citations_json" args
  elim (x.loads_any citations) [
    | some (arr items) ↦
        if are_objects items
        then returned (set_value "citations_json" (x.dumps (arr items)) args)
        else raised vcrun_error
    | _ ↦ raised vcrun_error
  ]

unfoldable pub check_inbox : Codecs → Args → Outcome (Unit {0})
check_inbox x args = do
  document_path ← value_of "document_path" args
  raise_if
      (not (is_absolute (x.path_parts document_path)) || member ".." (x.path_parts document_path))
  raise_if (not (is_below_inbox (x.path_parts document_path)))
  one_of "channel_provider" ("manual" ∷ "slack" ∷ "msteams" ∷ "discord" ∷ "telegram" ∷ []) args
  one_of "channel_provider" ("manual" ∷ []) args

unfoldable pub check_media : Codecs → Args → Outcome (Unit {0})
check_media x args = do
  document_path ← value_of "document_path" args
  raise_if (
      not (is_absolute (x.path_parts document_path))
      || (member ".." (x.path_parts document_path)
          || not (is_direct_media (x.path_parts document_path))))

unfoldable pub bare_domain : Codecs → String → Outcome String
bare_domain x text =
    let domain = rstrip_dots (x.lower (strip text)) in
    if is_domain domain then returned domain else raised vcrun_error

unfoldable pub domain_rule : Codecs → Args → Outcome Args
domain_rule x args = do
  text ← value_of "company_domain" args
  domain ← bare_domain x text
  returned (set_value "company_domain" domain args)

-- `_validate_json_object_string`.
unfoldable pub json_object_string : Codecs → String → Outcome String
json_object_string x value = elim (x.loads value) [
  | some (obj fields) ↦ returned (x.dumps (obj fields))
  | _ ↦ raised vcrun_error
]

unfoldable pub json_object_rules : Codecs → List String → Args → Outcome Args
json_object_rules x [] args = returned args
json_object_rules x (key ∷ keys) args = do
  value ← value_of key args
  canonical ← json_object_string x value
  json_object_rules x keys (set_value key canonical args)

abbrev pub with_domain : List String
with_domain =
    "inbound-intake" ∷ "inbound-text-intake" ∷ "outbound-scout" ∷ "document-lead-intake" ∷ []

-- The rules of the workflows.
unfoldable pub sourced_args : Codecs → String → Args → Outcome Args
sourced_args x workflow args = do
  check_kinds workflow args
  args1 ← revise (member workflow ("source-watch" ∷ "source-unwatch" ∷ [])) source_uri_rule args
  when (str_eq workflow "source-watch") (check_source_watch args1)
  when (str_eq workflow "source-scan") (check_source_scan args1)
  revise (str_eq workflow "memo-record") (memo_rule x) args1

unfoldable pub ruled_args : Codecs → String → Contract → Args → Outcome Args
ruled_args x workflow contract args = do
  args2 ← sourced_args x workflow args
  when (str_eq workflow "inbound-intake") (check_inbox x args2)
  when (str_eq workflow "document-ingest") (check_media x args2)
  check_preferences workflow args2
  args3 ← revise (member workflow with_domain) (domain_rule x) args2
  when (str_eq workflow "inbound-text-intake") (
      one_of "origin_subtype"
        ("direct_contact" ∷ "network_referral" ∷ "event_followup" ∷ "unknown" ∷ []) args3)
  json_object_rules x contract.json_object_keys args3

unfoldable pub validate_workflow_args : Codecs → String → RawArgs → Outcome Args
validate_workflow_args x workflow raw = elim (contract_of workflow) [
  | none ↦ raised vcrun_error
  | some contract ↦ do
    fields ← load_args raw
    args ← checked_args contract fields
    ruled_args x workflow contract args
]
