-- ===== src/Claims/Handlers.antt =====
-- `cmd_workflow_request_claim` and `cmd_document_request_claim` of vcops.py on the table
-- `workflow_requests`. The stored payloads and the versions in the rows are left out.
use venture_capital_lead_res.Prelude.{
  ℕ, String, code, Bool, false, not, ◌&&◌, ◌||◌, Option, none, some, List, [], ◌∷◌, str_eq, member,
  is_blank, len, all_chars, strip, ltb, leb, ◌==◌, if◌then◌else◌,
}
use venture_capital_lead_res.Fail.{vcops_error, Result, ok, deny, deny_exit, refuse_if, ◌>>=◌, ◌>>◌}
use venture_capital_lead_res.Json.{str, Fields, field, end, get, argument}
use venture_capital_lead_res.Validate.Checks.{require_text, is_hex_text, is_digit}
use venture_capital_lead_res.Runner.Rules.{rstrip_dots}
use venture_capital_lead_res.Preferences.Handlers.{Gate, verified, list_of, append_text}
use venture_capital_lead_res.Claims.Claim.{claim}

-- `sha256` digests a text and `sha256_json` an object; `lower` is `str.lower`; `hostname` is the
-- `hostname` of `urlsplit`, which gives none outside where it raises ValueError; `below_media` is the
-- absolute path of a document below the media root.
pub record Tools : Type 0 where
  pub sha256 : String → String
  pub sha256_json : Fields → String
  pub lower : String → String
  pub hostname : String → Option (Option String)
  pub below_media : String → Option String
  pub version : String
  pub gate : Gate

pub record WorkflowRequest : Type 0 where
  pub workflow_id : String
  pub idempotency_key : String
  pub request_hash : String
  pub document_sha256 : Option String

unfoldable pub has_request_key : WorkflowRequest → WorkflowRequest → Bool
has_request_key new r =
    str_eq r.workflow_id new.workflow_id && str_eq r.idempotency_key new.idempotency_key

-- `"://" in text`, and `".." in text`.
unfoldable pub has_scheme : String → Bool
has_scheme String.[] = false
has_scheme (String.◌∷◌ a s) = let later = has_scheme s in (code a == b':' && is_slashes s) || later
  where
    is_slashes : String → Bool
    is_slashes (String.◌∷◌ b (String.◌∷◌ c t)) = code b == b'/' && code c == b'/'
    is_slashes _ = false

unfoldable pub has_two_dots : String → Bool
has_two_dots String.[] = false
has_two_dots (String.◌∷◌ a s) =
    let later = has_two_dots s in (code a == b'.' && starts_dot s) || later
  where
    starts_dot : String → Bool
    starts_dot String.[] = false
    starts_dot (String.◌∷◌ b t) = code b == b'.'

-- `host[4:]` behind `www.`.
unfoldable pub drop_www : String → String
drop_www (String.◌∷◌ a (String.◌∷◌ b (String.◌∷◌ c (String.◌∷◌ d s)))) =
    if (code a == b'w' && code b == b'w') && (code c == b'w' && code d == b'.')
    then s
    else String.◌∷◌ a (String.◌∷◌ b (String.◌∷◌ c (String.◌∷◌ d s)))
drop_www text = text

abbrev pub or_empty : Option String → String
or_empty none = ""
or_empty (some text) = text

unfoldable pub canonical_host : String → Result String
canonical_host host =
    if is_blank host || (ltb 253 (len host) || has_two_dots host)
    then deny "invalid_domain"
    else if not (
        all_chars (λ c. (leb b'a' c && leb c b'z') || (is_digit c || (c == b'.' || c == b'-')))
          host)
    then deny "invalid_domain"
    else ok host

-- `normalize_domain` of a text that is not empty.
unfoldable pub normalize_domain : Tools → String → Result String
normalize_domain t value =
    let candidate = t.lower (strip value) in
    elim (t.hostname
      (if has_scheme candidate then candidate else append_text "https://" candidate)) [
        | none ↦ deny "invalid_domain"
        | some host ↦ canonical_host (drop_www (rstrip_dots (or_empty host)))
      ]

pub record RequestClaimArgs : Type 0 where
  pub workflow : Option String
  pub idempotency_key : Option String
  pub company_name : Option String
  pub company_domain : Option String
  pub lead_title : Option String
  pub document_path : Option String
  pub document_sha256 : Option String
  pub channel_provider : Option String
  pub channel_account_id : Option String
  pub channel_event_id : Option String

abbrev pub is_given : Option String → Bool
is_given none = false
is_given (some text) = not (is_blank text)

-- The part of the payload that a document brings, and the document's digest.
unfoldable pub document_fields : RequestClaimArgs → Result (Fields × Option String)
document_fields args = do
  document_sha256 ← require_text (argument args.document_sha256) 64
  refuse_if (not (is_hex_text 64 document_sha256)) (vcops_error "invalid_hash" 2)
  document_path ← require_text (argument args.document_path) 4096
  channel_provider ← require_text (argument args.channel_provider) 100
  channel_account_id ← require_text (argument args.channel_account_id) 500
  channel_event_id ← require_text (argument args.channel_event_id) 500
  ok (
    field "document_path" (str document_path) (
        field "document_sha256" (str document_sha256) (
          field "channel_provider" (str channel_provider) (
            field "channel_account_id" (str channel_account_id)
              (field "channel_event_id" (str channel_event_id) end)))),
    some document_sha256,
  )

unfoldable pub extra_fields : String → RequestClaimArgs → Result (Fields × Option String)
extra_fields workflow args =
    if str_eq workflow "inbound-intake"
    then document_fields args
    else if is_given args.document_path
        || (is_given args.document_sha256
            || (is_given args.channel_provider
                || (is_given args.channel_account_id || is_given args.channel_event_id)))
    then deny "unexpected_workflow_argument"
    else ok (end, none)

unfoldable pub requested_row : Tools → RequestClaimArgs → Result WorkflowRequest
requested_row t args = do
  workflow ← require_text (argument args.workflow) 200
  idempotency_key ← require_text (argument args.idempotency_key) 300
  refuse_if
      (not (member workflow ("inbound-intake" ∷ "inbound-text-intake" ∷ "outbound-scout" ∷ [])))
      (vcops_error "unsupported_workflow_request" 2)
  company_name ← require_text (argument args.company_name) 500
  domain ← require_text (argument args.company_domain) 500
  company_domain ← normalize_domain t domain
  lead_title ← require_text (argument args.lead_title) 500
  (extra, document_sha256) ← extra_fields workflow args
  ok (record {
    workflow_id = workflow;
    idempotency_key = idempotency_key;
    request_hash = t.sha256_json (
        field "workflow" (str workflow) (
          field "workflow_version" (str t.version) (
            field "policy_version" (str "3.0") (
              field "idempotency_key" (str idempotency_key) (
                field "company_name" (str company_name) (
                  field "company_domain" (str company_domain)
                    (field "lead_title" (str lead_title) extra)))))));
    document_sha256 = document_sha256;
  })

abbrev pub request_hash_of : WorkflowRequest → String
request_hash_of r = r.request_hash

unfoldable pub cmd_workflow_request_claim :
    Tools
    → RequestClaimArgs
    → List WorkflowRequest
    → Result ((WorkflowRequest × Bool) × List WorkflowRequest)
cmd_workflow_request_claim t args rows = do
  row ← requested_row t args
  claim has_request_key request_hash_of row rows

-- `_verified_media_context`: the context and the digest of the path, or none outside the media root.
unfoldable pub verified_media_context :
    Tools → ℕ → Option String → String → String → Result (Option (Fields × String))
verified_media_context t now token path operation = elim (t.below_media path) [
  | none ↦ ok none
  | some absolute ↦ do
    rendered ← require_text (argument token) 32768
    context ←
        verified t.gate now rendered
          (append_text "document." (append_text operation (append_text ":" (t.sha256 absolute))))
    refuse_if (not (member absolute (list_of (get "media_paths" context))))
        (vcops_error "trusted_context_path_denied" 1)
    ok (some (context, t.sha256 absolute))
]

pub record DocumentClaimArgs : Type 0 where
  pub idempotency_key : Option String
  pub document_path : Option String
  pub document_sha256 : Option String
  pub trusted_context : Option String

unfoldable pub document_row : Tools → String → String → String → Fields × String → WorkflowRequest
document_row t idempotency_key document_path document_sha256 (context, path_digest) = record {
  workflow_id = "document-ingest";
  idempotency_key = idempotency_key;
  request_hash = t.sha256_json (
      field "workflow" (str "document-ingest") (
        field "workflow_version" (str t.version) (
          field "policy_version" (str "3.0") (
            field "idempotency_key" (str idempotency_key) (
              field "document_path" (str document_path) (
                field "document_sha256" (str document_sha256) (
                  field "channel_provider" (get "provider" context) (
                    field "channel_account_id" (get "account_id" context) (
                      field "channel_event_id" (get "event_id" context) (
                        field "channel_sender_id" (get "sender_id" context) (
                          field "session_hash" (get "session_hash" context)
                            (field "intake_path_sha256" (str path_digest) end))))))))))));
  document_sha256 = some document_sha256;
}

unfoldable pub cmd_document_request_claim :
    Tools
    → ℕ
    → DocumentClaimArgs
    → List WorkflowRequest
    → Result ((WorkflowRequest × Bool) × List WorkflowRequest)
cmd_document_request_claim t now args rows = do
  idempotency_key ← require_text (argument args.idempotency_key) 300
  document_path ← require_text (argument args.document_path) 4096
  document_sha256 ← require_text (argument args.document_sha256) 64
  refuse_if (not (is_hex_text 64 document_sha256)) (vcops_error "invalid_hash" 2)
  media ← verified_media_context t now args.trusted_context document_path "ingest"
  elim media [
    | none ↦ deny_exit "channel_media_required" 1
    | some bound ↦
        claim has_request_key request_hash_of
          (document_row t idempotency_key document_path document_sha256 bound) rows
  ]
