-- ===== src/Claims/Notifications.antt =====
-- `cmd_notification_enqueue`, `-claim` and `-mark` of vcops.py on the table `notification_outbox`. The
-- stored payload and the references to other tables are left out.
use venture_capital_lead_res.Prelude.{
  any, is_all_spaces, String, Bool, false, not, ◌&&◌, ◌||◌, Option, none, some, List, str_eq,
  is_blank, ◌==◌, if◌then◌else◌,
}
use venture_capital_lead_res.Fail.{
  vcops_error, Result, ok, deny_exit, raise_sqlstate, refuse_if, ◌>>=◌, ◌>>◌,
}
use venture_capital_lead_res.Json.{ℤ, pos, Json, null, str, obj, field, end, argument}
use venture_capital_lead_res.Validate.Checks.{require_text, Loaded, parse_json_object}
use venture_capital_lead_res.Claims.Claim.{claim}
use venture_capital_lead_res.Claims.Handlers.{Tools, is_given}

pub record Notification : Type 0 where
  pub idempotency_key : String
  pub dedupe_key : String
  pub provider_account_id : String
  pub destination_id : String
  pub subject : String
  pub body_hash : String
  pub request_hash : String

unfoldable pub has_notification_key : Notification → Notification → Bool
has_notification_key new n = str_eq n.idempotency_key new.idempotency_key

abbrev pub notification_hash_of : Notification → String
notification_hash_of n = n.request_hash

pub record EnqueueArgs : Type 0 where
  pub provider : String
  pub severity : String
  pub hold : Bool
  pub deliver_after : Option String
  pub category : Option String
  pub approval_id : Option String
  pub max_attempts : ℤ
  pub payload : Loaded
  pub subject : Option String
  pub idempotency_key : Option String
  pub dedupe_key : Option String
  pub destination : Option String
  pub account_id : String
  pub lead_id : Option String
  pub company_id : Option String
  pub workflow_run_id : Option String
  pub policy_version : String

abbrev pub is_one : ℤ → Bool
is_one (pos n) = n == 1
is_one _ = false

-- `str(value) if value else None`.
abbrev pub text_or_null : Option String → Json
text_or_null none = null
text_or_null (some text) = if is_blank text then null else str text

unfoldable pub notification_row : Tools → EnqueueArgs → Result Notification
notification_row t args = do
  payload ← parse_json_object args.payload
  subject ← require_text (argument args.subject) 500
  idempotency_key ← require_text (argument args.idempotency_key) 300
  dedupe_key ← require_text (argument args.dedupe_key) 300
  destination ← require_text (argument args.destination) 500
  ok (record {
    idempotency_key = idempotency_key;
    dedupe_key = dedupe_key;
    provider_account_id = args.account_id;
    destination_id = destination;
    subject = subject;
    body_hash = t.sha256_json payload;
    request_hash = t.sha256_json (
        field "dedupe_key" (str dedupe_key) (
          field "provider" (str "internal_log") (
            field "account_id" (str args.account_id) (
              field "destination" (str destination) (
                field "lead_id" (text_or_null args.lead_id) (
                  field "company_id" (text_or_null args.company_id) (
                    field "workflow_run_id" (text_or_null args.workflow_run_id) (
                      field "severity" (str "silent_log") (
                        field "subject" (str subject) (
                          field "payload" (obj payload)
                            (field "policy_version" (str args.policy_version) end)))))))))));
  })

-- The second unique key of the table: all rows have the provider `internal_log`.
unfoldable pub has_dedupe_key : Notification → Notification → Bool
has_dedupe_key new n =
    str_eq n.provider_account_id new.provider_account_id && str_eq n.dedupe_key new.dedupe_key

-- The CHECK on the account, the INSERT and what follows it.
unfoldable pub enqueue_row :
    Notification → List Notification → Result ((Notification × Bool) × List Notification)
enqueue_row row rows =
    if is_all_spaces row.provider_account_id
    then raise_sqlstate "23514"
    else if not (any (has_notification_key row) rows) && any (has_dedupe_key row) rows
    then raise_sqlstate "23505"
    else claim has_notification_key notification_hash_of row rows

unfoldable pub cmd_notification_enqueue :
    Tools → EnqueueArgs → List Notification → Result ((Notification × Bool) × List Notification)
cmd_notification_enqueue t args rows = do
  refuse_if (not (str_eq args.provider "internal_log") || not (str_eq args.severity "silent_log"))
      (vcops_error "provider_delivery_unavailable" 1)
  refuse_if
      (args.hold
        || (is_given args.deliver_after
            || (is_given args.category
                || (is_given args.approval_id || not (is_one args.max_attempts)))))
      (vcops_error "invalid_internal_log" 2)
  row ← notification_row t args
  enqueue_row row rows

unfoldable pub cmd_notification_claim :
    List Notification → Result (Notification × List Notification)
cmd_notification_claim rows = deny_exit "provider_delivery_unavailable" 1

unfoldable pub cmd_notification_mark : List Notification → Result (Notification × List Notification)
cmd_notification_mark rows = deny_exit "provider_delivery_unavailable" 1
