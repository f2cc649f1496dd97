-- ===== src/Tests/Tokens.antt =====
-- A trusted context at a concrete token.
use venture_capital_lead_res.Prelude.{◌≡◌, refl, String, false, Option, some, List, [], ◌∷◌, strip}
use venture_capital_lead_res.Fail.{ok}
use venture_capital_lead_res.Json.{
  pos, Json, boolean, int, str, arr, obj, nil, cons, Fields, field, end, get, get_field,
  field_names,
}
use venture_capital_lead_res.Validate.Checks.{require_text, is_hex_text}
use venture_capital_lead_res.Trust.Token.{
  split_dot, token_parts, timestamp, check_times, check_provider, check_texts, texts_of,
  is_unrepeated, text_list, is_version_one, check_key, load_payload, is_direct, check_lists,
  check_payload, verify_trusted_context,
}
use venture_capital_lead_res.Trust.Verified.{Verified, verify_trusted_context-Verified}

abbrev payload : Fields
payload = field "v" (int (pos 1)) (
    field "nonce" (str "0123456789abcdef0123456789abcdef0123456789abcdef") (
      field "iat" (int (pos 90)) (
        field "exp" (int (pos 600)) (
          field "provider" (str "slack") (
            field "account_id" (str "a") (
              field "conversation_id" (str "") (
                field "sender_id" (str "s") (
                  field "session_hash"
                    (str "0123456789abcdef0123456789abcdef0123456789abcdef0123456789abcdef")
                    (field "run_id" (str "r") (
                      field "event_id" (str "e") (
                        field "is_group" (boolean false) (
                          field "media_paths" (arr (cons (str "/m/f.pdf") nil))
                            (field "scopes" (arr (cons (str "intake") nil)) end)))))))))))))

abbrev sign : String → String
sign text = "bb"

abbrev load : String → Option Json
load text = some (obj payload)

abbrev relative_parts : String → Option (List String)
relative_parts path = some ("f.pdf" ∷ [])

verified :
    verify_trusted_context sign load (some 32) relative_parts 1 100 "aa.bb" (some "intake")
    ≡ ok payload
unfolding verify_trusted_context require_text strip split_dot token_parts timestamp check_times
    check_provider check_texts texts_of is_unrepeated text_list is_version_one check_key
    load_payload is_direct check_lists check_payload is_hex_text get get_field field_names
verified = refl

verify_trusted_context-Verified_example :
    Verified sign load (some 32) relative_parts 1 100 "aa.bb" (some "intake") payload
verify_trusted_context-Verified_example =
    verify_trusted_context-Verified sign load (some 32) relative_parts 1 100 "aa.bb" (some "intake")
      payload verified
