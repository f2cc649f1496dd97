-- ===== src/Trust/Token.antt =====
-- `verify_trusted_context` of vcops.py. A float is given in units of 1 / `unit`.
use venture_capital_lead_res.Prelude.{
  ℕ, ◌+◌, String, code, Bool, true, false, not, ◌&&◌, ◌||◌, Option, none, some, List, [], ◌∷◌,
  str_eq, member, all, any, is_blank, len, length, all_chars, ltb, leb, ◌==◌, if◌then◌else◌,
}
use venture_capital_lead_res.Fail.{
  Failure, uncaught, vcops_error, Result, ok, err, deny_exit, refuse_if, ◌>>=◌, ◌>>◌,
}
use venture_capital_lead_res.Json.{
  ℤ, pos, negsuc, finite, Json, boolean, int, float, str, arr, obj, Items, nil, cons, Fields, get,
  field_names, is_boolean,
}
use venture_capital_lead_res.Validate.Checks.{require_text, is_digit, is_hex_text}

abbrev pub invalid_context : Failure
invalid_context = vcops_error "invalid_trusted_context" 1

-- `[A-Za-z0-9_-]`.
abbrev pub is_base64url : ℕ → Bool
is_base64url c =
    (leb b'a' c && leb c b'z')
    || ((leb b'A' c && leb c b'Z') || (is_digit c || (c == b'_' || c == b'-')))

-- The text before and behind the first dot.
unfoldable pub split_dot : String → Option (String × String)
split_dot String.[] = none
split_dot (String.◌∷◌ c s) =
    let later = split_dot s in
    if code c == b'.'
    then some ("", s)
    else elim later [ none ↦ none | some (before, behind) ↦ some (String.◌∷◌ c before, behind) ]

abbrev pub is_part : String → Bool
is_part part = not (is_blank part) && all_chars is_base64url part

unfoldable pub token_parts : String → Result (String × String)
token_parts rendered = elim (split_dot rendered) [
  | none ↦ err invalid_context
  | some (encoded, signature) ↦
      if is_part encoded && is_part signature then ok (encoded, signature) else err invalid_context
]

abbrev pub context_fields : List String
context_fields =
    "v" ∷ "nonce" ∷ "iat" ∷ "exp" ∷ "provider" ∷ "account_id" ∷ "conversation_id" ∷ "sender_id"
    ∷ "session_hash" ∷ "run_id" ∷ "event_id" ∷ "is_group" ∷ "media_paths" ∷ "scopes" ∷ []

-- A `bool` is an `int` in Python.
unfoldable pub timestamp : Json → Result ℤ
timestamp (int z) = ok z
timestamp (boolean true) = ok (pos 1)
timestamp (boolean false) = ok (pos 0)
timestamp _ = err invalid_context

abbrev pub exceeds : ℤ → ℕ → Bool
exceeds (pos m) n = ltb n m
exceeds (negsuc m) n = false

abbrev pub below : ℤ → ℕ → Bool
below (pos m) n = ltb m n
below (negsuc m) n = true

-- `exp - iat > 1800`.
abbrev pub outlives : ℤ → ℤ → Bool
outlives (pos e) (pos i) = ltb (i + 1800) e
outlives (pos e) (negsuc i) = ltb 1800 (e + i + 1)
outlives (negsuc e) (pos i) = false
outlives (negsuc e) (negsuc i) = ltb (e + 1800) i

unfoldable pub check_times : ℕ → Fields → Result (Unit {0})
check_times now payload = do
  iat ← timestamp (get "iat" payload)
  exp ← timestamp (get "exp" payload)
  refuse_if (exceeds iat (now + 30) || (below exp now || outlives exp iat))
      (vcops_error "expired_trusted_context" 1)

-- A list or an object as provider is unhashable.
unfoldable pub check_provider : Json → Result (Unit {0})
check_provider (str p) =
    refuse_if (not (member p ("slack" ∷ "msteams" ∷ "discord" ∷ "telegram" ∷ []))) invalid_context
check_provider (arr items) = err uncaught
check_provider (obj fields) = err uncaught
check_provider _ = err invalid_context

abbrev pub is_bounded : ℕ → Json → Bool
is_bounded maximum (str s) = not (is_blank s) && leb (len s) maximum
is_bounded maximum _ = false

abbrev pub is_short : ℕ → Json → Bool
is_short maximum (str s) = leb (len s) maximum
is_short maximum _ = false

abbrev pub is_hex : ℕ → Json → Bool
is_hex n (str s) = is_hex_text n s
is_hex n _ = false

unfoldable pub check_texts : Fields → Result (Unit {0})
check_texts payload =
    refuse_if
      (not (
          is_bounded 48 (get "nonce" payload)
          && (is_bounded 256 (get "account_id" payload)
              && (is_bounded 512 (get "sender_id" payload)
                  && (is_bounded 64 (get "session_hash" payload)
                      && (is_bounded 128 (get "run_id" payload)
                          && is_bounded 1024 (get "event_id" payload))))))
        || (not (is_short 1024 (get "conversation_id" payload))
            || (not (is_hex 48 (get "nonce" payload))
                || (not (is_hex 64 (get "session_hash" payload))
                    || not (is_boolean (get "is_group" payload))))))
      invalid_context

-- The texts of a list of texts.
unfoldable pub texts_of : Items → Option (List String)
texts_of nil = some []
texts_of (cons (str s) rest) = elim (texts_of rest) [ none ↦ none | some ts ↦ some (s ∷ ts) ]
texts_of (cons _ rest) = none

unfoldable pub is_unrepeated : List String → Bool
is_unrepeated [] = true
is_unrepeated (t ∷ ts) = not (member t ts) && is_unrepeated ts

unfoldable pub text_list : ℕ → Json → Result (List String)
text_list maximum (arr items) = elim (texts_of items) [
  | none ↦ err invalid_context
  | some ts ↦
      if ltb maximum (length ts) || not (is_unrepeated ts) then err invalid_context else ok ts
]
text_list maximum _ = err invalid_context

abbrev pub lacks_scope : Option String → List String → Bool
lacks_scope none scopes = false
lacks_scope (some scope) scopes = not (member scope scopes)

-- `sign` gives the signature that the key makes of a text, as the token writes it; `load` decodes a
-- payload; `key_length` is that of the key file, if it can be read; `relative_parts` gives the parts
-- of a path below the media root.
module _ (sign : String → String) (load : String → Option Json) (key_length : Option ℕ)
    (relative_parts : String → Option (List String)) (unit : ℕ) where
  unfoldable pub is_version_one : Json → Bool
  is_version_one (int (pos n)) = n == 1
  is_version_one (boolean b) = b
  is_version_one (float (finite (pos n))) = n == unit
  is_version_one _ = false

  unfoldable pub check_key : Result (Unit {0})
  check_key = elim key_length [
    | none ↦ deny_exit "trusted_context_unavailable" 3
    | some n ↦ refuse_if (ltb n 32 || ltb 4096 n) (vcops_error "trusted_context_unavailable" 3)
  ]

  unfoldable pub load_payload : String → Result Fields
  load_payload encoded = elim (load encoded) [
    | some (obj payload) ↦
        if any (λ k. not (member k context_fields)) (field_names payload)
          || (any (λ k. not (member k (field_names payload))) context_fields
              || not (is_version_one (get "v" payload)))
        then err invalid_context
        else ok payload
    | _ ↦ err invalid_context
  ]

  unfoldable pub is_direct : String → Bool
  is_direct path = elim (relative_parts path) [
    | some (part ∷ []) ↦ not (member part ("" ∷ "." ∷ ".." ∷ []))
    | _ ↦ false
  ]

  unfoldable pub check_lists : Option String → Fields → Result (Unit {0})
  check_lists required_scope payload = do
    paths ← text_list 10 (get "media_paths" payload)
    scopes ← text_list 40 (get "scopes" payload)
    refuse_if (not (all is_direct paths)) invalid_context
    refuse_if (lacks_scope required_scope scopes) (vcops_error "trusted_context_scope_denied" 1)

  unfoldable pub check_payload : ℕ → Option String → Fields → Result (Unit {0})
  check_payload now required_scope payload = do
    check_times now payload
    check_provider (get "provider" payload)
    check_texts payload
    check_lists required_scope payload

  unfoldable pub verify_trusted_context : ℕ → String → Option String → Result Fields
  verify_trusted_context now token required_scope = do
    rendered ← require_text (str token) 32768
    (encoded, signature) ← token_parts rendered
    check_key
    refuse_if (not (str_eq signature (sign encoded))) invalid_context
    payload ← load_payload encoded
    check_payload now required_scope payload
    ok payload
