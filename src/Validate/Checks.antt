-- ===== src/Validate/Checks.antt =====
-- `require_text`, the SHA-256 shape, `_positive_bigint` and `_nonnegative_bigint` of vcops.py.
use venture_capital_lead_res.Prelude.{
  ℕ, ◌+◌, ◌-◌, ◌*◌, String, code, Bool, false, not, ◌&&◌, ◌||◌, Option, none, some, ltb, leb, ◌==◌,
  len, is_blank, strip, all_chars, if◌then◌else◌,
}
use venture_capital_lead_res.Fail.{Result, ok, deny, ◌>>=◌}
use venture_capital_lead_res.Json.{Json, null, str, obj, Fields}

bounded_text : ℕ → String → Result String
bounded_text maximum text =
    if is_blank text
    then deny "missing_value"
    else if ltb maximum (len text)
    then deny "value_too_long"
    else ok text

unfoldable pub require_text : Json → ℕ → Result String
unfolding bounded_text
require_text null maximum = bounded_text maximum ""
require_text (str value) maximum = bounded_text maximum (strip value)
require_text _ maximum = deny "invalid_text"

-- `re.fullmatch(r"[0-9a-f]{n}", text)`.
abbrev pub is_lower_hex : ℕ → Bool
is_lower_hex c = (leb b'0' c && leb c b'9') || (leb b'a' c && leb c b'f')

unfoldable pub is_hex_text : ℕ → String → Bool
is_hex_text n text = len text == n && all_chars is_lower_hex text

abbrev pub is_digit : ℕ → Bool
is_digit c = leb b'0' c && leb c b'9'

-- `[A-Za-z0-9]`.
abbrev pub is_alnum : ℕ → Bool
is_alnum c = (leb b'a' c && leb c b'z') || ((leb b'A' c && leb c b'Z') || is_digit c)

-- `re.fullmatch(r"[A-Za-z0-9][A-Za-z0-9._:@/-]{2,199}", text)`.
unfoldable pub is_operator_id : String → Bool
is_operator_id String.[] = false
is_operator_id (String.◌∷◌ c s) =
    is_alnum (code c)
    && (all_chars
          (λ k.
            is_alnum k
            || (k == b'.' || (k == b'_' || (k == b':' || (k == b'@' || (k == b'/' || k == b'-'))))))
          s
        && (leb 2 (len s) && leb (len s) 199))

-- `re.fullmatch(r"[1-9][0-9]{0,18}", text)`.
unfoldable pub is_positive_shape : String → Bool
is_positive_shape String.[] = false
is_positive_shape (String.◌∷◌ c s) =
    (leb b'1' (code c) && leb (code c) b'9') && (all_chars is_digit s && leb (len s) 18)

-- `re.fullmatch(r"0|[1-9][0-9]{0,18}", text)`.
unfoldable pub is_nonnegative_shape : String → Bool
unfolding is_positive_shape
is_nonnegative_shape text = is_zero text || is_positive_shape text
  where
    is_zero : String → Bool
    is_zero String.[] = false
    is_zero (String.◌∷◌ c s) = code c == b'0' && is_blank s

-- `int(text)` of a text of digits.
unfoldable pub digits_value : ℕ → String → ℕ
digits_value acc String.[] = acc
digits_value acc (String.◌∷◌ c s) = digits_value (acc * 10 + (code c - b'0')) s

abbrev pub bigint_max : ℕ
bigint_max = 9_223_372_036_854_775_807

unfoldable pub bounded_bigint : String → Result (Option ℕ)
unfolding digits_value
bounded_bigint rendered =
    let parsed = digits_value 0 rendered in
    if ltb bigint_max parsed then deny "invalid_identifier" else ok (some parsed)

unfoldable pub positive_bigint : Option String → Result (Option ℕ)
unfolding is_positive_shape bounded_bigint
positive_bigint none = ok none
positive_bigint (some rendered) =
    if not (is_positive_shape rendered) then deny "invalid_identifier" else bounded_bigint rendered

unfoldable pub nonnegative_bigint : Option String → Result (Option ℕ)
unfolding is_nonnegative_shape bounded_bigint
nonnegative_bigint none = ok none
nonnegative_bigint (some rendered) =
    if not (is_nonnegative_shape rendered)
    then deny "invalid_identifier"
    else bounded_bigint rendered

-- What `json.loads` with `_unique_json_object` makes of an argument: it is None, it is no JSON
-- that the decoder accepts, or it has a value.
pub data Loaded : Type 0 where
  absent unreadable : Loaded
  loaded : Json → Loaded

-- `parse_json(value, default={}, expected=dict)`.
unfoldable pub parse_json_object : Loaded → Result Fields
parse_json_object absent = ok Fields.end
parse_json_object unreadable = deny "invalid_json"
parse_json_object (loaded (obj fields)) = ok fields
parse_json_object (loaded _) = deny "invalid_json_type"

-- `_require_input_digest`.
unfoldable pub require_input_digest : Option String → Result (Option String)
require_input_digest none = ok none
require_input_digest (some value) = do
  digest ← require_text (str value) 64
  if is_hex_text 64 digest then ok (some digest) else deny "invalid_hash"
