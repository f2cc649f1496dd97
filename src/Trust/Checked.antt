-- ===== src/Trust/Checked.antt =====
-- What a payload of a trusted context satisfies that passes the checks of its fields.
use venture_capital_lead_res.Prelude.{
  ℕ, suc, ◌+◌, ◌≤◌, ◌≡◌, refl, sym, inl, inr, String, true, false, some, List, [], ◌∷◌, member,
  length, len, is_blank, arith, Option-cases,
}
use venture_capital_lead_res.Fail.{ok, ok_of}
use venture_capital_lead_res.Json.{
  ℤ, pos, negsuc, Json, boolean, int, str, arr, obj, Items, nil, cons, Fields, get,
}
use venture_capital_lead_res.Validate.Checks.{is_hex_text}
use venture_capital_lead_res.Trust.Token.{
  timestamp, exceeds, below, outlives, check_times, check_provider, is_bounded, is_short, is_hex,
  check_texts, texts_of, is_unrepeated, text_list,
}

-- An integer as Python reads it: a truth value counts as 1 or 0.
pub data IsTime : Json → ℤ → Type 0 where
  whole : (z : ℤ) → IsTime (int z) z
  truth : IsTime (boolean true) (pos 1)
  falsity : IsTime (boolean false) (pos 0)

-- The two times of a payload, at a moment.
pub record IsTimely (now : ℕ) (payload : Fields) : Type 0 where
  pub issued : ℤ
  pub expires : ℕ
  pub issued_is : IsTime (get "iat" payload) issued
  pub expires_is : IsTime (get "exp" payload) (pos expires)
  pub lasting : now ≤ expires
  pub begun : (i : ℕ) → issued ≡ pos i → (i ≤ now + 30) × (expires ≤ i + 1800)
  pub early : (i : ℕ) → issued ≡ negsuc i → expires + suc i ≤ 1800

timestamp-IsTime : (v : Json) (z : ℤ) → timestamp v ≡ ok z → IsTime v z
unfolding timestamp
timestamp-IsTime (int n) z h = let same : n ≡ z = cc h in rw same (whole z)
timestamp-IsTime (boolean true) z h = let same : pos 1 ≡ z = cc h in rw (sym same) truth
timestamp-IsTime (boolean false) z h = let same : pos 0 ≡ z = cc h in rw (sym same) falsity
timestamp-IsTime v z h = absurd (cc h)

times-IsTimely :
    (now : ℕ) (payload : Fields) (iat exp : ℤ)
    → IsTime (get "iat" payload) iat
    → IsTime (get "exp" payload) exp
    → exceeds iat (now + 30) ≡ false
    → below exp now ≡ false
    → outlives exp iat ≡ false
    → IsTimely now payload
times-IsTimely now payload iat (negsuc e) p q a b c = absurd (cc b)
times-IsTimely now payload (pos i) (pos e) p q a b c = record {
  issued = pos i;
  expires = e;
  issued_is = p;
  expires_is = q;
  lasting = ground arith;
  begun = λ j h. let same : i ≡ j = cc h in (ground arith, ground arith);
  early = λ j h. absurd (cc h);
}
times-IsTimely now payload (negsuc i) (pos e) p q a b c = record {
  issued = negsuc i;
  expires = e;
  issued_is = p;
  expires_is = q;
  lasting = ground arith;
  begun = λ j h. absurd (cc h);
  early = λ j h. let same : i ≡ j = cc h in ground arith;
}

pub check_times-IsTimely :
    (now : ℕ) (payload : Fields) → check_times now payload ≡ ok tt → IsTimely now payload
unfolding check_times
check_times-IsTimely now payload h =
    let (iat, p) = ok_of (timestamp (get "iat" payload)) (λ e r. ground arith) in
    let (exp, q) = ok_of (timestamp (get "exp" payload)) (λ e r. ground arith) in
    times-IsTimely now payload iat exp (timestamp-IsTime (get "iat" payload) iat p)
      (timestamp-IsTime (get "exp" payload) exp q) (ground arith) (ground arith) (ground arith)

-- A text that is not empty and not too long.
pub record IsBounded (maximum : ℕ) (v : Json) : Type 0 where
  pub value : String
  pub value_is : v ≡ str value
  pub given : is_blank value ≡ false
  pub short : len value ≤ maximum

is_bounded-IsBounded : (maximum : ℕ) (v : Json) → is_bounded maximum v ≡ true → IsBounded maximum v
is_bounded-IsBounded maximum (str s) h = record {
  value = s;
  value_is = refl;
  given = ground arith;
  short = ground arith;
}
is_bounded-IsBounded maximum v h = absurd (cc h)

is_hex-str :
    (n : ℕ) (v : Json) → is_hex n v ≡ true → (s : String) × (v ≡ str s) × (is_hex_text n s ≡ true)
is_hex-str n (str s) h = (s, refl, h)
is_hex-str n v h = absurd (cc h)

is_short-str : (n : ℕ) (v : Json) → is_short n v ≡ true → (s : String) × (v ≡ str s) × (len s ≤ n)
is_short-str n (str s) h = (s, refl, ground arith)
is_short-str n v h = absurd (cc h)

-- The texts of a payload.
pub record IsNamed (payload : Fields) : Type 0 where
  pub nonce : IsBounded 48 (get "nonce" payload)
  pub account_id : IsBounded 256 (get "account_id" payload)
  pub sender_id : IsBounded 512 (get "sender_id" payload)
  pub session_hash : IsBounded 64 (get "session_hash" payload)
  pub run_id : IsBounded 128 (get "run_id" payload)
  pub event_id : IsBounded 1024 (get "event_id" payload)
  pub conversation_id : (s : String) × (get "conversation_id" payload ≡ str s) × (len s ≤ 1024)
  pub nonce_hex : (s : String) × (get "nonce" payload ≡ str s) × (is_hex_text 48 s ≡ true)
  pub session_hex : (s : String) × (get "session_hash" payload ≡ str s) × (is_hex_text 64 s ≡ true)

pub check_texts-IsNamed : (payload : Fields) → check_texts payload ≡ ok tt → IsNamed payload
unfolding check_texts
check_texts-IsNamed payload h = record {
  nonce = is_bounded-IsBounded 48 (get "nonce" payload) (ground arith);
  account_id = is_bounded-IsBounded 256 (get "account_id" payload) (ground arith);
  sender_id = is_bounded-IsBounded 512 (get "sender_id" payload) (ground arith);
  session_hash = is_bounded-IsBounded 64 (get "session_hash" payload) (ground arith);
  run_id = is_bounded-IsBounded 128 (get "run_id" payload) (ground arith);
  event_id = is_bounded-IsBounded 1024 (get "event_id" payload) (ground arith);
  conversation_id = is_short-str 1024 (get "conversation_id" payload) (ground arith);
  nonce_hex = is_hex-str 48 (get "nonce" payload) (ground arith);
  session_hex = is_hex-str 64 (get "session_hash" payload) (ground arith);
}

pub check_provider-str :
    (v : Json)
    → check_provider v ≡ ok tt
    → (p : String) × (v ≡ str p)
      × (member p ("slack" ∷ "msteams" ∷ "discord" ∷ "telegram" ∷ []) ≡ true)
unfolding check_provider
check_provider-str (str p) h = (p, refl, ground arith)
check_provider-str (arr items) h = absurd (cc h)
check_provider-str (obj fields) h = absurd (cc h)
check_provider-str v h = absurd (cc h)

-- A list of texts.
pub data Texts : Items → List String → Type 0 where
  no_texts : Texts nil []
  one_text :
      {items : Items} {ts : List String} (t : String)
      → Texts items ts
      → Texts (cons (str t) items) (t ∷ ts)

abbrev pub Unrepeated : List String → Type 0
Unrepeated [] = Unit {0}
Unrepeated (t ∷ ts) = (member t ts ≡ false) × Unrepeated ts

-- A list of different texts, at most `maximum` of them.
pub record IsTextList (maximum : ℕ) (v : Json) (ts : List String) : Type 0 where
  pub items : Items
  pub list : v ≡ arr items
  pub texts : Texts items ts
  pub few : length ts ≤ maximum
  pub different : Unrepeated ts

texts_of-Texts : (items : Items) (ts : List String) → texts_of items ≡ some ts → Texts items ts
unfolding texts_of
texts_of-Texts nil [] h = no_texts
texts_of-Texts nil (t ∷ ts) h = absurd (cc h)
texts_of-Texts (cons (str s) rest) ts h = elim (Option-cases (texts_of rest)) [
  | inl missing ↦ absurd (ground arith)
  | inr (us, there) ↦
      let same : (s ∷ us) ≡ ts = ground arith in
      rw (sym same) (one_text s (texts_of-Texts rest us there))
]
texts_of-Texts (cons v rest) ts h = absurd (cc h)

is_unrepeated-Unrepeated : (ts : List String) → is_unrepeated ts ≡ true → Unrepeated ts
unfolding is_unrepeated
is_unrepeated-Unrepeated [] h = tt
is_unrepeated-Unrepeated (t ∷ ts) h = (ground arith, is_unrepeated-Unrepeated ts (ground arith))

pub text_list-IsTextList :
    (maximum : ℕ) (v : Json) (ts : List String)
    → text_list maximum v ≡ ok ts
    → IsTextList maximum v ts
unfolding text_list
text_list-IsTextList maximum (arr items) ts h = elim (Option-cases (texts_of items)) [
  | inl missing ↦ absurd (ground arith)
  | inr (us, there) ↦
      let same : us ≡ ts = ground arith in
      record {
        items = items;
        list = refl;
        texts = texts_of-Texts items ts (ground arith);
        few = ground arith;
        different = is_unrepeated-Unrepeated ts (ground arith);
      }
]
text_list-IsTextList maximum v ts h = absurd (cc h)
