-- ===== src/Trust/Opened.antt =====
-- What the two parts, the key, the payload and the paths of a trusted context satisfy that passes
-- the checks.
use Prim.Native.Char.{Char}
use venture_capital_lead_res.Prelude.{
  any-not-All, ℕ, ◌≤◌, ◌≡◌, ◌≢◌, refl, sym, inl, inr, String, code, Bool, true, false, not, ◌||◌,
  if◌then◌else◌, Option, none, some, List, [], ◌∷◌, All, any, member, arith, ◌==◌, Bool-cases,
  Option-cases,
}
use venture_capital_lead_res.Fail.{ok, err}
use venture_capital_lead_res.Json.{
  pos, finite, Json, boolean, int, float, obj, Fields, get, field_names,
}
use venture_capital_lead_res.Trust.Token.{
  invalid_context, split_dot, token_parts, context_fields, lacks_scope, is_version_one, check_key,
  load_payload, is_direct,
}

-- The version 1, as Python compares it.
pub data IsOne (unit : ℕ) : Json → Type 0 where
  whole_one : IsOne unit (int (pos 1))
  truth_one : IsOne unit (boolean true)
  float_one : IsOne unit (float (finite (pos unit)))

-- A payload with the fourteen fields of a context and no other.
pub record HasFields (payload : Fields) : Type 0 where
  pub present :
      All
        (λ name. member name (field_names payload) ≡ true)
        ("v" ∷ "nonce" ∷ "iat" ∷ "exp" ∷ "provider" ∷ "account_id" ∷ "conversation_id" ∷ "sender_id"
          ∷ "session_hash" ∷ "run_id" ∷ "event_id" ∷ "is_group" ∷ "media_paths" ∷ "scopes" ∷ [])
  pub known :
      All
        (λ name.
          member name (
            "v" ∷ "nonce" ∷ "iat" ∷ "exp" ∷ "provider" ∷ "account_id" ∷ "conversation_id"
            ∷ "sender_id" ∷ "session_hash" ∷ "run_id" ∷ "event_id" ∷ "is_group" ∷ "media_paths"
            ∷ "scopes" ∷ [])
          ≡ true)
        (field_names payload)

-- A text cut at its first dot.
pub data CutAtDot : String → String → String → Type 0 where
  dot_here : (c : Char) (s : String) → code c ≡ b'.' → CutAtDot (String.◌∷◌ c s) "" s
  dot_later :
      (c : Char) {s : String} {before : String} {behind : String}
      → code c ≢ b'.'
      → CutAtDot s before behind
      → CutAtDot (String.◌∷◌ c s) (String.◌∷◌ c before) behind

split_dot-CutAtDot :
    (s before behind : String) → split_dot s ≡ some (before, behind) → CutAtDot s before behind
unfolding split_dot
split_dot-CutAtDot String.[] before behind h = absurd (cc h)
split_dot-CutAtDot (String.◌∷◌ c s) before behind h = elim (Bool-cases (code c == b'.')) [
  | inl dot ↦
      let none_before : "" ≡ before = ground arith in
      let rest : s ≡ behind = ground arith in
      rw (sym none_before, sym rest) (dot_here c s (ground arith))
  | inr other ↦ elim (Option-cases (split_dot s)) [
    | inl missing ↦ absurd (ground arith)
    | inr ((first, last), there) ↦
        let begun : String.◌∷◌ c first ≡ before = ground arith in
        let ended : last ≡ behind = ground arith in
        rw (sym begun, sym ended)
          (dot_later c (λ e. ground arith) (split_dot-CutAtDot s first last there))
  ]
]

pub token_parts-CutAtDot :
    (rendered encoded signature : String)
    → token_parts rendered ≡ ok (encoded, signature)
    → CutAtDot rendered encoded signature
unfolding token_parts
token_parts-CutAtDot rendered encoded signature h = elim (Option-cases (split_dot rendered)) [
  | inl missing ↦ absurd (ground arith)
  | inr ((first, last), there) ↦
      let begun : first ≡ encoded = ground arith in
      let ended : last ≡ signature = ground arith in
      rw (sym begun, sym ended) (split_dot-CutAtDot rendered first last there)
]

pub lacks_scope-member :
    (required_scope : Option String) (scopes : List String) (scope : String)
    → lacks_scope required_scope scopes ≡ false
    → required_scope ≡ some scope
    → member scope scopes ≡ true
lacks_scope-member none scopes scope h e = absurd (cc e)
lacks_scope-member (some s) scopes scope h e =
    let same : s ≡ scope = cc e in
    let held : member s scopes ≡ true = ground arith in rw same at held

accepted :
    (unknown missing version : Bool) (fields payload : Fields)
    → (if unknown || (missing || not version) then err invalid_context else ok fields) ≡ ok payload
    → (unknown ≡ false) × (missing ≡ false) × (version ≡ true) × (fields ≡ payload)
accepted unknown missing version fields payload h =
    (ground arith, ground arith, ground arith, ground arith)

module _ (sign : String → String) (load : String → Option Json) (key_length : Option ℕ)
    (relative_parts : String → Option (List String)) (unit : ℕ) where
  is_version_one-IsOne :
      (v : Json) → is_version_one sign load key_length relative_parts unit v ≡ true → IsOne unit v
  unfolding is_version_one
  is_version_one-IsOne (int (pos n)) h = let same : n ≡ 1 = ground arith in rw same whole_one
  is_version_one-IsOne (boolean true) h = truth_one
  is_version_one-IsOne (boolean false) h = absurd (cc h)
  is_version_one-IsOne (float (finite (pos n))) h =
      let same : n ≡ unit = ground arith in rw same float_one
  is_version_one-IsOne v h = absurd (cc h)

  pub check_key-length :
      check_key sign load key_length relative_parts unit ≡ ok tt
      → (n : ℕ) × (key_length ≡ some n) × (32 ≤ n) × (n ≤ 4096)
  unfolding check_key
  check_key-length h = elim (Option-cases key_length) [
    | inl missing ↦ absurd (ground arith)
    | inr (n, there) ↦ (n, there, ground arith, ground arith)
  ]

  pub load_payload-loaded :
      (encoded : String) (payload : Fields)
      → load_payload sign load key_length relative_parts unit encoded ≡ ok payload
      → (load encoded ≡ some (obj payload)) × HasFields payload × IsOne unit (get "v" payload)
  unfolding load_payload
  load_payload-loaded encoded payload h = by_value (load encoded) refl h
    where
      has_fields :
          (fields : Fields)
          → load encoded ≡ some (obj fields)
          → (any (λ k. not (member k context_fields)) (field_names fields) ≡ false)
            × (any (λ k. not (member k (field_names fields))) context_fields ≡ false)
            × (is_version_one sign load key_length relative_parts unit (get "v" fields) ≡ true)
            × (fields ≡ payload)
          → (load encoded ≡ some (obj payload)) × HasFields payload × IsOne unit (get "v" payload)
      has_fields fields e (known, present, version, same) = rw (sym same) (
        e,
        record {
          present = any-not-All (λ k. member k (field_names fields)) context_fields present;
          known = any-not-All (λ k. member k context_fields) (field_names fields) known;
        },
        is_version_one-IsOne (get "v" fields) version,
      )

      by_value :
          (value : Option Json)
          → load encoded ≡ value
          → (elim value [
            | some (obj fields) ↦
                if any (λ k. not (member k context_fields)) (field_names fields)
                  || (any (λ k. not (member k (field_names fields))) context_fields
                      || not (
                          is_version_one sign load key_length relative_parts unit (get "v" fields)))
                then err invalid_context
                else ok fields
            | _ ↦ err invalid_context
          ])
            ≡ ok payload
          → (load encoded ≡ some (obj payload)) × HasFields payload × IsOne unit (get "v" payload)
      by_value (some (obj fields)) e given = has_fields fields e (
          accepted (any (λ k. not (member k context_fields)) (field_names fields))
            (any (λ k. not (member k (field_names fields))) context_fields)
            (is_version_one sign load key_length relative_parts unit (get "v" fields)) fields
            payload given)
      by_value v e given = absurd (cc given)

  -- A path of one part below the media root.
  pub record IsDirect (path : String) : Type 0 where
    pub part : String
    pub below_root : relative_parts path ≡ some (part ∷ [])
    pub not_empty : part ≢ ""
    pub not_here : part ≢ "."
    pub not_above : part ≢ ".."

  pub is_direct-IsDirect :
      (path : String)
      → is_direct sign load key_length relative_parts unit path ≡ true
      → IsDirect path
  unfolding is_direct
  is_direct-IsDirect path h = by_parts (relative_parts path) refl h
    where
      by_parts :
          (parts : Option (List String))
          → relative_parts path ≡ parts
          → (elim parts [ some (part ∷ []) ↦ not (member part ("" ∷ "." ∷ ".." ∷ [])) | _ ↦ false ])
            ≡ true
          → IsDirect path
      by_parts (some (part ∷ [])) e given = record {
        part = part;
        below_root = e;
        not_empty = λ same. absurd (cc (given, same));
        not_here = λ same. absurd (cc (given, same));
        not_above = λ same. absurd (cc (given, same));
      }
      by_parts parts e given = absurd (cc given)
