-- ===== src/Runner/Output.antt =====
-- `_last_json_object`, `_redact_output` and `_sensitive_output_key` of vcrun.py.
use venture_capital_lead_res.Prelude.{
  ◌≡◌, refl, sym, ap, ◌∙◌, inl, inr, member, str_eq, str_eq→eq, Bool-cases, String, code, Bool,
  true, false, ◌&&◌, ◌||◌, Option, none, some, List, [], ◌∷◌, any, is_some, is_blank, strip, leb,
  ◌==◌, arith, if◌then◌else◌,
}
use venture_capital_lead_res.Json.{
  Json, null, boolean, int, float, str, arr, obj, Items, nil, cons, Fields,
}

unfoldable pub is_prefix : String → String → Bool
is_prefix String.[] text = true
is_prefix (String.◌∷◌ c s) String.[] = false
is_prefix (String.◌∷◌ c s) (String.◌∷◌ d t) = (code c == code d) && is_prefix s t

-- `marker in text`.
unfoldable pub is_infix : String → String → Bool
is_infix marker String.[] = is_prefix marker ""
is_infix marker (String.◌∷◌ d t) = is_prefix marker (String.◌∷◌ d t) || is_infix marker t

-- `re.sub(r"[^a-z0-9]", "", text)`.
unfoldable pub letters_and_digits : String → String
letters_and_digits String.[] = ""
letters_and_digits (String.◌∷◌ c s) =
    let rest = letters_and_digits s in
    if (leb b'a' (code c) && leb (code c) b'z') || (leb b'0' (code c) && leb (code c) b'9')
    then String.◌∷◌ c rest
    else rest

abbrev pub markers : List String
markers = "password" ∷ "passwd" ∷ "secret" ∷ "token" ∷ "apikey" ∷ "dsn" ∷ "credential" ∷ []

-- `lower` is `str.lower`.
module _ (lower : String → String) where
  unfoldable pub is_sensitive_key : String → Bool
  is_sensitive_key key =
      let normalized = letters_and_digits (lower key) in
      any (λ marker. is_infix marker normalized) markers

  unfoldable mutual
    pub redact : Json → Json
    redact (obj fields) = obj (redact_fields fields)
    redact (arr items) = arr (redact_items items)
    redact value = value

    pub redact_items : Items → Items
    redact_items nil = nil
    redact_items (cons value rest) = cons (redact value) (redact_items rest)

    pub redact_fields : Fields → Fields
    redact_fields Fields.end = Fields.end
    redact_fields (Fields.field key value rest) =
        Fields.field key (if is_sensitive_key key then str "[REDACTED]" else redact value)
          (redact_fields rest)

  -- A name that has a marker of a secret, in whatever case and with whatever between its letters.
  pub record IsSecret (key : String) : Type 0 where
    pub marker : String
    pub is_marker :
        member marker
          ("password" ∷ "passwd" ∷ "secret" ∷ "token" ∷ "apikey" ∷ "dsn" ∷ "credential" ∷ [])
        ≡ true
    pub marked : is_infix marker (letters_and_digits (lower key)) ≡ true

  -- At every depth, what stands under a secret's name is the placeholder.
  mutual
    pub IsRedacted : Json → Type 0
    IsRedacted (obj fields) = AreRedacted fields
    IsRedacted (arr items) = AllRedacted items
    IsRedacted value = Unit

    pub AllRedacted : Items → Type 0
    AllRedacted nil = Unit
    AllRedacted (cons value rest) = IsRedacted value × AllRedacted rest

    pub AreRedacted : Fields → Type 0
    AreRedacted Fields.end = Unit
    AreRedacted (Fields.field key value rest) =
        (IsSecret key → value ≡ str "[REDACTED]") × IsRedacted value × AreRedacted rest

  any-member :
      (p : String → Bool) (marker : String) (ms : List String)
      → member marker ms ≡ true
      → p marker ≡ true
      → any p ms ≡ true
  any-member p marker [] h k = absurd (cc h)
  any-member p marker (m ∷ ms) h k = elim (Bool-cases (str_eq marker m)) [
    | inl same ↦ let this : p m ≡ true = ap p (sym (str_eq→eq marker m same)) ∙ k in ground arith
    | inr other ↦ let later = any-member p marker ms (ground arith) k in ground arith
  ]

  IsSecret-is_sensitive_key : (key : String) → IsSecret key → is_sensitive_key key ≡ true
  unfolding is_sensitive_key
  IsSecret-is_sensitive_key key s =
      any-member (λ marker. is_infix marker (letters_and_digits (lower key))) s.marker markers
        s.is_marker s.marked

  IsRedacted-field :
      (key : String) (value : Json) (b : Bool)
      → IsRedacted value
      → is_sensitive_key key ≡ b
      → (IsSecret key → (if b then str "[REDACTED]" else value) ≡ str "[REDACTED]")
        × IsRedacted (if b then str "[REDACTED]" else value)
  unfolding IsRedacted
  IsRedacted-field key value true r h = (λ k. refl, tt)
  IsRedacted-field key value false r h = (
    λ secret. let sensitive = IsSecret-is_sensitive_key key secret in absurd (cc (h, sensitive)),
    r,
  )

  mutual
    unfolding redact IsRedacted

    IsRedacted-value : (value : Json) → IsRedacted (redact value)
    IsRedacted-value null = tt
    IsRedacted-value (boolean b) = tt
    IsRedacted-value (int z) = tt
    IsRedacted-value (float x) = tt
    IsRedacted-value (str s) = tt
    IsRedacted-value (arr items) = AllRedacted-items items
    IsRedacted-value (obj fields) = AreRedacted-fields fields

    AllRedacted-items : (items : Items) → AllRedacted (redact_items items)
    AllRedacted-items nil = tt
    AllRedacted-items (cons value rest) = (IsRedacted-value value, AllRedacted-items rest)

    pub AreRedacted-fields : (fields : Fields) → AreRedacted (redact_fields fields)
    AreRedacted-fields Fields.end = tt
    AreRedacted-fields (Fields.field key value rest) =
        let (hidden, inside) =
          IsRedacted-field key (redact value) (is_sensitive_key key) (IsRedacted-value value)
            refl in
        (hidden, inside, AreRedacted-fields rest)

-- `raw_decode` is `JSONDecoder().raw_decode`: the value at the front of a text and the text behind
-- it. The offsets of "{" are tried from the last one on.
module _ (raw_decode : String → Option (Json × String)) where
  unfoldable pub object_at : String → Option Fields
  object_at text = elim (raw_decode text) [
    | some (obj fields, behind) ↦ if is_blank (strip behind) then some fields else none
    | _ ↦ none
  ]

  unfoldable pub last_json_object : String → Option Fields
  last_json_object String.[] = none
  last_json_object (String.◌∷◌ c s) =
      let later = last_json_object s in
      if is_some later then later else if code c == b'{' then object_at (String.◌∷◌ c s) else none
