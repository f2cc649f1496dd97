-- ===== src/Trust/Verified.antt =====
-- What a token that `verify_trusted_context` accepts satisfies.
use venture_capital_lead_res.Prelude.{
  All-mapped, all-All, ℕ, ◌≤◌, ◌≡◌, ap, ◌∙◌, String, true, false, Option, some, List, [], ◌∷◌, All,
  all, member, str_eq, str_eq→eq, arith,
}
use venture_capital_lead_res.Fail.{ok, ok_of}
use venture_capital_lead_res.Json.{Json, str, obj, Fields, get}
use venture_capital_lead_res.Validate.Checks.{require_text}
use venture_capital_lead_res.Trust.Token.{
  token_parts, text_list, lacks_scope, check_key, load_payload, is_direct, check_times,
  check_provider, check_texts, check_lists, check_payload, verify_trusted_context,
}
use venture_capital_lead_res.Trust.Checked.{
  IsTimely, check_times-IsTimely, check_provider-str, IsNamed, check_texts-IsNamed, IsTextList,
  text_list-IsTextList,
}
use venture_capital_lead_res.Trust.Opened.{
  IsOne, HasFields, CutAtDot, token_parts-CutAtDot, lacks_scope-member, check_key-length,
  load_payload-loaded, IsDirect, is_direct-IsDirect,
}

module _ (sign : String → String) (load : String → Option Json) (key_length : Option ℕ)
    (relative_parts : String → Option (List String)) (unit now : ℕ) (token : String)
    (required_scope : Option String) (payload : Fields) where
  -- An accepted token: its two parts, the key, and what its payload says.
  pub record Verified : Type 0 where
    pub rendered : String
    pub encoded : String
    pub signature : String
    pub scopes : List String
    pub paths : List String
    pub stripped : require_text (str token) 32768 ≡ ok rendered
    pub parts : CutAtDot rendered encoded signature
    pub keyed : (n : ℕ) × (key_length ≡ some n) × (32 ≤ n) × (n ≤ 4096)
    pub signed : signature ≡ sign encoded
    pub decoded : load encoded ≡ some (obj payload)
    pub fields : HasFields payload
    pub version : IsOne unit (get "v" payload)
    pub timely : IsTimely now payload
    pub provider :
        (p : String) × (get "provider" payload ≡ str p)
        × (member p ("slack" ∷ "msteams" ∷ "discord" ∷ "telegram" ∷ []) ≡ true)
    pub named : IsNamed payload
    pub scopes_are : IsTextList 40 (get "scopes" payload) scopes
    pub scoped : (scope : String) → required_scope ≡ some scope → member scope scopes ≡ true
    pub paths_are : IsTextList 10 (get "media_paths" payload) paths
    pub direct : All (IsDirect sign load key_length relative_parts unit) paths

  check_lists-Scoped :
      check_lists sign load key_length relative_parts unit required_scope payload ≡ ok tt
      → (paths : List String) × (scopes : List String) × (text_list 10 (get "media_paths" payload)
          ≡ ok paths)
        × (text_list 40 (get "scopes" payload) ≡ ok scopes)
        × (all (is_direct sign load key_length relative_parts unit) paths ≡ true)
        × (lacks_scope required_scope scopes ≡ false)
  unfolding check_lists
  check_lists-Scoped h =
      let (paths, p) = ok_of (text_list 10 (get "media_paths" payload)) (λ e r. ground arith) in
      let (scopes, q) = ok_of (text_list 40 (get "scopes" payload)) (λ e r. ground arith) in
      (paths, scopes, p, q, ground arith, ground arith)

  check_payload-passed :
      check_payload sign load key_length relative_parts unit now required_scope payload ≡ ok tt
      → (check_times now payload ≡ ok tt)
        × (check_provider (get "provider" payload) ≡ ok tt)
        × (check_texts payload ≡ ok tt)
        × (check_lists sign load key_length relative_parts unit required_scope payload ≡ ok tt)
  unfolding check_payload
  check_payload-passed h = (ground arith, ground arith, ground arith, ground arith)

  verify_trusted_context-steps :
      verify_trusted_context sign load key_length relative_parts unit now token required_scope
        ≡ ok payload
      → (rendered : String) × (encoded : String) × (signature : String) × (require_text
            (str token)
            32768
          ≡ ok rendered)
        × (token_parts rendered ≡ ok (encoded, signature))
        × (check_key sign load key_length relative_parts unit ≡ ok tt)
        × (str_eq signature (sign encoded) ≡ true)
        × (load_payload sign load key_length relative_parts unit encoded ≡ ok payload)
        × (check_payload sign load key_length relative_parts unit now required_scope payload
            ≡ ok tt)
  unfolding verify_trusted_context
  verify_trusted_context-steps h =
      let (rendered, p) = ok_of (require_text (str token) 32768) (λ e r. ground arith) in
      let ((encoded, signature), q) = ok_of (token_parts rendered) (λ e r. ground arith) in
      let (loaded, r) =
        ok_of (load_payload sign load key_length relative_parts unit encoded)
          (λ e r. ground arith) in
      let same : loaded ≡ payload = ground arith in
      (rendered, encoded, signature, p, q, ground arith, ground arith, r ∙ ap ok same, ground arith)

  -- A token is accepted only if it consists of two parts around a dot, the second is the signature
  -- of the first under a key of 32 to 4096 bytes, and the payload that is returned is what the
  -- first part decodes to. That payload has exactly the fields of a context, of version 1; it was
  -- issued at most 30 seconds in the future, has not expired and lives 1800 seconds at most; its
  -- provider is one of the four channels and its names are texts within their bounds, with a nonce
  -- and a session hash in hexadecimal; it has at most 40 different scopes, with the one that is
  -- asked for, and at most 10 different media paths, each of one part directly below the root.
  pub verify_trusted_context-Verified :
      verify_trusted_context sign load key_length relative_parts unit now token required_scope
        ≡ ok payload
      → Verified
  verify_trusted_context-Verified h =
      let (rendered, encoded, signature, p, q, key, same, loaded, checked) =
        verify_trusted_context-steps h in
      let (times, provided, texts, lists) = check_payload-passed checked in
      let (paths, scopes, a, b, c, d) = check_lists-Scoped lists in
      let (decoded, fields, version) =
        load_payload-loaded sign load key_length relative_parts unit encoded payload loaded in
      record {
        rendered = rendered;
        encoded = encoded;
        signature = signature;
        scopes = scopes;
        paths = paths;
        stripped = p;
        parts = token_parts-CutAtDot rendered encoded signature q;
        keyed = check_key-length sign load key_length relative_parts unit key;
        signed = str_eq→eq signature (sign encoded) same;
        decoded = decoded;
        fields = fields;
        version = version;
        timely = check_times-IsTimely now payload times;
        provider = check_provider-str (get "provider" payload) provided;
        named = check_texts-IsNamed payload texts;
        scopes_are = text_list-IsTextList 40 (get "scopes" payload) scopes b;
        scoped = λ scope. lacks_scope-member required_scope scopes scope d;
        paths_are = text_list-IsTextList 10 (get "media_paths" payload) paths a;
        direct =
            All-mapped (is_direct-IsDirect sign load key_length relative_parts unit) paths
              (all-All (is_direct sign load key_length relative_parts unit) paths c);
      }
