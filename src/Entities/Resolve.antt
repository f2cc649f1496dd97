-- ===== src/Entities/Resolve.antt =====
-- `decide_entity_resolution` and `decide_external_research` of vcops.py. The texts under "reasons"
-- and "policy_version" are constants and not modelled; a confidence is in thousandths.
use venture_capital_lead_res.Prelude.{
  ℕ, String, Bool, true, false, not, ◌&&◌, Option, none, some, List, [], ◌∷◌, ◌++◌, member, any,
  is_some, is_empty, ltb, ◌==◌, if◌then◌else◌,
}

pub record Match : Type 0 where
  pub company_id : ℕ
  pub match_method : String
  pub confidence : ℕ

-- The fields of the identity that the policy reads, where they are true as conditions.
pub record Identity : Type 0 where
  pub name : Option String
  pub domain : Option String

pub data Outcome : Type 0 where
  denied existing human_review new_allowed no_match : Outcome

pub record Resolution : Type 0 where
  pub outcome : Outcome
  pub matched_company_id : Option ℕ
  pub match_method : Option String
  pub confidence : Option ℕ
  pub candidates : List Match
  pub auto_merge : Bool

abbrev pub creation_purposes : List String
creation_purposes = "company_creation" ∷ []

abbrev pub strong_methods : List String
strong_methods =
    "company_id" ∷ "lead_id" ∷ "artifact_sha256" ∷ "external_id" ∷ "channel_identity"
    ∷ "verified_domain" ∷ "claimed_domain" ∷ "canonical_domain_legacy" ∷ []

-- `max(matches, key=confidence)`: the first of the greatest.
unfoldable pub strongest : Match → List Match → Match
strongest best [] = best
strongest best (m ∷ ms) = strongest (if ltb best.confidence m.confidence then m else best) ms

-- The keys of `by_company`, sorted.
unfoldable pub insert_company : ℕ → List ℕ → List ℕ
insert_company c [] = c ∷ []
insert_company c (d ∷ ds) =
    let rest = insert_company c ds in
    if c == d then d ∷ ds else if ltb c d then c ∷ d ∷ ds else d ∷ rest

unfoldable pub companies : List Match → List ℕ
companies [] = []
companies (m ∷ ms) = insert_company m.company_id (companies ms)

-- `by_company[company]`.
unfoldable pub matches_of : ℕ → List Match → List Match
matches_of c [] = []
matches_of c (m ∷ ms) = let rest = matches_of c ms in if m.company_id == c then m ∷ rest else rest

unfoldable pub strongest_of : List Match → List Match
strongest_of [] = []
strongest_of (m ∷ ms) = strongest m ms ∷ []

unfoldable pub candidates_of : List ℕ → List Match → List Match
candidates_of [] ms = []
candidates_of (c ∷ cs) ms = strongest_of (matches_of c ms) ++ candidates_of cs ms

abbrev pub review : String → List Match → Resolution
review method candidates = record {
  outcome = human_review;
  matched_company_id = none;
  match_method = some method;
  confidence = none;
  candidates = candidates;
  auto_merge = false;
}

-- All exact matches are of one company; `m` is the first.
unfoldable pub resolve_single : Match → List Match → Identity → String → Resolution
resolve_single m ms identity purpose =
    let best = strongest m ms in
    if member purpose creation_purposes
      && (is_some identity.domain
          && not (any (λ (k : Match). member k.match_method strong_methods) (m ∷ ms)))
    then review "name_only_with_unmatched_domain" (best ∷ [])
    else record {
      outcome = existing;
      matched_company_id = some m.company_id;
      match_method = some best.match_method;
      confidence = some best.confidence;
      candidates = [];
      auto_merge = false;
    }

-- There is no exact match.
unfoldable pub resolve_unmatched : List Match → Identity → String → Resolution
resolve_unmatched fuzzy identity purpose =
    if not (is_empty fuzzy)
    then review "fuzzy_candidate" fuzzy
    else if member purpose creation_purposes && (is_some identity.name && is_some identity.domain)
    then record {
      outcome = new_allowed;
      matched_company_id = none;
      match_method = some "exact_search_exhausted";
      confidence = some 1000;
      candidates = [];
      auto_merge = false;
    }
    else record {
      outcome = no_match;
      matched_company_id = none;
      match_method = some "exact_search_exhausted";
      confidence = none;
      candidates = [];
      auto_merge = false;
    }

-- By the number of the companies of the exact matches.
unfoldable pub resolve_companies : List ℕ → Match → List Match → Identity → String → Resolution
resolve_companies (c ∷ []) m ms identity purpose = resolve_single m ms identity purpose
resolve_companies cs m ms identity purpose =
    review "conflicting_exact_identifiers" (candidates_of cs (m ∷ ms))

unfoldable pub decide_entity_resolution :
    List Match → List Match → Identity → String → ℕ → Resolution
decide_entity_resolution exact fuzzy identity purpose denied_exact_count =
    if not (denied_exact_count == 0)
    then record {
      outcome = denied;
      matched_company_id = none;
      match_method = none;
      confidence = none;
      candidates = [];
      auto_merge = false;
    }
    else elim exact [
      | [] ↦ resolve_unmatched fuzzy identity purpose
      | m ∷ ms ↦ resolve_companies (companies (m ∷ ms)) m ms identity purpose
    ]

abbrev pub is_existing : Outcome → Bool
is_existing existing = true
is_existing _ = false

-- `allowed` of `decide_external_research`.
unfoldable pub decide_external_research : String → Outcome → Option String → Bool
decide_external_research purpose outcome classification =
    if not (is_existing outcome)
    then false
    else if not (member purpose ("research" ∷ "qualification" ∷ "memo" ∷ []))
    then false
    else elim classification [ none ↦ false | some c ↦ member c ("public" ∷ "internal" ∷ []) ]
