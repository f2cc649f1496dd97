-- ===== src/Entities/Outcomes.antt =====
-- What the policy of entity resolution guarantees.
use venture_capital_lead_res.Prelude.{
  ℕ, zero, suc, ◌≡◌, ◌≢◌, refl, sym, ◌∙◌, String, Bool, true, false, some, List, [], ◌∷◌, All,
  member, any, is_some, is_empty, ltb, ◌==◌, arith, if◌then◌else◌,
}
use venture_capital_lead_res.Entities.Resolve.{
  Match, Identity, new_allowed, creation_purposes, strong_methods, insert_company, companies,
  resolve_single, resolve_unmatched, resolve_companies, decide_entity_resolution,
}

-- If all keys are one company, then so is each match.
insert_company-All :
    (k c : ℕ) (ds : List ℕ) → All (λ d. d ≡ k) (insert_company c ds) → (c ≡ k) × All (λ d. d ≡ k) ds
unfolding insert_company
insert_company-All k c [] h = (h.0, tt)
insert_company-All k c (d ∷ ds) h = by_order (insert_company-All k c ds) (c == d) (ltb c d) refl h
  where
    by_order :
        (rest : All (λ d. d ≡ k) (insert_company c ds) → (c ≡ k) × All (λ d. d ≡ k) ds)
        (same less : Bool)
        → (c == d) ≡ same
        → All
            (λ d. d ≡ k)
            (if same then d ∷ ds else if less then c ∷ d ∷ ds else d ∷ insert_company c ds)
        → (c ≡ k) × All (λ d. d ≡ k) (d ∷ ds)
    by_order rest true less e (p, ps) = (ground arith, (p, ps))
    by_order rest false true e (p, ps) = (p, ps)
    by_order rest false false e (p, ps) = let (q, qs) = rest ps in (q, (p, qs))

companies-All :
    (k : ℕ) (ms : List Match)
    → All (λ d. d ≡ k) (companies ms)
    → All (λ (m : Match). m.company_id ≡ k) ms
unfolding companies
companies-All k [] h = tt
companies-All k (m ∷ ms) h =
    let (first, rest) = insert_company-All k m.company_id (companies ms) h in
    (first, companies-All k ms rest)

-- Why a resolution is `existing`.
pub record Resolved (exact : List Match) (identity : Identity) (purpose : String) (denied_count : ℕ)
    (company : ℕ) : Type 0 where
  pub allowed : denied_count ≡ 0
  pub matched : is_empty exact ≡ false
  pub agreed : All (λ (m : Match). m.company_id ≡ company) exact
  pub strong :
      member purpose creation_purposes ≡ true
      → is_some identity.domain ≡ true
      → any (λ (m : Match). member m.match_method strong_methods) exact ≡ true

-- Why one is `new_allowed`.
pub record Unmatched (exact fuzzy : List Match) (identity : Identity) (purpose : String)
    (denied_count : ℕ) : Type 0 where
  pub allowed : denied_count ≡ 0
  pub no_exact : exact ≡ []
  pub no_fuzzy : fuzzy ≡ []
  pub creating : member purpose creation_purposes ≡ true
  pub named : is_some identity.name ≡ true
  pub located : is_some identity.domain ≡ true

resolve_single-matched :
    (m : Match) (ms : List Match) (identity : Identity) (purpose : String) (c : ℕ)
    → (resolve_single m ms identity purpose).matched_company_id ≡ some c
    → (m.company_id ≡ c)
      × (member purpose creation_purposes ≡ true
          → is_some identity.domain ≡ true
          → any (λ (k : Match). member k.match_method strong_methods) (m ∷ ms) ≡ true)
unfolding resolve_single
resolve_single-matched m ms identity purpose c h = (ground arith, λ p d. ground arith)

resolve_unmatched-matched :
    (fuzzy : List Match) (identity : Identity) (purpose : String) (c : ℕ)
    → (resolve_unmatched fuzzy identity purpose).matched_company_id ≢ some c
unfolding resolve_unmatched
resolve_unmatched-matched fuzzy identity purpose c h = ground arith

resolve_unmatched-new :
    (fuzzy : List Match) (identity : Identity) (purpose : String)
    → (resolve_unmatched fuzzy identity purpose).outcome ≡ new_allowed
    → (fuzzy ≡ [])
      × (member purpose creation_purposes ≡ true)
      × (is_some identity.name ≡ true)
      × (is_some identity.domain ≡ true)
unfolding resolve_unmatched
resolve_unmatched-new fuzzy identity purpose h = ground arith

resolve_companies-matched :
    (ks : List ℕ) (m : Match) (ms : List Match) (identity : Identity) (purpose : String) (c : ℕ)
    → companies (m ∷ ms) ≡ ks
    → (resolve_companies ks m ms identity purpose).matched_company_id ≡ some c
    → Resolved (m ∷ ms) identity purpose 0 c
unfolding resolve_companies
resolve_companies-matched [] m ms identity purpose c e h = absurd (ground arith)
resolve_companies-matched (k ∷ j ∷ ks) m ms identity purpose c e h = absurd (ground arith)
resolve_companies-matched (k ∷ []) m ms identity purpose c e h =
    let (first, strong) = resolve_single-matched m ms identity purpose c h in
    let same : k ≡ c = sym (companies-All k (m ∷ ms) (rw e (refl, tt))).0 ∙ first in
    let agreed = companies-All c (m ∷ ms) (rw e (same, tt)) in
    record { allowed = refl; matched = refl; agreed = agreed; strong = strong }

resolve_companies-new :
    (ks : List ℕ) (m : Match) (ms : List Match) (identity : Identity) (purpose : String)
    → (resolve_companies ks m ms identity purpose).outcome ≢ new_allowed
unfolding resolve_companies resolve_single
resolve_companies-new [] m ms identity purpose h = ground arith
resolve_companies-new (k ∷ []) m ms identity purpose h = ground arith
resolve_companies-new (k ∷ j ∷ ks) m ms identity purpose h = ground arith

-- A resolution names a company only if no identity was denied, there are exact matches, all of
-- them are of that company, and, where a company with a domain is to be created, one of them
-- matched by more than the name.
pub decide_entity_resolution-Resolved :
    (exact fuzzy : List Match) (identity : Identity) (purpose : String) (denied_count c : ℕ)
    → (decide_entity_resolution exact fuzzy identity purpose denied_count).matched_company_id
      ≡ some c
    → Resolved exact identity purpose denied_count c
unfolding decide_entity_resolution
decide_entity_resolution-Resolved exact fuzzy identity purpose (suc n) c h = absurd (ground arith)
decide_entity_resolution-Resolved [] fuzzy identity purpose zero c h =
    absurd (resolve_unmatched-matched fuzzy identity purpose c h)
decide_entity_resolution-Resolved (m ∷ ms) fuzzy identity purpose zero c h =
    resolve_companies-matched (companies (m ∷ ms)) m ms identity purpose c refl h

-- A new company is allowed only if no identity was denied, there is neither an exact nor a fuzzy
-- match, and the identity to create gives a name and a domain.
pub decide_entity_resolution-Unmatched :
    (exact fuzzy : List Match) (identity : Identity) (purpose : String) (denied_count : ℕ)
    → (decide_entity_resolution exact fuzzy identity purpose denied_count).outcome ≡ new_allowed
    → Unmatched exact fuzzy identity purpose denied_count
unfolding decide_entity_resolution
decide_entity_resolution-Unmatched exact fuzzy identity purpose (suc n) h = absurd (ground arith)
decide_entity_resolution-Unmatched [] fuzzy identity purpose zero h =
    let (a, b, c, d) = resolve_unmatched-new fuzzy identity purpose h in
    record { allowed = refl; no_exact = refl; no_fuzzy = a; creating = b; named = c; located = d }
decide_entity_resolution-Unmatched (m ∷ ms) fuzzy identity purpose zero h =
    absurd (resolve_companies-new (companies (m ∷ ms)) m ms identity purpose h)
