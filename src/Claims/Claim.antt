-- ===== src/Claims/Claim.antt =====
-- `INSERT ... ON CONFLICT (key) DO NOTHING`, then the comparison of the request's digest with that of
-- the row that holds the key: the one shape of the claims of vcops.py.
use venture_capital_lead_res.Prelude.{
  ◌≡◌, refl, sym, ap, ◌∙◌, inl, inr, String, Bool, true, false, Option, none, some, List, [], ◌∷◌,
  ◌++◌, find, str_eq, str_eq→eq, arith, Bool-cases, Option-cases, if◌then◌else◌,
}
use venture_capital_lead_res.Fail.{Result, ok, err, deny_exit}

-- `holds` tests whether a row has the key of another; `hash` is its digest.
module _ {ℓ} {Row : Type ℓ} (holds : Row → Row → Bool) (hash : Row → String) where
  unfoldable pub claim : Row → List Row → Result ((Row × Bool) × List Row)
  claim new rows = elim (find (holds new) rows) [
    | none ↦ ok ((new, false), rows ++ new ∷ [])
    | some prior ↦
        if str_eq (hash prior) (hash new)
        then ok ((prior, true), rows)
        else deny_exit "idempotency_payload_mismatch" 1
  ]

  -- Further claims; a refused one changes nothing.
  abbrev rows_after : Result ((Row × Bool) × List Row) → List Row → List Row
  rows_after (ok (reply, rows')) rows = rows'
  rows_after (err e) rows = rows

  unfoldable pub claim_all : List Row → List Row → List Row
  claim_all [] rows = rows
  claim_all (new ∷ news) rows = claim_all news (rows_after (claim new rows) rows)

  find-append :
      (p : Row → Bool) (rows : List Row) (r new : Row)
      → find p rows ≡ some r
      → find p (rows ++ new ∷ []) ≡ some r
  find-append p [] r new h = absurd (cc h)
  find-append p (q ∷ rows) r new h = elim (Bool-cases (p q)) [
    | inl this ↦ let same : q ≡ r = ground arith in rw this (ap some same)
    | inr other ↦ let later = find-append p rows r new (ground arith) in rw other later
  ]

  find-last :
      (p : Row → Bool) (rows : List Row) (new : Row)
      → p new ≡ true
      → find p rows ≡ none
      → find p (rows ++ new ∷ []) ≡ some new
  find-last p [] new t h = rw t refl
  find-last p (q ∷ rows) new t h = elim (Bool-cases (p q)) [
    | inl this ↦ absurd (ground arith)
    | inr other ↦ let later = find-last p rows new t (ground arith) in rw other later
  ]

  claim-keeps :
      (p : Row → Bool) (new : Row) (rows : List Row) (r : Row)
      → find p rows ≡ some r
      → find p (rows_after (claim new rows) rows) ≡ some r
  unfolding claim
  claim-keeps p new rows r h = by_prior (find (holds new) rows)
    where
      by_prior :
          (prior : Option Row)
          → find p (
              rows_after
                (elim prior [
                  | none ↦ ok ((new, false), rows ++ new ∷ [])
                  | some row ↦
                      if str_eq (hash row) (hash new)
                      then ok ((row, true), rows)
                      else deny_exit "idempotency_payload_mismatch" 1
                ])
                rows)
            ≡ some r
      by_prior none = find-append p rows r new h
      by_prior (some row) = elim (Bool-cases (str_eq (hash row) (hash new))) [
        | inl same ↦ rw same h
        | inr other ↦ rw other h
      ]

  claim_all-keeps :
      (p : Row → Bool) (news rows : List Row) (r : Row)
      → find p rows ≡ some r
      → find p (claim_all news rows) ≡ some r
  unfolding claim_all
  claim_all-keeps p [] rows r h = h
  claim_all-keeps p (new ∷ news) rows r h =
      claim_all-keeps p news (rows_after (claim new rows) rows) r (claim-keeps p new rows r h)

  claim-found :
      (new row : Row) (rows rows' : List Row) (reused : Bool)
      → holds new new ≡ true
      → claim new rows ≡ ok ((row, reused), rows')
      → (find (holds new) rows' ≡ some row) × (hash row ≡ hash new)
  unfolding claim
  claim-found new row rows rows' reused self h = elim (Option-cases (find (holds new) rows)) [
    | inl fresh ↦
        let added : rows' ≡ rows ++ new ∷ [] = ground arith in
        let same : new ≡ row = ground arith in
        (rw added (find-last (holds new) rows new self fresh ∙ ap some same), ap hash (sym same))
    | inr (prior, held) ↦
        let equal : str_eq (hash prior) (hash new) ≡ true = ground arith in
        let kept : rows' ≡ rows = ground arith in
        let same : prior ≡ row = ground arith in
        (
          rw kept (held ∙ ap some same),
          ap hash (sym same) ∙ str_eq→eq (hash prior) (hash new) equal,
        )
  ]

  -- A key that was claimed stays bound to its first row: after any further claims, a claim of the
  -- same key is answered with that row as a repeated one where its digest is that of the first
  -- claim, is refused as a mismatch where it is another, and changes nothing.
  pub claim-again :
      (new again row : Row) (rows rows' news : List Row) (reused : Bool)
      → holds new new ≡ true
      → holds again ≡ holds new
      → claim new rows ≡ ok ((row, reused), rows')
      → claim again (claim_all news rows') ≡ (
          if str_eq (hash new) (hash again)
          then ok ((row, true), claim_all news rows')
          else deny_exit "idempotency_payload_mismatch" 1)
  unfolding claim
  claim-again new again row rows rows' news reused self same h =
      let (found, equal) = claim-found new row rows rows' reused self h in
      let there : find (holds again) (claim_all news rows') ≡ some row =
        ap (λ p. find p (claim_all news rows')) same
        ∙ claim_all-keeps (holds new) news rows' row found in
      rw (claim, there, equal) refl
