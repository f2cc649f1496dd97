-- ===== src/Approvals/Cleared.antt =====
-- What the erasure of a lead leaves: no live fact of it, and nothing in the rows it adds.
use venture_capital_lead_res.Prelude.{
  ℕ, suc, ◌≡◌, refl, sym, ap, ◌∙◌, inl, inr, Bool, true, false, none, some, List, [], ◌∷◌, ◌++◌,
  All, any, ◌==◌, arith, Bool-cases, Option-cases,
}
use venture_capital_lead_res.Fail.{ok, ok_of}
use venture_capital_lead_res.Validate.Checks.{positive_bigint}
use venture_capital_lead_res.Approvals.Rows.{FactRow, LeadRow, Ledger}
use venture_capital_lead_res.Approvals.Sql.{
  replaces, is_superseded, is_live, tombstone, tombstones, archive, erase_lead,
}
use venture_capital_lead_res.Approvals.Handlers.{
  Keys, EraseArgs, Erasure, lead_input, erase_input, cmd_data_erase_lead,
}
use venture_capital_lead_res.Approvals.Erase.{cmd_data_erase_lead-Erased}

any-left {ℓ} :
    {A : Type ℓ} (p : A → Bool) (xs ys : List A) → any p xs ≡ true → any p (xs ++ ys) ≡ true
any-left p [] ys h = absurd (cc h)
any-left p (x ∷ xs) ys h = elim (Bool-cases (p x)) [
  | inl this ↦ ground arith
  | inr other ↦ let later = any-left p xs ys (ground arith) in ground arith
]

any-right {ℓ} :
    {A : Type ℓ} (p : A → Bool) (xs ys : List A) → any p ys ≡ true → any p (xs ++ ys) ≡ true
any-right p [] ys h = h
any-right p (x ∷ xs) ys h = let later = any-right p xs ys h in ground arith

All-++ {ℓ κ} :
    {A : Type ℓ} (P : A → Type κ) (xs ys : List A) → All P xs → All P ys → All P (xs ++ ys)
All-++ P [] ys h k = k
All-++ P (x ∷ xs) ys (h, hs) k = (h, All-++ P xs ys hs k)

-- Each live fact among `fs` is superseded by its tombstone, in any table that holds the tombstones.
module _ (lead : ℕ) (all_facts : List FactRow) where
  tombstones-replaces :
      (next : ℕ) (fs whole : List FactRow)
      → ((id : ℕ)
          → any (replaces id) (tombstones lead all_facts next fs) ≡ true
          → any (replaces id) whole ≡ true)
      → All (λ f. is_live lead all_facts f ≡ true → any (replaces f.id) whole ≡ true) fs
  unfolding tombstones tombstone
  tombstones-replaces next [] whole sub = tt
  tombstones-replaces next (f ∷ fs) whole sub = elim (Bool-cases (is_live lead all_facts f)) [
    | inl live ↦ (
      λ h. sub f.id (ground arith),
      tombstones-replaces (suc next) fs whole (λ id h. sub id (ground arith)),
    )
    | inr dead ↦ (
      λ h. absurd (cc (sym dead ∙ h)),
      tombstones-replaces next fs whole (λ id h. sub id (ground arith)),
    )
  ]

  -- A tombstone is retracted and carries no value.
  tombstones-empty :
      (next : ℕ) (fs : List FactRow)
      → All (λ f. (f.is_retracted ≡ true) × (f.values ≡ none)) (tombstones lead all_facts next fs)
  unfolding tombstones tombstone
  tombstones-empty next [] = tt
  tombstones-empty next (f ∷ fs) = elim (Bool-cases (is_live lead all_facts f)) [
    | inl live ↦ rw live ((refl, refl), tombstones-empty (suc next) fs)
    | inr dead ↦ rw dead (tombstones-empty next fs)
  ]

  cleared_one :
      (new : List FactRow) (f : FactRow)
      → (is_live lead all_facts f ≡ true → any (replaces f.id) (all_facts ++ new) ≡ true)
      → is_live lead (all_facts ++ new) f ≡ false
  unfolding is_live is_superseded
  cleared_one new f replaced = elim (Bool-cases (any (replaces f.id) all_facts)) [
    | inl before ↦ let still = any-left (replaces f.id) all_facts new before in ground arith
    | inr fresh ↦ ground arith
  ]

  All-cleared :
      (new fs : List FactRow)
      → All
          (λ f. is_live lead all_facts f ≡ true → any (replaces f.id) (all_facts ++ new) ≡ true)
          fs
      → All (λ f. is_live lead (all_facts ++ new) f ≡ false) fs
  All-cleared new [] h = tt
  All-cleared new (f ∷ fs) (h, hs) = (cleared_one new f h, All-cleared new fs hs)

  retracted-dead :
      (whole : List FactRow) (f : FactRow) → f.is_retracted ≡ true → is_live lead whole f ≡ false
  unfolding is_live
  retracted-dead whole f h = ground arith

  All-retracted :
      (whole new : List FactRow)
      → All (λ f. (f.is_retracted ≡ true) × (f.values ≡ none)) new
      → All (λ f. is_live lead whole f ≡ false) new
  All-retracted whole [] h = tt
  All-retracted whole (f ∷ fs) ((h, e), hs) = (retracted-dead whole f h, All-retracted whole fs hs)

archive-archived :
    (lead : ℕ) (rs : List LeadRow)
    → All (λ r. (r.id == lead) ≡ true → r.status ≡ "archived") (archive lead rs)
unfolding archive
archive-archived lead [] = tt
archive-archived lead (r ∷ rs) = elim (Bool-cases (r.id == lead)) [
  | inl this ↦ rw this ((λ h. refl), archive-archived lead rs)
  | inr other ↦ rw other ((λ h. absurd (cc (sym other ∙ h))), archive-archived lead rs)
]

-- What is gone of a lead between two states: none of its facts is live, the added rows are retracted
-- and hold no value, and its row is archived.
pub record Cleared (lead : ℕ) (db db' : Ledger) : Type 0 where
  pub no_live : All (λ f. is_live lead db'.facts f ≡ false) db'.facts
  pub added : List FactRow
  pub appended : db'.facts ≡ db.facts ++ added
  pub valueless : All (λ f. (f.is_retracted ≡ true) × (f.values ≡ none)) added
  pub archived : All (λ r. (r.id == lead) ≡ true → r.status ≡ "archived") db'.leads

erase_lead-result :
    (lead n : ℕ) (db db' : Ledger)
    → erase_lead lead db ≡ ok (n, db')
    → (db'.facts ≡ db.facts ++ tombstones lead db.facts db.next_fact db.facts)
      × (db'.leads ≡ archive lead db.leads)
unfolding erase_lead
erase_lead-result lead n db db' h = ground arith

erase_lead-Cleared :
    (lead n : ℕ) (db db' : Ledger) → erase_lead lead db ≡ ok (n, db') → Cleared lead db db'
erase_lead-Cleared lead n db db' h =
    let new = tombstones lead db.facts db.next_fact db.facts in
    let (facts, leads) = erase_lead-result lead n db db' h in
    let empty = tombstones-empty lead db.facts db.next_fact db.facts in
    let dead : All (λ f. is_live lead (db.facts ++ new) f ≡ false) (db.facts ++ new) =
      All-++ (λ f. is_live lead (db.facts ++ new) f ≡ false) db.facts new
        (All-cleared lead db.facts new db.facts (
          tombstones-replaces lead db.facts db.next_fact db.facts (db.facts ++ new)
            (λ id. any-right (replaces id) db.facts new)))
        (All-retracted lead db.facts (db.facts ++ new) new empty) in
    record {
      no_live = rw facts dead;
      added = new;
      appended = facts;
      valueless = empty;
      archived = rw leads (archive-archived lead db.leads);
    }

lead_input-lead :
    (k : Keys) (a : EraseArgs) (lead : ℕ) (e : Erasure) → lead_input k a lead ≡ ok e → e.lead ≡ lead
unfolding lead_input
lead_input-lead k a lead e h = ground arith

erase_input-lead :
    (k : Keys) (a : EraseArgs) (e : Erasure)
    → erase_input k a ≡ ok e
    → positive_bigint a.lead_id ≡ ok (some e.lead)
unfolding erase_input
erase_input-lead k a e h =
    let (named, one) = ok_of (positive_bigint a.lead_id) (λ e r. ground arith) in
    elim (Option-cases named) [
      | inl missing ↦ absurd (ground arith)
      | inr (lead, there) ↦
          let same = lead_input-lead k a lead e (ground arith) in
          one ∙ ap ok there ∙ ap (λ l. ok (some l)) (sym same)
    ]

-- After a successful erasure no fact of the lead that the arguments name is live, the rows that it
-- added are retracted and hold no value, and the lead's row is archived.
pub cmd_data_erase_lead-Cleared :
    (k : Keys) (args : EraseArgs) (db db' : Ledger) (n : ℕ)
    → cmd_data_erase_lead k args db ≡ ok (n, db')
    → (lead : ℕ) × (positive_bigint args.lead_id ≡ ok (some lead)) × Cleared lead db db'
cmd_data_erase_lead-Cleared k args db db' n h =
    let (e, target, transaction, prior, between, was) =
      cmd_data_erase_lead-Erased k args db db' n h in
    let c = erase_lead-Cleared e.lead n between db' was.rest in
    (
      e.lead,
      erase_input-lead k args e was.input,
      record {
        no_live = c.no_live;
        added = c.added;
        appended = c.appended ∙ ap (λ fs. fs ++ c.added) was.used.same_facts;
        valueless = c.valueless;
        archived = c.archived;
      },
    )
