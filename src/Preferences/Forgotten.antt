-- ===== src/Preferences/Forgotten.antt =====
-- What forgetting leaves of a preference.
use venture_capital_lead_res.Prelude.{
  ℕ, ◌≡◌, refl, sym, ◌∙◌, inl, inr, String, Bool, true, false, not, ◌&&◌, Option, none, some, List,
  [], ◌∷◌, All, any, ltb, leb, str_eq, str_eq_refl, str_eq→eq, member, arith, Bool-cases,
}
use venture_capital_lead_res.Preferences.Rows.{
  Kind, Observation, is_active, Preference, Marker, Book, is_marker, later_of, last_forgotten,
  supports, supporting_events, count_distinct, evidence, insert_marker, insert_markers, forgets,
  forget_one, forget_preferences,
}
use venture_capital_lead_res.Preferences.Handlers.{target_keys, forget}

-- The cutoff of the keys, once a marker was added for each.
reaches : ℕ → Option ℕ → Bool
reaches now none = false
reaches now (some t) = leb now t

later_of-reaches : (now t : ℕ) (o : Option ℕ) → leb now t ≡ true → reaches now (later_of t o) ≡ true
unfolding reaches
later_of-reaches now t none h = h
later_of-reaches now t (some u) h = ground arith

later_of-keeps :
    (now t : ℕ) (o : Option ℕ) → reaches now o ≡ true → reaches now (later_of t o) ≡ true
unfolding reaches
later_of-keeps now t none h = absurd (cc h)
later_of-keeps now t (some u) h = ground arith

insert_marker-keeps :
    (who now : ℕ) (key : String) (new : Marker) (ms : List Marker)
    → reaches now (last_forgotten who key ms) ≡ true
    → reaches now (last_forgotten who key (insert_marker new ms)) ≡ true
unfolding insert_marker last_forgotten
insert_marker-keeps who now key new ms h =
    let later = later_of-keeps now new.created_at (last_forgotten who key ms) h in ground arith

insert_markers-keeps :
    (who by now at : ℕ) (key event : String) (keys : List String) (ms : List Marker)
    → reaches now (last_forgotten who key ms) ≡ true
    → reaches now (last_forgotten who key (insert_markers by event at keys ms)) ≡ true
unfolding insert_markers
insert_markers-keeps who by now at key event [] ms h = h
insert_markers-keeps who by now at key event (k ∷ keys) ms h =
    let new : Marker = record {
      principal_id = by;
      preference_key = k;
      event_id = event;
      created_at = at;
    } in
    insert_markers-keeps who by now at key event keys (insert_marker new ms)
      (insert_marker-keeps who now key new ms h)

-- A key that is not the first of a list is one of the others.
member-behind :
    (key k : String) (ks : List String)
    → str_eq k key ≡ false
    → member key (k ∷ ks) ≡ true
    → member key ks ≡ true
member-behind key k ks other m = elim (Bool-cases (str_eq key k)) [
  | inl this ↦
      let same : key ≡ k = str_eq→eq key k this in
      let both : str_eq k key ≡ true = rw same (str_eq_refl k) in absurd (cc (sym other ∙ both))
  | inr differ ↦ ground arith
]

-- No marker of this key has the event yet.
abbrev pub is_new_event : ℕ → String → String → List Marker → Bool
is_new_event who key event ms =
    not (any (λ (m : Marker). is_marker who key m && str_eq m.event_id event) ms)

module _ (who : ℕ) (key event : String) (now : ℕ) where
  abbrev marker_of : String → Marker
  marker_of k = record {
    principal_id = who;
    preference_key = k;
    event_id = event;
    created_at = now;
  }

  insert_marker-reaches :
      (ms : List Marker)
      → is_new_event who key event ms ≡ true
      → reaches now (last_forgotten who key (insert_marker (marker_of key) ms)) ≡ true
  unfolding insert_marker last_forgotten
  insert_marker-reaches ms h =
      let here = later_of-reaches now now (last_forgotten who key ms) (ground arith) in
      let same = str_eq_refl key in ground arith

  insert_marker-new :
      (k : String) (ms : List Marker)
      → str_eq k key ≡ false
      → is_new_event who key event ms ≡ true
      → is_new_event who key event (insert_marker (marker_of k) ms) ≡ true
  unfolding insert_marker
  insert_marker-new k ms other h = ground arith

  insert_markers-reaches :
      (keys : List String) (ms : List Marker)
      → member key keys ≡ true
      → is_new_event who key event ms ≡ true
      → reaches now (last_forgotten who key (insert_markers who event now keys ms)) ≡ true
  unfolding insert_markers
  insert_markers-reaches [] ms m h = absurd (cc m)
  insert_markers-reaches (k ∷ keys) ms m h = elim (Bool-cases (str_eq k key)) [
    | inl this ↦
        let same : k ≡ key = str_eq→eq k key this in
        rw same (
          insert_markers-keeps who who now now key event keys (insert_marker (marker_of key) ms)
            (insert_marker-reaches ms h))
    | inr other ↦
        let behind : member key keys ≡ true = member-behind key k keys other m in
        insert_markers-reaches keys (insert_marker (marker_of k) ms) behind
          (insert_marker-new k ms other h)
  ]

supporting_events-none :
    (who now : ℕ) (key value : String) (kind : Kind) (cutoff : Option ℕ) (os : List Observation)
    → reaches now cutoff ≡ true
    → All (λ o. leb o.created_at now ≡ true) os
    → supporting_events who key value kind cutoff os ≡ []
unfolding supporting_events supports reaches
supporting_events-none who now key value kind cutoff [] r h = refl
supporting_events-none who now key value kind none (o ∷ os) r h = absurd (cc r)
supporting_events-none who now key value kind (some t) (o ∷ os) r (h, hs) =
    let rest = supporting_events-none who now key value kind (some t) os r hs in
    let old : ltb t o.created_at ≡ false = ground arith in ground arith

-- Forgetting a key leaves it without evidence: when no observation lies in the future and the event
-- has not forgotten the key before, nothing that was observed up to then supports any value of it.
pub forget-evidence :
    (who : ℕ) (event key value : String) (kind : Kind) (chosen : Option String) (b : Book)
    → member key (target_keys chosen) ≡ true
    → is_new_event who key event b.markers ≡ true
    → All (λ o. leb o.created_at b.clock ≡ true) b.observations
    → evidence who key value kind (forget who event chosen b) ≡ 0
unfolding forget evidence count_distinct
forget-evidence who event key value kind chosen b m new old =
    let cut = insert_markers-reaches who key event b.clock (target_keys chosen) b.markers m new in
    rw
      (supporting_events-none who b.clock key value kind
        (last_forgotten who key (insert_markers who event b.clock (target_keys chosen) b.markers))
        b.observations cut old)
      refl

-- No chosen row is active after the forgetting.
pub forget_preferences-inactive :
    (who : ℕ) (key : Option String) (ps : List Preference)
    → All
        (λ p. forgets who key p ≡ true → is_active p.status ≡ false)
        (forget_preferences who key ps)
unfolding forget_preferences forget_one
forget_preferences-inactive who key [] = tt
forget_preferences-inactive who key (p ∷ ps) = elim (Bool-cases (forgets who key p)) [
  | inl gone ↦ rw gone ((λ h. refl), forget_preferences-inactive who key ps)
  | inr kept ↦ rw kept ((λ h. absurd (cc (sym kept ∙ h))), forget_preferences-inactive who key ps)
]
