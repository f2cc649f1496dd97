-- ===== src/Preferences/Evidence.antt =====
-- An inferred preference that is active rests on enough evidence: the rows, the inserts and the
-- updates.
use venture_capital_lead_res.Prelude.{
  ℕ, ◌≤◌, ◌≡◌, refl, ◌∙◌, inl, inr, String, true, false, ◌&&◌, Option, none, some, List, [], ◌∷◌,
  All, any, leb→le, str_eq, str_eq_refl, str_eq→eq, ◌==◌, arith, Bool-cases,
}
use venture_capital_lead_res.Preferences.Rows.{
  Kind, explicit, inferred, Observation, active, is_active, Preference, Marker, Book,
  is_same_observation, insert_observation, is_preference, is_marker, last_forgotten,
  supporting_events, count_distinct, evidence, upsert_preference, insert_marker, insert_markers,
  forgets, forget_one, forget_preferences,
}
use venture_capital_lead_res.Preferences.Handlers.{
  activates, record_observation, target_keys, forget,
}

-- The evidence of a row in these tables.
abbrev pub support : ℕ → String → String → List Marker → List Observation → ℕ
support principal key value ms os =
    count_distinct
      (supporting_events principal key value inferred (last_forgotten principal key ms) os)

pub record Supported (ms : List Marker) (os : List Observation) (p : Preference) : Type 0 where
  pub value : String
  pub has_value : p.preference_value ≡ some value
  pub enough : 3 ≤ p.evidence_count
  pub counted : p.evidence_count ≤ support p.principal_id p.preference_key value ms os

-- An active row that was inferred counts three observations or more, and the observations made
-- since its key was last forgotten, of its principal, its key and its value, show at least as many
-- different events.
unfoldable pub Justified : List Marker → List Observation → Preference → Type 0
Justified ms os p = is_active p.status ≡ true → p.source_kind ≡ some inferred → Supported ms os p

abbrev pub AllJustified : Book → Type 0
AllJustified b = All (Justified b.markers b.observations) b.preferences

support-cons :
    (principal : ℕ) (key value : String) (ms : List Marker) (o : Observation)
    (os : List Observation)
    → support principal key value ms os ≤ support principal key value ms (o ∷ os)
unfolding supporting_events count_distinct
support-cons principal key value ms o os = ground arith

All-map {ℓ κ μ} :
    {A : Type ℓ} (P : A → Type κ) (Q : A → Type μ) (xs : List A)
    → ((x : A) → P x → Q x)
    → All P xs
    → All Q xs
All-map P Q [] step h = tt
All-map P Q (x ∷ xs) step (h, hs) = (step x h, All-map P Q xs step hs)

Justified-cons :
    (ms : List Marker) (o : Observation) (os : List Observation) (p : Preference)
    → Justified ms os p
    → Justified ms (o ∷ os) p
unfolding Justified
Justified-cons ms o os p h live kind =
    let s = h live kind in
    record {
      value = s.value;
      has_value = s.has_value;
      enough = s.enough;
      counted =
          omega (arith, s.counted, support-cons p.principal_id p.preference_key s.value ms o os);
    }

insert_observation-Justified :
    (o : Observation) (b : Book) → AllJustified b → AllJustified (insert_observation o b).1
unfolding insert_observation
insert_observation-Justified o b h =
    elim (Bool-cases (any (is_same_observation o) b.observations)) [
      | inl held ↦ rw held h
      | inr new ↦ rw new (
          All-map (Justified b.markers b.observations) (Justified b.markers (o ∷ b.observations))
            b.preferences (Justified-cons b.markers o b.observations) h)
    ]

All-upsert_preference {ℓ} :
    (P : Preference → Type ℓ) (new : Preference) (ps : List Preference)
    → All P ps
    → P new
    → All P (upsert_preference new ps)
unfolding upsert_preference
All-upsert_preference P new [] h n = (n, tt)
All-upsert_preference P new (p ∷ ps) (h, hs) n =
    elim (Bool-cases (is_preference new.principal_id new.preference_key p)) [
      | inl this ↦ rw this (n, hs)
      | inr other ↦ rw other (h, All-upsert_preference P new ps hs n)
    ]

insert_observation-still :
    (o : Observation) (b : Book) → (insert_observation o b).1.markers ≡ b.markers
unfolding insert_observation
insert_observation-still o b = ground arith

enough_of : (kind : Kind) (n : ℕ) → activates kind n ≡ true → kind ≡ inferred → 3 ≤ n
unfolding activates
enough_of explicit n h k = absurd (cc k)
enough_of inferred n h k = leb→le 3 n h

abbrev activated_row : Observation → Book → Preference
activated_row o b = record {
  principal_id = o.principal_id;
  preference_key = o.preference_key;
  preference_value = some o.preference_value;
  source_kind = some o.observation_kind;
  evidence_count = evidence o.principal_id o.preference_key o.preference_value o.observation_kind b;
  status = active;
  source_event_id = some o.event_id;
}

activated_row-Justified :
    (o : Observation) (b : Book)
    → activates o.observation_kind
        (evidence o.principal_id o.preference_key o.preference_value o.observation_kind b)
      ≡ true
    → Justified b.markers b.observations (activated_row o b)
unfolding Justified evidence
activated_row-Justified o b on live kind =
    let same : o.observation_kind ≡ inferred = cc kind in
    let counted : evidence o.principal_id o.preference_key o.preference_value o.observation_kind b
        ≡ support o.principal_id o.preference_key o.preference_value b.markers b.observations =
      rw same refl in
    record {
      value = o.preference_value;
      has_value = refl;
      enough =
          enough_of o.observation_kind
            (evidence o.principal_id o.preference_key o.preference_value o.observation_kind b) on
            same;
      counted = omega (arith, counted);
    }

pub record_observation-Justified :
    (o : Observation) (b : Book) → AllJustified b → AllJustified (record_observation o b).1
unfolding record_observation
record_observation-Justified o b h =
    let b1 = (insert_observation o b).1 in
    let kept = insert_observation-Justified o b h in
    let count = evidence o.principal_id o.preference_key o.preference_value o.observation_kind b1 in
    elim (Bool-cases (activates o.observation_kind count)) [
      | inl on ↦ rw on (
          All-upsert_preference (Justified b1.markers b1.observations) (activated_row o b1)
            b1.preferences kept (activated_row-Justified o b1 on))
      | inr off ↦ rw off kept
    ]

last_forgotten-insert :
    (principal : ℕ) (key : String) (new : Marker) (ms : List Marker)
    → is_marker principal key new ≡ false
    → last_forgotten principal key (insert_marker new ms) ≡ last_forgotten principal key ms
unfolding insert_marker last_forgotten
last_forgotten-insert principal key new ms h = ground arith

last_forgotten-inserts :
    (principal who : ℕ) (key event : String) (now : ℕ) (keys : List String) (ms : List Marker)
    → All (λ k. ((who == principal) && str_eq k key) ≡ false) keys
    → last_forgotten principal key (insert_markers who event now keys ms)
      ≡ last_forgotten principal key ms
unfolding insert_markers
last_forgotten-inserts principal who key event now [] ms h = refl
last_forgotten-inserts principal who key event now (k ∷ keys) ms (h, hs) =
    let new : Marker = record {
      principal_id = who;
      preference_key = k;
      event_id = event;
      created_at = now;
    } in
    last_forgotten-inserts principal who key event now keys (insert_marker new ms) hs
    ∙ last_forgotten-insert principal key new ms h

-- The keys of a row that is not forgotten get no marker.
unforgotten-keys :
    (who : ℕ) (key : Option String) (p : Preference)
    → forgets who key p ≡ false
    → All (λ k. ((who == p.principal_id) && str_eq k p.preference_key) ≡ false) (target_keys key)
unforgotten-keys who none p h =
    let other : (who == p.principal_id) ≡ false = ground arith in
    rw other (refl, (refl, (refl, (refl, (refl, tt)))))
unforgotten-keys who (some k) p h = elim (Bool-cases (str_eq k p.preference_key)) [
  | inl same ↦
      let key : k ≡ p.preference_key = str_eq→eq k p.preference_key same in
      let back : str_eq p.preference_key k ≡ true = rw key (str_eq_refl p.preference_key) in
      (ground arith, tt)
  | inr other ↦ (ground arith, tt)
]

Justified-forgotten :
    (ms : List Marker) (os : List Observation) (p : Preference) → Justified ms os (forget_one p)
unfolding Justified forget_one
Justified-forgotten ms os p live kind = absurd (cc live)

Justified-kept :
    (ms ns : List Marker) (os : List Observation) (p : Preference)
    → last_forgotten p.principal_id p.preference_key ns
      ≡ last_forgotten p.principal_id p.preference_key ms
    → Justified ms os p
    → Justified ns os p
unfolding Justified
Justified-kept ms ns os p same h live kind =
    let s = h live kind in
    record {
      value = s.value;
      has_value = s.has_value;
      enough = s.enough;
      counted = rw same s.counted;
    }

module _ (who : ℕ) (event : String) (key : Option String) (now : ℕ) (ms : List Marker)
    (os : List Observation) where
  forget_preferences-Justified :
      (ps : List Preference)
      → All (Justified ms os) ps
      → All
          (Justified (insert_markers who event now (target_keys key) ms) os)
          (forget_preferences who key ps)
  unfolding forget_preferences
  forget_preferences-Justified [] h = tt
  forget_preferences-Justified (p ∷ ps) (h, hs) = elim (Bool-cases (forgets who key p)) [
    | inl gone ↦ rw gone (
      Justified-forgotten (insert_markers who event now (target_keys key) ms) os p,
      forget_preferences-Justified ps hs,
    )
    | inr kept ↦ rw kept (
      Justified-kept ms (insert_markers who event now (target_keys key) ms) os p
          (last_forgotten-inserts p.principal_id who p.preference_key event now (target_keys key) ms
            (unforgotten-keys who key p kept))
          h,
      forget_preferences-Justified ps hs,
    )
  ]

pub forget-Justified :
    (who : ℕ) (event : String) (key : Option String) (b : Book)
    → AllJustified b
    → AllJustified (forget who event key b)
unfolding forget
forget-Justified who event key b h =
    forget_preferences-Justified who event key b.clock b.markers b.observations b.preferences h
