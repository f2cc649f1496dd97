-- ===== src/Preferences/Rows.antt =====
-- The tables `preference_observations`, `user_preferences` and `preference_forget_markers` of
-- migrations/010_trusted_context_and_preferences.sql, and the statements that vcops.py makes on
-- them. `user_preference_audit` is not modelled.
use venture_capital_lead_res.Prelude.{
  ℕ, suc, String, Bool, true, false, ◌&&◌, Option, none, some, List, [], ◌∷◌, any, str_eq, member,
  ltb, ◌==◌, if◌then◌else◌,
}
use venture_capital_lead_res.Trust.Uses.{Store}

pub data Kind : Type 0 where
  explicit inferred : Kind

abbrev pub is_kind : Kind → Kind → Bool
is_kind explicit explicit = true
is_kind inferred inferred = true
is_kind _ _ = false

pub record Observation : Type 0 where
  pub principal_id : ℕ
  pub preference_key : String
  pub preference_value : String
  pub observation_kind : Kind
  pub event_id : String
  pub created_at : ℕ

pub data PreferenceStatus : Type 0 where
  active forgotten : PreferenceStatus

pub record Preference : Type 0 where
  pub principal_id : ℕ
  pub preference_key : String
  pub preference_value : Option String
  pub source_kind : Option Kind
  pub evidence_count : ℕ
  pub status : PreferenceStatus
  pub source_event_id : Option String

pub record Marker : Type 0 where
  pub principal_id : ℕ
  pub preference_key : String
  pub event_id : String
  pub created_at : ℕ

-- The observations and the markers are listed with the newest first. `clock` is the time of the
-- command that runs.
pub record Book : Type 0 where
  pub trust : Store
  pub observations : List Observation
  pub preferences : List Preference
  pub markers : List Marker
  pub clock : ℕ

abbrev pub is_active : PreferenceStatus → Bool
is_active active = true
is_active forgotten = false

-- The UNIQUE columns of an observation.
abbrev pub is_same_observation : Observation → Observation → Bool
is_same_observation new o =
    ((o.principal_id == new.principal_id) && str_eq o.preference_key new.preference_key)
    && (str_eq o.preference_value new.preference_value && str_eq o.event_id new.event_id)

-- `INSERT ... ON CONFLICT DO NOTHING RETURNING id`.
unfoldable pub insert_observation : Observation → Book → Bool × Book
insert_observation new b =
    if any (is_same_observation new) b.observations
    then (false, b)
    else (true, record b { observations = new ∷ b.observations })

abbrev pub is_preference : ℕ → String → Preference → Bool
is_preference principal key p = (p.principal_id == principal) && str_eq p.preference_key key

abbrev pub is_marker : ℕ → String → Marker → Bool
is_marker principal key m = (m.principal_id == principal) && str_eq m.preference_key key

-- `COALESCE(max(created_at), '-infinity')` of the markers of a key.
abbrev pub later_of : ℕ → Option ℕ → Option ℕ
later_of t none = some t
later_of t (some u) = if ltb t u then some u else some t

unfoldable pub last_forgotten : ℕ → String → List Marker → Option ℕ
last_forgotten principal key [] = none
last_forgotten principal key (m ∷ ms) =
    let rest = last_forgotten principal key ms in
    if is_marker principal key m then later_of m.created_at rest else rest

abbrev pub is_after : Option ℕ → ℕ → Bool
is_after none t = true
is_after (some cutoff) t = ltb cutoff t

unfoldable pub supports : ℕ → String → String → Kind → Option ℕ → Observation → Bool
supports principal key value kind cutoff o =
    ((o.principal_id == principal) && str_eq o.preference_key key)
    && ((str_eq o.preference_value value && is_kind o.observation_kind kind)
        && is_after cutoff o.created_at)

unfoldable pub supporting_events :
    ℕ → String → String → Kind → Option ℕ → List Observation → List String
supporting_events principal key value kind cutoff [] = []
supporting_events principal key value kind cutoff (o ∷ os) =
    let rest = supporting_events principal key value kind cutoff os in
    if supports principal key value kind cutoff o then o.event_id ∷ rest else rest

unfoldable pub count_distinct : List String → ℕ
count_distinct [] = 0
count_distinct (e ∷ es) = let rest = count_distinct es in if member e es then rest else suc rest

unfoldable pub evidence : ℕ → String → String → Kind → Book → ℕ
evidence principal key value kind b = count_distinct (
    supporting_events principal key value kind (last_forgotten principal key b.markers)
      b.observations)

-- `INSERT ... ON CONFLICT(principal_id,preference_key) DO UPDATE`.
unfoldable pub upsert_preference : Preference → List Preference → List Preference
upsert_preference new [] = new ∷ []
upsert_preference new (p ∷ ps) =
    let rest = upsert_preference new ps in
    if is_preference new.principal_id new.preference_key p then new ∷ ps else p ∷ rest

unfoldable pub insert_marker : Marker → List Marker → List Marker
insert_marker new ms =
    if any
      (λ (m : Marker).
        is_marker new.principal_id new.preference_key m && str_eq m.event_id new.event_id)
      ms
    then ms
    else new ∷ ms

unfoldable pub insert_markers : ℕ → String → ℕ → List String → List Marker → List Marker
insert_markers principal event now [] ms = ms
insert_markers principal event now (key ∷ keys) ms = insert_markers principal event now keys (
    insert_marker
      (record {
        principal_id = principal;
        preference_key = key;
        event_id = event;
        created_at = now;
      })
      ms)

-- `WHERE principal_id=%s AND preference_key=%s`, or without the key.
abbrev pub forgets : ℕ → Option String → Preference → Bool
forgets principal none p = p.principal_id == principal
forgets principal (some key) p = is_preference principal key p

unfoldable pub forget_one : Preference → Preference
forget_one p = record p {
  preference_value = none;
  source_kind = none;
  evidence_count = 0;
  status = forgotten;
  source_event_id = none;
}

unfoldable pub forget_preferences : ℕ → Option String → List Preference → List Preference
forget_preferences principal key [] = []
forget_preferences principal key (p ∷ ps) =
    (if forgets principal key p then forget_one p else p) ∷ forget_preferences principal key ps
