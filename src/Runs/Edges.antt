-- ===== src/Runs/Edges.antt =====
-- What one UPDATE of a workflow run may do to its row, and that the three database functions do
-- no more.
use venture_capital_lead_res.Prelude.{
  ℕ, suc, ◌≤◌, ◌≡◌, refl, ◌∙◌, inl, inr, true, false, Option, none, some, List, [], ◌∷◌, arith,
  is_some, Bool-cases,
}
use venture_capital_lead_res.Fail.{ok}
use venture_capital_lead_res.Runs.Status.{
  Status, queued, succeeded, failed, cancelled, lost, same_status, same_status→eq, status_in,
  trigger_edges,
}
use venture_capital_lead_res.Runs.Rows.{Run}
use venture_capital_lead_res.Runs.Sql.{is_retry, allowed, stamp, guard_workflow_run_transition}

-- The columns that name the logical request of a run.
pub record SameRequest (r s : Run) : Type 0 where
  pub run_id : r.run_id ≡ s.run_id
  pub workflow_id : r.workflow_id ≡ s.workflow_id
  pub idempotency_key : r.idempotency_key ≡ s.idempotency_key
  pub input_hash : r.input_hash ≡ s.input_hash
  pub input_digest : r.input_digest ≡ s.input_digest

abbrev pub settled_states : List Status
settled_states = succeeded ∷ cancelled ∷ lost ∷ []

-- A row in these states has no edge out.
pub IsSettled : Run → Type 0
IsSettled r = status_in settled_states r.status ≡ true

-- The edges of the life cycle: none, one of the trigger's table, or the governed retry.
pub data Edge (r s : Run) : Type 0 where
  stays : s.status ≡ r.status → Edge r s
  moves : status_in (trigger_edges r.status) s.status ≡ true → Edge r s
  retries :
      r.status ≡ failed
      → s.status ≡ queued
      → s.attempt ≡ suc r.attempt
      → r.cancel_requested_at ≡ none
      → Edge r s

pub record LegalStep (r s : Run) : Type 0 where
  pub request : SameRequest r s
  pub live : status_in settled_states r.status ≡ false
  pub version : s.record_version ≡ suc r.record_version
  pub revision : r.flow_revision ≤ s.flow_revision
  pub attempt : r.attempt ≤ s.attempt
  pub cancel_kept : is_some r.cancel_requested_at ≡ true → is_some s.cancel_requested_at ≡ true
  pub edge : Edge r s

-- What an UPDATE statement of this program leaves as it was.
pub record Keeps (r new : Run) : Type 0 where
  pub request : SameRequest r new
  pub attempt : r.attempt ≤ new.attempt
  pub cancel_kept : is_some r.cancel_requested_at ≡ true → is_some new.cancel_requested_at ≡ true

pub is_none : {A : Type 0} (o : Option A) → is_some o ≡ false → o ≡ none
is_none none h = refl
is_none (some a) h = cc

module _ (now : ℕ) (r new s : Run) (h : guard_workflow_run_transition now r new ≡ ok s) where
  pub guard-eq-stamp : s ≡ stamp now r new
  unfolding guard_workflow_run_transition
  guard-eq-stamp = ground arith

  status-guard : s.status ≡ new.status
  unfolding guard_workflow_run_transition stamp
  status-guard = ground arith

  attempt-guard : s.attempt ≡ new.attempt
  unfolding guard_workflow_run_transition stamp
  attempt-guard = ground arith

  guard-allowed : allowed r new ≡ true
  unfolding guard_workflow_run_transition
  guard-allowed = ground arith

  -- `queued` is no state that a cancel-requested run may move to.
  retry-not_cancelled :
      same_status new.status r.status ≡ false
      → status_in (cancelled ∷ failed ∷ lost ∷ []) new.status ≡ false
      → is_some r.cancel_requested_at ≡ false
  unfolding guard_workflow_run_transition
  retry-not_cancelled p q = ground arith

  retry-Edge : is_retry r new ≡ true → Edge r s
  unfolding is_retry
  retry-Edge t =
      let was : r.status ≡ failed = same_status→eq r.status failed (ground arith) in
      let is : new.status ≡ queued = same_status→eq new.status queued (ground arith) in
      retries was (status-guard ∙ is) (attempt-guard ∙ ground arith) (
        is_none r.cancel_requested_at (
          retry-not_cancelled (rw (was, is) (unfold same_status in refl))
            (rw is (unfold status_in in refl))))

  guard-Edge : Edge r s
  unfolding allowed
  guard-Edge = elim (Bool-cases (same_status new.status r.status)) [
    | inl same ↦ stays (status-guard ∙ same_status→eq new.status r.status same)
    | inr other ↦ elim (Bool-cases (status_in (trigger_edges r.status) new.status)) [
      | inl edge ↦ moves (rw status-guard edge)
      | inr outside ↦ retry-Edge (retry_left other outside)
    ]
  ]
    where
      retry_left :
          same_status new.status r.status ≡ false
          → status_in (trigger_edges r.status) new.status ≡ false
          → is_retry r new ≡ true
      retry_left a b = ground (arith, guard-allowed)

pub guard-LegalStep :
    (now : ℕ) (r new s : Run)
    → Keeps r new
    → status_in settled_states r.status ≡ false
    → guard_workflow_run_transition now r new ≡ ok s
    → LegalStep r s
unfolding guard_workflow_run_transition stamp
guard-LegalStep now r new s k live h = record {
  request = record {
    run_id = ground arith;
    workflow_id = ground arith;
    idempotency_key = ground arith;
    input_hash = ground arith;
    input_digest = ground arith;
  };
  live = live;
  version = ground arith;
  revision = ground arith;
  attempt = ground arith;
  cancel_kept = ground arith;
  edge = guard-Edge now r new s h;
}
