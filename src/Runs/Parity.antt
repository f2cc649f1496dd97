-- ===== src/Runs/Parity.antt =====
-- `RUN_TRANSITIONS` of vcops.py against the trigger of migrations/018.
use venture_capital_lead_res.Prelude.{
  ℕ, String, ◌≡◌, refl, Bool, true, false, not, ◌&&◌, ◌||◌, Option, [], ◌∷◌, arith, is_some,
}
use venture_capital_lead_res.Fail.{Result, ok, err}
use venture_capital_lead_res.Runs.Status.{
  Status, failed, cancelled, lost, same_status, status_in, terminal_run_states, run_transitions,
  trigger_edges,
}
use venture_capital_lead_res.Runs.Rows.{Run}
use venture_capital_lead_res.Runs.Sql.{
  is_retry, allowed, guard_workflow_run_transition, transitioned,
}

abbrev pub is_ok {ℓ} : {A : Type ℓ} → Result A → Bool
is_ok (ok _) = true
is_ok (err _) = false

-- The test of `_transition_run` before it calls the database.
unfoldable pub gate : Status → Status → Bool
gate current target =
    not (status_in terminal_run_states current) && status_in (run_transitions current) target

-- The targets that a cancel-requested run may still move to.
unfoldable pub ends_cancelled_run : Status → Bool
ends_cancelled_run = status_in (cancelled ∷ failed ∷ lost ∷ [])

gate-eq-trigger_edges : (s t : Status) → gate s t ≡ status_in (trigger_edges s) t
unfolding gate status_in run_transitions trigger_edges
gate-eq-trigger_edges s t = ground arith

pub same_status_comm : (s t : Status) → same_status s t ≡ same_status t s
unfolding same_status
same_status_comm s t = ground arith

module _ (now : ℕ) (target : Status) (actor result : String) (class message : Option String)
    (r : Run) where
  abbrev asked : Run
  asked = transitioned now target r.flow_revision actor result class message r

  asked_keeps_attempt : is_retry r asked ≡ false
  unfolding is_retry transitioned
  asked_keeps_attempt = ground arith

  -- For a target other than the present status, the gate of vcops.py together with the rule for
  -- cancel-requested runs passes exactly when the trigger admits the update that
  -- `transition_workflow_run` then makes, whatever the row and the other arguments are.
  pub is_ok-guard_transitioned :
      same_status r.status target ≡ false
      → is_ok (guard_workflow_run_transition now r asked) ≡ (
          gate r.status target
          && (not (is_some r.cancel_requested_at) || ends_cancelled_run target))
  unfolding guard_workflow_run_transition transitioned ends_cancelled_run
  is_ok-guard_transitioned h = ground (
    arith,
    allowed_lem,
    same_status_comm r.status target,
    gate-eq-trigger_edges r.status target,
    asked_keeps_attempt,
  )
    where
      allowed_lem : allowed r asked ≡ (
          same_status target r.status
          || status_in (trigger_edges r.status) target
          || is_retry r asked)
      allowed_lem = unfold allowed in refl
