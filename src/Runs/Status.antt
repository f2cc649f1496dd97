-- ===== src/Runs/Status.antt =====
-- The states of a workflow run: `TERMINAL_RUN_STATES` and `RUN_TRANSITIONS` of vcops.py, and the
-- edges that the database trigger of migrations/018 admits.
use venture_capital_lead_res.Prelude.{ℕ, ◌≡◌, Bool, true, List, [], ◌∷◌, any, ◌==◌, arith}

pub data Status : Type 0 where
  queued started running waiting blocked succeeded failed cancelled lost : Status

abbrev pub position : Status → ℕ
position queued = 0
position started = 1
position running = 2
position waiting = 3
position blocked = 4
position succeeded = 5
position failed = 6
position cancelled = 7
position lost = 8

-- Equality of two status texts.
unfoldable pub same_status : Status → Status → Bool
same_status a b = position a == position b

unfoldable pub status_in : List Status → Status → Bool
unfolding same_status
status_in statuses s = any (same_status s) statuses

abbrev pub terminal_run_states : List Status
terminal_run_states = succeeded ∷ failed ∷ cancelled ∷ lost ∷ []

-- `RUN_TRANSITIONS.get(current, set())`.
unfoldable pub run_transitions : Status → List Status
run_transitions queued = started ∷ running ∷ cancelled ∷ failed ∷ lost ∷ []
run_transitions started = running ∷ waiting ∷ blocked ∷ succeeded ∷ failed ∷ cancelled ∷ lost ∷ []
run_transitions running = waiting ∷ blocked ∷ succeeded ∷ failed ∷ cancelled ∷ lost ∷ []
run_transitions waiting = running ∷ blocked ∷ succeeded ∷ failed ∷ cancelled ∷ lost ∷ []
run_transitions blocked = running ∷ waiting ∷ failed ∷ cancelled ∷ lost ∷ []
run_transitions _ = []

-- The branches of `guard_workflow_run_transition`, in its order, but for the retry branch.
unfoldable pub trigger_edges : Status → List Status
trigger_edges queued = started ∷ running ∷ failed ∷ cancelled ∷ lost ∷ []
trigger_edges started = running ∷ waiting ∷ blocked ∷ succeeded ∷ failed ∷ cancelled ∷ lost ∷ []
trigger_edges running = waiting ∷ blocked ∷ succeeded ∷ failed ∷ cancelled ∷ lost ∷ []
trigger_edges waiting = running ∷ blocked ∷ succeeded ∷ failed ∷ cancelled ∷ lost ∷ []
trigger_edges blocked = running ∷ waiting ∷ failed ∷ cancelled ∷ lost ∷ []
trigger_edges _ = []

pub same_status→eq : (a b : Status) → same_status a b ≡ true → a ≡ b
unfolding same_status
same_status→eq a b h = ground arith
