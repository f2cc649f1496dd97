-- ===== src/Runner/Cancel.antt =====
-- What the control of a paused workflow accepts, and what it takes for a cancellation.
use venture_capital_lead_res.Prelude.{
  ℕ, ◌≡◌, refl, ◌≤◌, ap, String, true, false, Option, none, some, is_blank, str_eq→eq, arith,
}
use venture_capital_lead_res.Json.{ℤ, pos, negsuc, Json, boolean, str, obj, Fields, get}
use venture_capital_lead_res.Validate.Checks.{is_hex_text, is_operator_id}
use venture_capital_lead_res.Runner.Helper.{
  returned, Helped, helped, helper_unavailable, helper_timeout, helper_undecodable, helper_result,
  is_true, is_zero, ◌>>=◌,
}
use venture_capital_lead_res.Runner.Control.{
  ControlArgs, is_rejecting, target_of, control_target, check_control, is_text, status_of,
  cancelled_result,
}

-- What a command aims at: an approval names no run, a rejection a run and a positive revision.
pub data Aims (args : ControlArgs) : Option (String × ℕ) → Type 0 where
  aims_at_none :
      is_rejecting args.decision ≡ false
      → args.run_id ≡ none
      → args.expected_revision ≡ none
      → Aims args none
  aims_at :
      (run_id : String) (revision : ℕ)
      → is_rejecting args.decision ≡ true
      → args.run_id ≡ some run_id
      → is_blank run_id ≡ false
      → args.expected_revision ≡ some (pos revision)
      → 1 ≤ revision
      → Aims args (some (run_id, revision))

-- An acceptable command: of a known operator, for an approval of eight hexadecimal digits.
pub record Acceptable (operator_id : String) (args : ControlArgs) (target : Option (String × ℕ))
    : Type 0 where
  pub known : is_operator_id operator_id ≡ true
  pub shaped : is_hex_text 8 args.approval_id ≡ true
  pub aimed : Aims args target

target_of-Aims :
    (args : ControlArgs) (run_id : String) (revision : ℕ)
    → is_rejecting args.decision ≡ true
    → target_of args ≡ some (run_id, revision)
    → Aims args (some (run_id, revision))
unfolding target_of
target_of-Aims args run_id revision rejecting h =
    by_fields args.run_id refl args.expected_revision refl
  where
    by_fields :
        (named : Option String)
        → args.run_id ≡ named
        → (expected : Option ℤ) → args.expected_revision ≡ expected
        → Aims args (some (run_id, revision))
    by_fields none p expected q = absurd (ground arith)
    by_fields (some r) p none q = absurd (ground arith)
    by_fields (some r) p (some (negsuc n)) q = absurd (ground arith)
    by_fields (some r) p (some (pos n)) q =
        aims_at run_id revision rejecting (ground arith) (ground arith) (ground arith)
          (ground arith)

control_target-Aims :
    (args : ControlArgs) (target : Option (String × ℕ))
    → control_target args ≡ returned target
    → Aims args target
unfolding control_target
control_target-Aims args none h = aims_at_none (ground arith) (ground arith) (ground arith)
control_target-Aims args (some (run_id, revision)) h =
    target_of-Aims args run_id revision (ground arith) (ground arith)

pub check_control-Acceptable :
    (operator_id : String) (args : ControlArgs) (target : Option (String × ℕ))
    → check_control operator_id args ≡ returned target
    → Acceptable operator_id args target
unfolding check_control
check_control-Acceptable operator_id args target h = record {
  known = ground arith;
  shaped = ground arith;
  aimed = control_target-Aims args target (ground arith);
}

Aims-control_target :
    (args : ControlArgs) (target : Option (String × ℕ))
    → Aims args target
    → control_target args ≡ returned target
unfolding control_target target_of
Aims-control_target args none (aims_at_none approving p q) = ground arith
Aims-control_target args (some target) (aims_at run_id revision rejecting p named q positive) =
    ground arith

pub Acceptable-check_control :
    (operator_id : String) (args : ControlArgs) (target : Option (String × ℕ))
    → Acceptable operator_id args target
    → check_control operator_id args ≡ returned target
unfolding check_control
Acceptable-check_control operator_id args target a =
    let known = a.known in
    let shaped = a.shaped in let aimed = Aims-control_target args target a.aimed in ground arith

-- An answer of vcops that establishes a cancellation: exit status 0, at most 64 KiB, `ok`, and a run
-- whose status is `cancelled`.
pub record Cancelled (answer : Helped) (result : Fields) : Type 0 where
  pub bytes : ℕ
  pub run : Fields
  pub answered : answer ≡ helped (pos 0) bytes (some (obj result))
  pub small : bytes ≤ 65536
  pub said : get "ok" result ≡ boolean true
  pub run_is : get "workflow_run" result ≡ obj run
  pub status_is : get "status" run ≡ str "cancelled"

is_true-boolean : (v : Json) → is_true v ≡ true → v ≡ boolean true
is_true-boolean (boolean true) h = refl
is_true-boolean v h = absurd (cc h)

is_text-str : (text : String) (v : Json) → is_text text v ≡ true → v ≡ str text
is_text-str text (str s) h = ap str (str_eq→eq s text h)
is_text-str text v h = absurd (cc h)

is_zero-pos : (status : ℤ) → is_zero status ≡ true → status ≡ pos 0
is_zero-pos (pos n) h = ap pos (ground arith)
is_zero-pos (negsuc n) h = absurd (cc h)

status_of-str :
    (v : Json)
    → is_text "cancelled" (status_of v) ≡ true
    → (run : Fields) × (v ≡ obj run) × (get "status" run ≡ str "cancelled")
status_of-str (obj run) h = (run, refl, is_text-str "cancelled" (get "status" run) h)
status_of-str v h = absurd (cc h)

answered-Cancelled :
    (status : ℤ) (bytes : ℕ) (fields result : Fields)
    → bytes ≤ 65536
    → cancelled_result (status, fields) ≡ returned result
    → Cancelled (helped status bytes (some (obj fields))) result
unfolding cancelled_result
answered-Cancelled status bytes fields result small h =
    let same : fields ≡ result = ground arith in
    let zero_status : status ≡ pos 0 = is_zero-pos status (ground arith) in
    let said = is_true-boolean (get "ok" fields) (ground arith) in
    let (run, run_is, status_is) = status_of-str (get "workflow_run" fields) (ground arith) in
    record {
      bytes = bytes;
      run = run;
      answered = rw (zero_status, same) refl;
      small = small;
      said = rw same at said;
      run_is = rw same at run_is;
      status_is = status_is;
    }

pub cancelled_result-Cancelled :
    (answer : Helped) (result : Fields)
    → (helper_result answer >>= cancelled_result) ≡ returned result
    → Cancelled answer result
unfolding helper_result
cancelled_result-Cancelled helper_unavailable result h = absurd (cc h)
cancelled_result-Cancelled helper_timeout result h = absurd (cc h)
cancelled_result-Cancelled helper_undecodable result h = absurd (cc h)
cancelled_result-Cancelled (helped status bytes (some (obj fields))) result h =
    answered-Cancelled status bytes fields result (ground arith) (ground arith)
cancelled_result-Cancelled (helped status bytes output) result h = absurd (ground arith)

said-cancelled_result :
    (result run : Fields)
    → get "ok" result ≡ boolean true
    → get "workflow_run" result ≡ obj run
    → get "status" run ≡ str "cancelled"
    → cancelled_result (pos 0, result) ≡ returned result
unfolding cancelled_result
said-cancelled_result result run said run_is status_is = rw (said, run_is, status_is) refl

helper_result-obj :
    (bytes : ℕ) (result : Fields)
    → bytes ≤ 65536
    → helper_result (helped (pos 0) bytes (some (obj result))) ≡ returned (pos 0, result)
unfolding helper_result
helper_result-obj bytes result small = ground arith

pub Cancelled-cancelled_result :
    (answer : Helped) (result : Fields)
    → Cancelled answer result
    → (helper_result answer >>= cancelled_result) ≡ returned result
Cancelled-cancelled_result answer result c =
    rw (c.answered, helper_result-obj c.bytes result c.small)
      (said-cancelled_result result c.run c.said c.run_is c.status_is)
