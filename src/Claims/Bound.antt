-- ===== src/Claims/Bound.antt =====
-- The key of an outer workflow request stays bound to its first payload.
use venture_capital_lead_res.Prelude.{
  ◌≡◌, refl, Bool, true, List, str_eq, str_eq_refl, arith, if◌then◌else◌,
}
use venture_capital_lead_res.Fail.{ok, deny_exit}
use venture_capital_lead_res.Claims.Claim.{claim, claim_all, claim-again}
use venture_capital_lead_res.Claims.Handlers.{
  Tools, WorkflowRequest, has_request_key, RequestClaimArgs, requested_row, request_hash_of,
  cmd_workflow_request_claim,
}

has_request_key_self : (r : WorkflowRequest) → has_request_key r r ≡ true
unfolding has_request_key
has_request_key_self r = rw (str_eq_refl r.workflow_id, str_eq_refl r.idempotency_key) refl

-- The same key, whatever else: the tests that it makes on other rows are the same.
has_request_key_same :
    (a b : WorkflowRequest)
    → b.workflow_id ≡ a.workflow_id
    → b.idempotency_key ≡ a.idempotency_key
    → has_request_key b ≡ has_request_key a
unfolding has_request_key
has_request_key_same a b w k = rw (w, k) refl

-- Once a workflow request has claimed its key, then after any further claims of requests, a request
-- with the same workflow and key is answered with the first row, as a reused one, if its payload has
-- the digest of the first, and is refused as a mismatch if not; it changes nothing.
pub cmd_workflow_request_claim-again :
    (t : Tools) (first second : RequestClaimArgs) (a b row : WorkflowRequest)
    (rows rows' news : List WorkflowRequest) (reused : Bool)
    → requested_row t first ≡ ok a
    → requested_row t second ≡ ok b
    → b.workflow_id ≡ a.workflow_id
    → b.idempotency_key ≡ a.idempotency_key
    → cmd_workflow_request_claim t first rows ≡ ok ((row, reused), rows')
    → cmd_workflow_request_claim t second (claim_all has_request_key request_hash_of news rows') ≡ (
        if str_eq a.request_hash b.request_hash
        then ok ((row, true), claim_all has_request_key request_hash_of news rows')
        else deny_exit "idempotency_payload_mismatch" 1)
unfolding cmd_workflow_request_claim
cmd_workflow_request_claim-again t first second a b row rows rows' news reused one two w k h =
    let claimed : claim has_request_key request_hash_of a rows ≡ ok ((row, reused), rows') =
      ground arith in
    rw two (
      claim-again has_request_key request_hash_of a b row rows rows' news reused
        (has_request_key_self a) (has_request_key_same a b w k) claimed)
