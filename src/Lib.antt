-- ===== src/Lib.antt =====
-- venture-capital-lead-research: a model of the command program `vcops`, of its launcher `vcrun`
-- and of the database functions that both rely on.
--
-- workspaces/vc-chief/vc/bin/vcops.py is a command program: each call is one process that does one
-- transaction on PostgreSQL and emits one JSON object. workspaces/vc-chief/vc/bin/vcrun.py launches
-- the fixed workflows: it asks vcops for a replay of the request, supervises the workflow engine as
-- a child process, and has vcops reconcile the run when the child fails. The tables' triggers and
-- functions under migrations/ guard what vcops does.
--
-- The files:
--   Prelude       names shared by all, Boolean tests on numbers and texts, lists
--   Fail          VcopsError, database errors by SQLSTATE, and the answer that `main` gives
--   Json          decoded JSON values and look-ups in objects
--   Validate      require_text, identifiers, digests (Checks); their range (Bounds)
--   Runs          the table workflow_runs: states (Status), rows (Rows), trigger, checks and
--                 functions of migrations 001, 011 and 018 (Sql, Insert), and the handlers of
--                 workflow-start, -replay-probe, -transition, -reconcile-failure and -cancel
--                 (Commands, Handlers), the lineage trigger of 004. Serve runs any sequence of the five commands; the other
--                 children hold the proofs.
--   Scoring       _load_rubric (Rubric), _evidence_ids (Evidence), one criterion (Criteria), the
--                 decision context (Context) and calculate_score (Score); the proofs are in
--                 Intervals, Sound, Reviewed, Bounded, Scored, Range and Gates
--   Runner        vcrun.py: output (Output), helper calls (Helper), the child (Child), the run
--                 command behind the check of its arguments (Launch), the workflows (Contracts),
--                 the check of the arguments (Args, Rules), main (Main), with proofs in Settled,
--                 Shown, Accepted, Conforms, Domain and Bound; vcrun_control.py: Control, proofs in
--                 Cancel and Ends
--   Entities      decide_entity_resolution and decide_external_research (Resolve)
--   Facts         classify_fact_pair with the periods and values of facts (Classify); proofs in
--                 Compared, Periods, Grounds and Exact
--   Trust         verify_trusted_context (Token) and consume_trusted_context (Uses); proofs in
--                 Checked, Opened, Verified and Single
--   Table         tables of rows: updates, and how a table may change
--   Approvals     approvals and the erasure of a lead: rows of migration 001 (Rows), checks,
--                 trigger and functions of migrations 001 and 017 (Sql), the commands
--                 approval-request, -decide, -consume and data-erase-lead (Handlers) and any
--                 sequence of them (Serve). Permits is the specification that Refines relates them
--                 to; Moves, Erase, Permitted, Once and Cleared hold further proofs
--   Preferences   the bounded preferences: tables of migration 010 (Rows), the commands
--                 preference-lookup, -observe and -forget (Handlers); proofs in Evidence, Justified
--                 and Forgotten
--   Claims        claims of an idempotency key: the one shape (Claim), the outer workflow requests,
--                 document requests (Handlers) and notifications (Notifications); proof in
--                 Bound
--   Tests         the theorems at concrete inputs
--
-- How the code is represented. A handler takes the state of the database and gives a result: a reply
-- with the new state, or an error, at which the transaction is rolled back. Concurrency is the
-- order of the transactions, which PostgreSQL's row locks and revisions make serial. The launcher
-- passes a world through its helper calls and its child. An exact decimal is a number of units of
-- 1 / `unit`; a score is in thousandths. The lists that the loops run over bound them, so that no
-- fuel is needed; the rounds of the child's supervision are a list that ends with its deadline.
--
-- Parameters of the model: SHA-256 digests and the printing of JSON, Python's lower, casefold, JSON
-- and Decimal decoders, the host name of a URL, the number reader of a claim, the signature of a
-- token and the parts of a path, HMAC-SHA-256, PostgreSQL's text of a JSON value, the helper process,
-- the installation check and the child, each of which may raise.
--
-- Not modelled: message texts and error details; the 28 digits of the default Decimal context; the
-- columns waiting_reason and blocked_reason; the time stamps of the uses and principals; signals;
-- what the installation check of vcrun looks at; the audit rows of approvals and preferences; the stored
-- payloads of requests and notifications; the record and document commands; runtime-extensions/ and
-- scripts/. An approval's expiry is computed by the clock of the database.
pub mod Prelude
pub mod Fail
pub mod Json
pub mod Validate
pub mod Runs
pub mod Scoring
pub mod Runner
pub mod Facts
pub mod Entities
pub mod Trust
pub mod Table
pub mod Claims
pub mod Approvals
pub mod Preferences
pub mod Tests
