-- ===== src/Runs.antt =====
-- Workflow runs: the life cycle that vcops.py and the database functions of migrations/ keep.
pub mod Status
pub mod Rows
pub mod Sql
pub mod Insert
pub mod Commands
pub mod Handlers
pub mod Parity
pub mod Edges
pub mod Evolution
pub mod Distinct
pub mod Updates
pub mod Advance
pub mod Handled
pub mod Serve
pub mod Lifecycle
pub mod Revisions
pub mod Progress
pub mod Reconcile
pub mod Replay
pub mod Lineage
pub mod Restart
