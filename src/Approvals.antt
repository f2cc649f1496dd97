-- ===== src/Approvals.antt =====
-- The approvals of vcops.py: one-time tokens for governed actions, and the erasure of a lead.
pub mod Rows
pub mod Sql
pub mod Handlers
pub mod Moves
pub mod Serve
pub mod Erase
pub mod Permitted
pub mod Once
pub mod Cleared
pub mod Permits
pub mod Refines
