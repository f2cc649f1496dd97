-- ===== src/Entities.antt =====
-- The entity resolution policy of vcops.py.
pub mod Resolve
pub mod Outcomes
