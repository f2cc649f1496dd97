-- ===== src/Validate.antt =====
-- The input checks of vcops.py that all handlers share.
pub mod Checks
pub mod Bounds
