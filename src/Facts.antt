-- ===== src/Facts.antt =====
-- The comparison of two facts by vcops.py.
pub mod Classify
pub mod Compared
pub mod Periods
pub mod Grounds
pub mod Exact
