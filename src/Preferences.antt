-- ===== src/Preferences.antt =====
-- The bounded preferences of a channel's user: what vcops.py learns, shows and forgets.
pub mod Rows
pub mod Handlers
pub mod Evidence
pub mod Justified
pub mod Forgotten
