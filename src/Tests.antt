-- ===== src/Tests.antt =====
-- Tests: the theorems at concrete inputs.
mod Requests
mod Evidence
mod Launches
mod Tokens
mod Permits
mod Preferences
mod Arguments
mod Claims
