-- ===== src/Claims.antt =====
-- The claims of an idempotency key: outer workflow requests and the notification outbox of vcops.py.
pub mod Claim
pub mod Handlers
pub mod Notifications
pub mod Bound
