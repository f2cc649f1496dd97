-- ===== src/Trust.antt =====
-- The trusted context of a channel message: the check of its token and its single use.
pub mod Uses
pub mod Single
pub mod Token
pub mod Checked
pub mod Opened
pub mod Verified
