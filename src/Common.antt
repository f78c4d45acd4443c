-- ===== src/Common.antt =====
-- The shared parts of crates/b3-common.
pub mod Backoff
pub mod Health
pub mod OpResult
pub mod Limits
pub mod Speech
mod Tests
