-- ===== src/Reliable/Sessions.antt =====
-- Client sessions, their bridge and their manager: crates/b3-reliable/src/session.rs and bridge.rs.
pub mod Session
pub mod Tasks
pub mod Manager
pub mod Reconnect
pub mod Reachable
pub mod Bridge
mod Tests
