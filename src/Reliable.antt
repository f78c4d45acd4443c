-- ===== src/Reliable.antt =====
-- crates/b3-reliable: the wire format, the reliable channel, routing over several transports.
pub mod Frame
pub mod Channel
pub mod Multi
pub mod Sessions
pub mod Encrypted
