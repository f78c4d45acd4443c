-- ===== src/Webrtc.antt =====
-- crates/b3-webrtc/src/channel.rs: framed messages on a data channel. JSON text is read and written
-- by the crate `serde_json`: the type of its values and its two functions are parameters.
pub mod Message
pub mod Assembler
pub mod Roundtrip
pub mod Reassembly
pub mod Arrivals
mod Tests
