-- ===== src/Hive.antt =====
-- Messages between agents, of crates/b3-cli/src. Envelope, Order and Messages are about crypto/hive.rs, the
-- end-to-end encryption of direct messages and rooms, Pins and Trust about the keys that it knows; Dedup is
-- about messages that bridge/puller.rs gets twice. A text is its UTF-8. The crates that the code calls are
-- the fields of `Crates`; a key is its bytes. What `OsRng` returns, a nonce, an ephemeral secret or a room
-- key, is an argument.
pub mod Envelope
pub mod Order
pub mod Messages
pub mod Dedup
pub mod Pins
pub mod Trust
mod Tests
