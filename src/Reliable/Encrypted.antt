-- ===== src/Reliable/Encrypted.antt =====
-- crates/b3-reliable/src/crypto.rs: the encrypted channel, around a reliable channel.
-- An operation returns the new state, then the byte strings that it hands to `raw_tx`, in order, then
-- what it delivers. `transmit` is the closure that `new` and `reset_for_reconnect` give to the inner
-- channel; it runs on each frame that the inner channel hands out. The crates that it calls are the
-- fields of `Crates`; a cipher is its key. Log lines and the wiping of secrets are left out.
pub mod Channel
pub mod Sealing
pub mod Handshake
pub mod Refinement
pub mod EndToEnd
mod Tests
