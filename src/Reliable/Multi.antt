-- ===== src/Reliable/Multi.antt =====
-- crates/b3-reliable/src/multi.rs: several transports under one reliable channel.
-- A transport's `send_fn` is a number that names it, its handle. An operation returns the byte
-- strings that it hands to a transport, each with the handle. The lock is left out: `&mut self`
-- excludes a second caller.
pub mod State
pub mod Sinks
pub mod Routing
mod Tests
