-- ===== src/Relay.antt =====
-- crates/b3-gpu-relay/src/main.rs: the relay between browsers and a GPU worker. A payload is its bytes, a
-- text that was read from one the list of its characters. Sockets are not modelled: what arrives on one is
-- an argument, what is sent a result. The parts for WebRTC, which a feature gates, are left out.
pub mod Messages
pub mod Extract
pub mod Routing
pub mod Requests
pub mod Pending
pub mod Session
pub mod Forwarding
pub mod Lifetime
pub mod Waking
pub mod Expiry
mod Tests
