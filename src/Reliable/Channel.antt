-- ===== src/Reliable/Channel.antt =====
-- crates/b3-reliable/src/channel.rs: the reliable channel.
-- An operation returns the new channel, then the byte strings that it hands to `transport_tx`, in
-- order, then what it delivers. The clock of `timestamp` is an argument: its reading, as a number of
-- milliseconds, for each frame of a call. Sequence numbers wrap as in a release build. Log lines
-- are left out. A `BTreeMap` is a list of its entries, of which only the keys and the size are used.
pub mod State
pub mod Sender
pub mod Receiver
pub mod Stream
pub mod Buffer
pub mod Critical
pub mod Ahead
pub mod Resume
pub mod Delivery
pub mod Seen
pub mod Complete
pub mod Chunking
pub mod Framing
pub mod Transcript
pub mod Carried
pub mod EndToEnd
pub mod Tests
