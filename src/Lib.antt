-- ===== src/Lib.antt =====
-- A model of the Rust crates of b3: the reliable channel between daemon and browser, the routing of
-- its frames over several transports, the messages of WebRTC data channels, and the state that the
-- daemon keeps beside them.
--
-- The parts and their files:
--   * crates/b3-reliable/src/frame.rs: Reliable/Frame.antt. A byte is a number below 256 and a byte
--     string a list. `encode_data` .. `decode` are the functions of that name. `hash` is the
--     checksum of the crate crc32fast, a parameter; where a theorem needs it, its values fit a u32.
--   * crates/b3-reliable/src/channel.rs: Reliable/Channel.antt and the files below it. `Channel` is
--     `ReliableChannel` without the closure `transport_tx`: what an operation hands to the closure
--     is returned as a list, in order. State has the structs, Sender has `send`, `send_one` and
--     `handle_resume`, Receiver has the rest. Stream, Delivery, Seen and Complete are about what a
--     receiver delivers; Buffer and Critical about what a sender keeps, Ahead about
--     an ACK of a number that is not used; Resume about `handle_resume`;
--     Chunking, Transcript and EndToEnd about whole messages from one channel to another.
--   * crates/b3-reliable/src/multi.rs: Reliable/Multi.antt. `Multi` is `MultiTransport`; a sink's
--     closure is a number, and the frames that go to it are paired with that number. It calls the
--     channel as the source does and routes what the channel hands out.
--   * crates/b3-reliable/src/session.rs and bridge.rs: Reliable/Sessions.antt. Tasks and queues are
--     numbers; an operation that aborts tasks returns them. The bridge is a loop over the events
--     that its `select!` takes.
--   * crates/b3-reliable/src/crypto.rs: Reliable/Encrypted.antt. `EncryptedChannel` is the record of
--     that name around a `Channel`; `transmit` is the closure that seals each frame. Handshake has the
--     states and the keys, Refinement compares a session with the channel inside, EndToEnd two of them.
--   * crates/b3-webrtc/src/channel.rs: Webrtc.antt. The JSON crate is two parameters, `to_vec` and
--     `from_slice`.
--   * crates/b3-common/src/backoff.rs, health.rs, errors.rs and limits.rs: Common.antt.
--   * crates/b3-common/src/tts.rs: Common/Speech.antt, the decoding of base64 and the stitching of WAV
--     files, of which Parts describes the samples. The interpolation of a sample, in floating point, is a
--     parameter.
--   * crates/b3-cli/src/daemon/server.rs, `clamp_cursor_up`: Daemon/Cursor.antt.
--   * crates/b3-cli/src/bridge/puller.rs, `HiveDedup`: Hive/Dedup.antt.
--   * crates/b3-cli/src/mcp/session_memory.rs: Memory.antt. Lines and Range are about `read_line_range`, on
--     the bytes of the file; Filters, Sampling, Render and Resurface are `handle_resurface` from the
--     resolved file on. Reservoir, Positions and Sampled are about its sample, Labels, Chosen,
--     Numbers and Output
--     about what it prints; Metadata and Times about
--     `extract_session_data` and the times of a session. serde_json is a record of functions, and what the generator draws a function.
--   * crates/b3-gpu-relay/src/main.rs: Relay.antt. Messages and Extract are about the fields that are read
--     off a text; Routing, Requests and Pending about the map of pending requests, a list of entries in any
--     order; Session and Forwarding about `handle_session_frame`, an encrypted channel around a second
--     reliable channel. The outcome of a connection and of each send is an argument. Lifetime, Waking
--     and Expiry are about how a session of `handle_browser_ws` is opened, left and removed; time is in seconds.
--   * crates/b3-cli/src/daemon/info_archive.rs and tts_archive.rs: Daemon.antt.
--   * crates/b3-cli/src/daemon/protocol.rs: Daemon/Protocol.antt, on lists of bytes.
--   * crates/b3-cli/src/daemon/web.rs (the pusher and the session store) and `send_init_frame` of
--     ec2_proxy.rs: Daemon/Terminal.antt. Buffer is about the ring buffer, Follow and Whole about a
--     viewer that draws what it is sent. What `recv` and `try_recv` return is an argument, messages that were
--     missed included.
--   * crates/b3-cli/src/crypto/hive.rs: Hive.antt. The cipher crates are the fields of a record, and
--     what is relied on of them stands in `Laws`. Pins is `pin_public_key` on a list of files, with
--     the outcome of each write as an argument.
--   * Prelude.antt has the names, lists, words and Boolean tests that all share.
--
-- Numbers: a sequence number is computed modulo 2^32 and a session number modulo 2^64, as in a
-- release build. A theorem that needs numbers not to wrap says so. `none` as the result of `send` is
-- the panic of `chunks(0)`; of `next_delay`, that of a duration that overflows.
--
-- Fuel: the loop of `receive_data` that drains the reorder buffer takes one entry away in each round
-- and gets as many rounds as there are entries, so it ends by itself. `clamp_cursor_up`
-- takes at least one byte in each round and gets as many rounds as there are bytes. The digits of a number
-- `n` are computed in at most `n + 1` rounds, which `value_of-to_string` shows to be enough. Every other loop is
-- a recursion on a list or on a number.
--
-- Not modelled: locks and the scheduling of tasks (an operation is atomic, as under its lock), log lines,
-- `set_transport` by itself, `ChannelSender`, the wiping of secrets, the registration of the relay,
-- the tunnel, signaling, the daemon's servers and commands, and the programs in other languages. The two archives take the success of a write as an argument; a removal succeeds.
pub mod Prelude
pub mod Reliable
pub mod Webrtc
pub mod Common
pub mod Daemon
pub mod Hive
pub mod Memory
pub mod Relay
