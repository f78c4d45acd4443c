-- ===== src/Daemon.antt =====
-- The archives that the daemon of crates/b3-cli keeps on disk.
pub mod Eviction
pub mod InfoArchive
pub mod TtsArchive
pub mod Protocol
pub mod Terminal
pub mod Cursor
mod Tests
