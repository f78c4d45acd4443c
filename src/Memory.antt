-- ===== src/Memory.antt =====
-- crates/b3-cli/src/mcp/session_memory.rs: reading a range of lines of a transcript. A file is its bytes,
-- and reading it fails only at a line that is not UTF-8.
pub mod Lines
pub mod Range
pub mod Metadata
pub mod Times
pub mod Filters
pub mod Sampling
pub mod Ascending
pub mod Reservoir
pub mod Positions
pub mod Sampled
pub mod Render
pub mod Labels
pub mod Resurface
pub mod Chosen
pub mod Numbers
pub mod Output
mod Tests
