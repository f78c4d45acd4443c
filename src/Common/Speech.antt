-- ===== src/Common/Speech.antt =====
-- crates/b3-common/src/tts.rs: the audio of generated speech.
pub mod Base64
pub mod Decoding
pub mod Wav
pub mod Header
pub mod Parts
pub mod Stitching
mod Tests
