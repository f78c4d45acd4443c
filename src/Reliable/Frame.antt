-- ===== src/Reliable/Frame.antt =====
-- crates/b3-reliable/src/frame.rs: the wire format of data, ACK and resume frames.
-- The CRC of the crate `crc32fast` is the section's parameter `hash`, the digest of a byte string.
pub mod Roundtrip
pub mod Reject
pub mod Tests
use b.Prelude.{
  ℕ, ◌+◌, ◌%◌, ◌≤◌, ◌<◌, ◌≡◌, Bool, true, false, ◌&&◌, List, [], ◌∷◌, ◌++◌, Option, none, some,
  length, get_or, take, drop, ltb, leb, ◌==◌, if◌then◌else◌, Bytes, u32_mod, u32_to_le_bytes,
  u16_to_le_bytes, read_u32, read_u16,
}

-- `DATA_HEADER_SIZE`, `ACK_SIZE`, `RESUME_SIZE`
abbrev pub data_header_size : ℕ
data_header_size = 2 + 4 + 4 + 4 + 1 + 4

abbrev pub ack_size : ℕ
ack_size = 2 + 4 + 2

abbrev pub resume_size : ℕ
resume_size = 2 + 4

-- `MAGIC`, `MAGIC_ACK`, `MAGIC_RESUME`
abbrev pub magic : Bytes
magic = 0xB3 ∷ 0x01 ∷ []

abbrev pub magic_ack : Bytes
magic_ack = 0xB3 ∷ 0x02 ∷ []

abbrev pub magic_resume : Bytes
magic_resume = 0xB3 ∷ 0x03 ∷ []

pub data Priority : Type 0 where
  critical best_effort : Priority

-- `priority as u8`
abbrev pub to_u8 : Priority → ℕ
to_u8 critical = 0
to_u8 best_effort = 1

-- `Priority::from_u8`
abbrev pub from_u8 : ℕ → Priority
from_u8 v = if v == 0 then critical else best_effort

pub data Frame : Type 0 where
  data_frame : (seq timestamp checksum : ℕ) → Priority → (payload : Bytes) → Frame
  ack_frame : (ack_seq window : ℕ) → Frame
  resume_frame : (last_ack_seq : ℕ) → Frame

unfoldable pub is_reliable : Bytes → Bool
is_reliable d =
    leb 2 (length d)
    && (get_or d 0 0 == 0xB3 && (leb 0x01 (get_or d 1 0) && leb (get_or d 1 0) 0x03))

unfoldable pub encode_ack : ℕ → ℕ → Bytes
encode_ack ack_seq window = magic_ack ++ (u32_to_le_bytes ack_seq ++ u16_to_le_bytes window)

unfoldable pub encode_resume : ℕ → Bytes
encode_resume last_ack_seq = magic_resume ++ u32_to_le_bytes last_ack_seq

unfoldable pub decode_ack : Bytes → Option Frame
decode_ack d =
    if ltb (length d) ack_size then none else some (ack_frame (read_u32 d 2) (read_u16 d 6))

unfoldable pub decode_resume : Bytes → Option Frame
decode_resume d = if ltb (length d) resume_size then none else some (resume_frame (read_u32 d 2))

module _ (hash : Bytes → ℕ) where
  unfoldable pub crc32 : Bytes → ℕ
  crc32 d = hash d

  unfoldable pub encode_data : ℕ → ℕ → Priority → Bytes → Bytes
  encode_data seq timestamp priority payload =
      magic
      ++ (u32_to_le_bytes seq
          ++ (u32_to_le_bytes timestamp
              ++ (u32_to_le_bytes (crc32 payload)
                  ++ (to_u8 priority ∷ (u32_to_le_bytes (length payload % u32_mod) ++ payload)))))

  unfoldable pub decode_data : Bytes → Option Frame
  decode_data d =
      if ltb (length d) data_header_size
      then none
      else (let payload_len = read_u32 d 15 in
          if ltb (length d) (data_header_size + payload_len)
          then none
          else (let payload = take payload_len (drop data_header_size d) in
              if crc32 payload == read_u32 d 10
              then some (
                  data_frame (read_u32 d 2) (read_u32 d 6) (read_u32 d 10) (from_u8 (get_or d 14 0))
                    payload)
              else none))

  -- The match on the first two bytes, after the test of the length.
  unfoldable pub decode : Bytes → Option Frame
  decode [] = none
  decode (a ∷ []) = none
  decode (a ∷ k ∷ rest) =
      if a == 0xB3
      then (if k == 0x01
          then decode_data (a ∷ k ∷ rest)
          else if k == 0x02
          then decode_ack (a ∷ k ∷ rest)
          else if k == 0x03
          then decode_resume (a ∷ k ∷ rest)
          else none)
      else none
