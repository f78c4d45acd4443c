-- ===== src/Webrtc/Message.antt =====
-- `ChannelMessage` of crates/b3-webrtc/src/channel.rs: its wire format and the split into chunks.
use Prim.Native.String.{String}
use b.Prelude.{
  ℕ, ◌+◌, ◌-◌, ◌*◌, ◌/◌, ◌%◌, Bool, ◌&&◌, ◌||◌, List, [], ◌∷◌, ◌++◌, ◌⊎◌, inl, inr, length, chunks,
  get_or, take, drop, ltb, leb, ◌==◌, if◌then◌else◌, Bytes, u32_mod, u32_to_le_bytes, read_u32,
}

-- `MAX_CHUNK_SIZE`, `CHUNK_HEADER_SIZE`, `FRAME_HEADER_SIZE`, `CHUNK_PAYLOAD_SIZE`, `MAX_CHUNKS`
abbrev pub max_chunk_size : ℕ
max_chunk_size = 16 * 1024

abbrev pub chunk_header_size : ℕ
chunk_header_size = 9

abbrev pub frame_header_size : ℕ
frame_header_size = 5

abbrev pub chunk_payload_size : ℕ
chunk_payload_size = max_chunk_size - frame_header_size - chunk_header_size

abbrev pub max_chunks : ℕ
max_chunks = 256

-- `TYPE_JSON` to `TYPE_CHUNK`
abbrev pub type_json : ℕ
type_json = 0x01

abbrev pub type_binary : ℕ
type_binary = 0x02

abbrev pub type_ping : ℕ
type_ping = 0x03

abbrev pub type_pong : ℕ
type_pong = 0x04

abbrev pub type_chunk : ℕ
type_chunk = 0x05

-- `ChannelMessage`
pub data Message (Value : Type 0) : Type 0 where
  json : Value → Message Value
  binary : Bytes → Message Value
  ping pong : Message Value

-- `DecodeResult`
pub data DecodeResult (Value : Type 0) : Type 0 where
  complete : Message Value → DecodeResult Value
  chunk : (seq total original_type : ℕ) → Bytes → DecodeResult Value

-- `DecodeError`
pub data DecodeError : Type 0 where
  too_short : DecodeError
  truncated : (expected got : ℕ) → DecodeError
  invalid_json : String → DecodeError
  invalid_chunk : DecodeError
  unknown_type : ℕ → DecodeError

-- `Result<DecodeResult, DecodeError>`
pub data Decoded (Value : Type 0) : Type 0 where
  ok : DecodeResult Value → Decoded Value
  err : DecodeError → Decoded Value

unfoldable pub encode_simple : ℕ → Bytes
encode_simple type_tag = type_tag ∷ u32_to_le_bytes 0

-- the frame of a message that fits
unfoldable pub single_frame : ℕ → Bytes → Bytes
single_frame type_tag payload = type_tag ∷ (u32_to_le_bytes (length payload % u32_mod) ++ payload)

-- the body of the loop over the chunks
unfoldable pub chunk_frame : (type_tag seq total : ℕ) → Bytes → Bytes
chunk_frame type_tag seq total chunk_data =
    type_chunk
    ∷ (u32_to_le_bytes ((chunk_header_size + length chunk_data) % u32_mod)
        ++ (u32_to_le_bytes (seq % u32_mod)
            ++ (u32_to_le_bytes (total % u32_mod) ++ (type_tag ∷ chunk_data))))

unfoldable pub chunk_frames : (type_tag seq total : ℕ) → List Bytes → List Bytes
chunk_frames type_tag seq total [] = []
chunk_frames type_tag seq total (c ∷ cs) =
    chunk_frame type_tag seq total c ∷ chunk_frames type_tag (seq + 1) total cs

abbrev pub total_chunks : Bytes → ℕ
total_chunks payload = (length payload + chunk_payload_size - 1) / chunk_payload_size

-- `encode`, behind its match: one frame if the payload fits, chunks if not.
unfoldable pub encode_payload : ℕ → Bytes → List Bytes
encode_payload type_tag payload =
    if leb (1 + 4 + length payload) max_chunk_size
    then single_frame type_tag payload ∷ []
    else chunk_frames type_tag 0 (total_chunks payload) (chunks chunk_payload_size payload)

module _ (Value : Type 0) where
  -- The branch of `decode` for a chunk.
  unfoldable pub decode_chunk : Bytes → Decoded Value
  decode_chunk payload =
      if ltb (length payload) chunk_header_size
      then err invalid_chunk
      else if ltb max_chunks (read_u32 payload 4)
      then err invalid_chunk
      else ok
          (chunk (read_u32 payload 0) (read_u32 payload 4) (get_or payload 8 0) (drop 9 payload))

module _ {Value : Type 0} (to_vec : Value → Bytes) (from_slice : Bytes → Value ⊎ String) where
  unfoldable pub encode : Message Value → List Bytes
  encode (json v) = encode_payload type_json (to_vec v)
  encode (binary d) = encode_payload type_binary d
  encode ping = encode_simple type_ping ∷ []
  encode pong = encode_simple type_pong ∷ []

  -- The match of `decode` on the type tag.
  unfoldable pub decode_body : ℕ → Bytes → Decoded Value
  decode_body type_tag payload =
      if type_tag == type_json
      then elim (from_slice payload) [
        | inl v ↦ ok (complete (json v))
        | inr e ↦ err (invalid_json e)
      ]
      else if type_tag == type_binary
      then ok (complete (binary payload))
      else if type_tag == type_ping
      then ok (complete ping)
      else if type_tag == type_pong
      then ok (complete pong)
      else if type_tag == type_chunk
      then decode_chunk Value payload
      else err (unknown_type type_tag)

  unfoldable pub decode : Bytes → Decoded Value
  decode d =
      if ltb (length d) 5
      then err too_short
      else if ltb (length d) (5 + read_u32 d 1)
      then err (truncated (5 + read_u32 d 1) (length d))
      else decode_body (get_or d 0 0) (take (read_u32 d 1) (drop 5 d))

-- `is_b3_reliable_frame`
unfoldable pub is_b3_reliable_frame : Bytes → Bool
is_b3_reliable_frame d =
    leb 2 (length d)
    && (get_or d 0 0 == 0xB3
        && (get_or d 1 0 == 0x01 || (get_or d 1 0 == 0x02 || get_or d 1 0 == 0x03)))
