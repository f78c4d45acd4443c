-- ===== src/Daemon/Protocol.antt =====
-- crates/b3-cli/src/daemon/protocol.rs: messages between daemon and client over a Unix socket.
-- A reader is the list of the bytes that are still to come, and a writer the list of those written.
-- `Exited` carries the bit pattern of its `i32`, and a `String` is its UTF-8.
pub mod Stream
mod Tests
use b.Prelude.{
  ℕ, ◌+◌, ◌-◌, ◌*◌, ◌%◌, Bool, List, [], ◌∷◌, ◌++◌, length, take, drop, get_or, ltb, ◌==◌,
  if◌then◌else◌, Bytes, u32_mod, u32_to_le_bytes, u16_to_le_bytes, read_u32, read_u16, is_utf8,
  Result, ok, err, and_then,
}

abbrev pub msg_input : ℕ
msg_input = 0x01

abbrev pub msg_resize : ℕ
msg_resize = 0x02

abbrev pub msg_detach : ℕ
msg_detach = 0x03

abbrev pub msg_stop : ℕ
msg_stop = 0x04

abbrev pub msg_status : ℕ
msg_status = 0x05

abbrev pub msg_output : ℕ
msg_output = 0x81

abbrev pub msg_exited : ℕ
msg_exited = 0x82

abbrev pub msg_status_resp : ℕ
msg_status_resp = 0x83

abbrev pub msg_welcome : ℕ
msg_welcome = 0x84

pub data Message : Type 0 where
  input output status_resp : Bytes → Message
  resize welcome : (rows cols : ℕ) → Message
  detach stop status : Message
  exited : ℕ → Message

-- the errors of the reader and those of `read_message`
pub data Error : Type 0 where
  unexpected_eof empty_message too_large bad_resize bad_exited bad_utf8 bad_welcome : Error
  unknown_type : ℕ → Error

abbrev pub max_len : ℕ
max_len = 4 * 1024 * 1024

abbrev pub sized : Bytes → Error → Message → Result Message Error
sized payload e m = if length payload == 4 then ok m else err e

-- The match on the tag.
unfoldable pub parsed : ℕ → Bytes → Result Message Error
parsed tag payload =
    if tag == msg_input
    then ok (input payload)
    else if tag == msg_resize
    then sized payload bad_resize (resize (read_u16 payload 0) (read_u16 payload 2))
    else if tag == msg_detach
    then ok detach
    else if tag == msg_stop
    then ok stop
    else if tag == msg_status
    then ok status
    else if tag == msg_output
    then ok (output payload)
    else if tag == msg_exited
    then sized payload bad_exited (exited (read_u32 payload 0))
    else if tag == msg_status_resp
    then (if is_utf8 payload then ok (status_resp payload) else err bad_utf8)
    else if tag == msg_welcome
    then sized payload bad_welcome (welcome (read_u16 payload 0) (read_u16 payload 2))
    else err (unknown_type tag)

-- The tag and the payload, of which the length is known.
unfoldable pub read_body : ℕ → Bytes → Result (Message × Bytes) Error
read_body payload_len [] = err unexpected_eof
read_body payload_len (tag ∷ rest) =
    if ltb (length rest) payload_len
    then err unexpected_eof
    else and_then (parsed tag (take payload_len rest)) (λ m. ok (m, drop payload_len rest))

unfoldable pub read_message : Bytes → Result (Message × Bytes) Error
read_message reader =
    if ltb (length reader) 4
    then err unexpected_eof
    else if read_u32 reader 0 == 0
    then err empty_message
    else if ltb max_len (read_u32 reader 0)
    then err too_large
    else read_body (read_u32 reader 0 - 1) (drop 4 reader)

abbrev pub size_payload : (rows cols : ℕ) → Bytes
size_payload rows cols = u16_to_le_bytes rows ++ u16_to_le_bytes cols

-- The match of `write_message`.
unfoldable pub tag_payload : Message → ℕ × Bytes
tag_payload (input d) = (msg_input, d)
tag_payload (resize rows cols) = (msg_resize, size_payload rows cols)
tag_payload detach = (msg_detach, [])
tag_payload stop = (msg_stop, [])
tag_payload status = (msg_status, [])
tag_payload (output d) = (msg_output, d)
tag_payload (exited code) = (msg_exited, u32_to_le_bytes code)
tag_payload (status_resp s) = (msg_status_resp, s)
tag_payload (welcome rows cols) = (msg_welcome, size_payload rows cols)

unfoldable pub write_message : Message → Bytes
write_message msg =
    let (tag, payload) = tag_payload msg in
    u32_to_le_bytes ((1 + length payload) % u32_mod) ++ (tag ∷ payload)
