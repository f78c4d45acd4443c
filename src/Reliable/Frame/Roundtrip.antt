-- ===== src/Reliable/Frame/Roundtrip.antt =====
-- What the encoders of frame.rs write, `decode` reads back.
use b.Prelude.{
  ℕ, ◌<◌, ◌≡◌, some, ◌++◌, arith, length, length-append, take-length_append, Bytes, u16_mod,
  u32_mod,
}
use b.Reliable.Frame.{
  Priority, critical, best_effort, data_frame, ack_frame, resume_frame, encode_data, encode_ack,
  encode_resume, decode, decode_data, decode_ack, decode_resume, crc32,
}

-- A data frame decodes to the fields that it was encoded from and to its payload, whatever bytes
-- follow it in the message, if the numbers fit their fields.
pub decode-encode_data :
    (hash : Bytes → ℕ) (hash_u32 : (p : Bytes) → hash p < u32_mod) (seq ts : ℕ) (pri : Priority)
    (payload rest : Bytes)
    → seq < u32_mod
    → ts < u32_mod
    → length payload < u32_mod
    → decode hash (encode_data hash seq ts pri payload ++ rest)
      ≡ some (data_frame seq ts (crc32 hash payload) pri payload)
unfolding decode decode_data encode_data crc32
decode-encode_data hash hash_u32 seq ts critical payload rest hs ht hl =
    ground (arith, hash_u32 payload, take-length_append payload rest, length-append payload rest)
decode-encode_data hash hash_u32 seq ts best_effort payload rest hs ht hl =
    ground (arith, hash_u32 payload, take-length_append payload rest, length-append payload rest)

-- An ACK frame and a resume frame decode to the numbers that they were encoded from, whatever
-- bytes follow, if the numbers fit their fields.
pub decode-encode_control :
    (hash : Bytes → ℕ) (seq window : ℕ) (rest : Bytes)
    → seq < u32_mod
    → window < u16_mod
    → (decode hash (encode_ack seq window ++ rest) ≡ some (ack_frame seq window))
      × (decode hash (encode_resume seq ++ rest) ≡ some (resume_frame seq))
unfolding decode decode_ack decode_resume encode_ack encode_resume
decode-encode_control hash seq window rest hs hw = (ground arith, ground arith)
