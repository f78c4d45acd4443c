-- ===== src/Daemon/Protocol/Tests.antt =====
-- Tests of protocol.rs.
use b.Prelude.{
  ℕ, ◌≡◌, refl, List, [], ◌∷◌, ◌++◌, length, replicate, length-replicate, Bytes, ok, arith, is_utf8,
  as_bytes,
}
use b.Daemon.Protocol.{
  Message, status_resp, resize, exited, max_len, read_message, write_message, tag_payload,
}
use b.Daemon.Protocol.Stream.{
  read_messages, write_messages, read_message-write_message, read_messages-write_messages,
}

abbrev report : Message
report = status_resp (as_bytes "läuft")

abbrev messages : List Message
messages = resize 40 120 ∷ report ∷ exited 4294967295 ∷ []

read_message-write_message_example :
    read_message (write_message report ++ (9 ∷ [])) ≡ ok (report, 9 ∷ [])
unfolding is_utf8 tag_payload
read_message-write_message_example = read_message-write_message report (9 ∷ []) refl (omega arith)

read_messages-write_messages_example :
    read_messages 3 (write_messages messages ++ (7 ∷ [])) ≡ ok (messages, 7 ∷ [])
unfolding is_utf8 tag_payload
read_messages-write_messages_example = read_messages-write_messages messages (7 ∷ []) (
  ((omega arith, omega arith), omega arith),
  ((refl, omega arith), ((omega arith, omega arith), tt)),
)

unfoldable zeros : ℕ → Bytes
zeros n = replicate n 0

length-zeros : (n : ℕ) → length (zeros n) ≡ n
unfolding zeros
length-zeros n = length-replicate n 0

-- four mebibytes
abbrev large : Bytes
large = zeros max_len
