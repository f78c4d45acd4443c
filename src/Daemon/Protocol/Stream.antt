-- ===== src/Daemon/Protocol/Stream.antt =====
-- Reading back what `write_message` wrote, message after message.
use b.Prelude.{
  ℕ, zero, suc, ◌+◌, ◌-◌, ◌%◌, ◌≤◌, ◌<◌, ◌≡◌, refl, ◌∙◌, ap, ap₂, true, false, List, [], ◌∷◌, ◌++◌,
  length, take, drop, ltb, ◌==◌, Bytes, u16_mod, u32_mod, u32_to_le_bytes, read_u32,
  u32_le_round_trip, u16_le_round_trip, is_utf8, Result, ok, err, and_then, All, arith,
  take-length_append, length-append, append_assoc, length-take, if◌then◌else◌,
}
use b.Daemon.Protocol.{
  Message, input, output, status_resp, resize, welcome, detach, stop, status, exited, Error,
  unexpected_eof, empty_message, too_large, max_len, parsed, read_body, read_message, tag_payload,
  write_message,
}

-- The numbers of a message fit their Rust types, and a text is UTF-8.
abbrev pub IsMessage : Message → Type 0
IsMessage (input d) = Unit
IsMessage (resize rows cols) = (rows < u16_mod) × (cols < u16_mod)
IsMessage detach = Unit
IsMessage stop = Unit
IsMessage status = Unit
IsMessage (output d) = Unit
IsMessage (exited code) = code < u32_mod
IsMessage (status_resp s) = is_utf8 s ≡ true
IsMessage (welcome rows cols) = (rows < u16_mod) × (cols < u16_mod)

abbrev pub payload : Message → Bytes
payload m = (tag_payload m).1

drop-length_append : (xs ys : Bytes) → drop (length xs) (xs ++ ys) ≡ ys
drop-length_append [] ys = refl
drop-length_append (x ∷ xs) ys = drop-length_append xs ys

parsed-tag_payload : (m : Message) → IsMessage m → parsed (tag_payload m).0 (tag_payload m).1 ≡ ok m
unfolding parsed tag_payload
parsed-tag_payload (input d) h = refl
parsed-tag_payload (resize rows cols) h =
    ap₂ (λ r c. ok (resize r c)) (u16_le_round_trip rows h.0) (u16_le_round_trip cols h.1)
parsed-tag_payload detach h = refl
parsed-tag_payload stop h = refl
parsed-tag_payload status h = refl
parsed-tag_payload (output d) h = refl
parsed-tag_payload (exited code) h = ap (λ c. ok (exited c)) (u32_le_round_trip code h)
parsed-tag_payload (status_resp s) h = rw (h, parsed) refl
parsed-tag_payload (welcome rows cols) h =
    ap₂ (λ r c. ok (welcome r c)) (u16_le_round_trip rows h.0) (u16_le_round_trip cols h.1)

read_body-tag_payload :
    (m : Message) (rest : Bytes)
    → IsMessage m
    → read_body (length (payload m)) ((tag_payload m).0 ∷ (payload m ++ rest)) ≡ ok (m, rest)
unfolding read_body
read_body-tag_payload m rest h =
    let long : ltb (length (payload m ++ rest)) (length (payload m)) ≡ false =
      ground (arith, length-append (payload m) rest) in
    rw
      (
        long,
        read_body,
        take-length_append (payload m) rest,
        drop-length_append (payload m) rest,
        parsed-tag_payload m h,
      )
      refl

-- What `read_message` does behind a length.
read_message-length :
    (n : ℕ) (body : Bytes)
    → n < u32_mod
    → read_message (u32_to_le_bytes (n % u32_mod) ++ body) ≡ (
        if n == 0
        then err empty_message
        else if ltb max_len n
        then err too_large
        else read_body (n - 1) body)
unfolding read_message
read_message-length n body h =
    let e : read_u32 (u32_to_le_bytes (n % u32_mod) ++ body) 0 ≡ n =
      u32_le_round_trip (n % u32_mod) (omega arith) ∙ omega arith in
    let l : ltb (length (u32_to_le_bytes (n % u32_mod) ++ body)) 4 ≡ false = ground arith in
    rw (l, read_message, e) refl

read_message-body :
    (n : ℕ) (body : Bytes)
    → n < max_len
    → read_message (u32_to_le_bytes ((1 + n) % u32_mod) ++ body) ≡ read_body n body
read_message-body n body h =
    let back : 1 + n - 1 ≡ n = omega arith in
    let pos : ((1 + n) == 0) ≡ false = ground arith in
    let fits : ltb max_len (1 + n) ≡ false = ground arith in
    read_message-length (1 + n) body (omega arith) ∙ rw (pos, fits, back) refl

-- A message whose numbers fit and whose text is UTF-8, of less than 4 MiB, is read back from the bytes
-- that were written, whatever follows them, and what follows stays.
pub read_message-write_message :
    (m : Message) (rest : Bytes)
    → IsMessage m
    → length (payload m) < max_len
    → read_message (write_message m ++ rest) ≡ ok (m, rest)
unfolding write_message
read_message-write_message m rest h small =
    read_message-body (length (payload m)) ((tag_payload m).0 ∷ (payload m ++ rest)) small
    ∙ read_body-tag_payload m rest h

-- Consecutive calls of `read_message`, up to the first error.
unfoldable pub read_messages : ℕ → Bytes → Result (List Message × Bytes) Error
read_messages zero reader = ok ([], reader)
read_messages (suc n) reader =
    and_then (read_message reader) (λ r. and_then (read_messages n r.1) (λ s. ok (r.0 ∷ s.0, s.1)))

abbrev pub write_messages : List Message → Bytes
write_messages [] = []
write_messages (m ∷ ms) = write_message m ++ write_messages ms

-- Any messages whose numbers fit and whose texts are UTF-8, each of less than 4 MiB, are read back from
-- what was written one after the other, in their order, and what follows stays.
pub read_messages-write_messages :
    (ms : List Message) (rest : Bytes)
    → All (λ m. IsMessage m × (length (payload m) < max_len)) ms
    → read_messages (length ms) (write_messages ms ++ rest) ≡ ok (ms, rest)
unfolding read_messages
read_messages-write_messages [] rest h = refl
read_messages-write_messages (m ∷ ms) rest h =
    rw
      (
        append_assoc (write_message m) (write_messages ms) rest,
        read_message-write_message m (write_messages ms ++ rest) h.0.0 h.0.1,
        read_messages-write_messages ms rest h.1,
      )
      refl

read_body-short :
    (n j tag : ℕ) (p : Bytes)
    → length p ≡ n
    → j < suc n
    → read_body n (take j (tag ∷ p)) ≡ err unexpected_eof
unfolding read_body
read_body-short n zero tag p e h = refl
read_body-short n (suc j) tag p e h =
    let short : ltb (length (take j p)) n ≡ true = ground (arith, length-take j p) in
    rw (short, read_body) refl

-- A message that is cut short, at any byte, is an error of the reader: nothing is read from it.
pub read_message-truncated :
    (m : Message) (n : ℕ)
    → length (payload m) < max_len
    → n < length (write_message m)
    → read_message (take n (write_message m)) ≡ err unexpected_eof
unfolding write_message read_message
read_message-truncated m zero small short = refl
read_message-truncated m (suc zero) small short = refl
read_message-truncated m (suc (suc zero)) small short = refl
read_message-truncated m (suc (suc (suc zero))) small short = refl
read_message-truncated m (suc (suc (suc (suc j)))) small short =
    read_message-body (length (payload m)) (take j ((tag_payload m).0 ∷ payload m)) small
    ∙ read_body-short (length (payload m)) j (tag_payload m).0 (payload m) refl (omega arith)

-- `write_message` has no limit of its own: a payload from 4 MiB up to what a `u32` counts is written, and
-- `read_message` refuses it, whatever follows.
pub read_message-too_large :
    (m : Message) (rest : Bytes)
    → max_len ≤ length (payload m)
    → suc (length (payload m)) < u32_mod
    → read_message (write_message m ++ rest) ≡ err too_large
unfolding write_message
read_message-too_large m rest big fits =
    let pos : ((1 + length (payload m)) == 0) ≡ false = ground arith in
    let over : ltb max_len (1 + length (payload m)) ≡ true = ground arith in
    read_message-length (1 + length (payload m)) ((tag_payload m).0 ∷ (payload m ++ rest))
      (omega arith)
    ∙ rw (pos, over) refl
