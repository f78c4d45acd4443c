-- ===== src/Reliable/Channel/Receiver.antt =====
-- The receiving side of crates/b3-reliable/src/channel.rs, and its periodic calls.
use b.Prelude.{
  ℕ, zero, suc, ◌+◌, ◌-◌, ◌%◌, Bool, true, false, not, ◌&&◌, List, [], ◌∷◌, ◌++◌, Option, none,
  some, length, filterb, is_empty, ltb, leb, ◌==◌, if◌then◌else◌, Bytes, u16_mod, u64_mod, succ32,
}
use b.Reliable.Frame.{
  Priority, Frame, data_frame, ack_frame, resume_frame, encode_ack, encode_resume, decode,
}
use b.Reliable.Channel.State.{ReceivedMessage, Channel}
use b.Reliable.Channel.Sender.{drop_acked, resendable, encodings, handle_resume}

-- `BTreeMap::contains_key`
unfoldable pub contains_key : ℕ → List (ℕ × ReceivedMessage) → Bool
contains_key k [] = false
contains_key k ((j, m) ∷ r) = if j == k then true else contains_key k r

-- `entry(k).or_insert(m)`
unfoldable pub or_insert :
    ℕ → ReceivedMessage → List (ℕ × ReceivedMessage) → List (ℕ × ReceivedMessage)
or_insert k m r = if contains_key k r then r else (k, m) ∷ r

-- what `BTreeMap::remove` returns, and what it leaves
unfoldable pub lookup : ℕ → List (ℕ × ReceivedMessage) → Option ReceivedMessage
lookup k [] = none
lookup k ((j, m) ∷ r) = if j == k then some m else lookup k r

unfoldable pub remove : ℕ → List (ℕ × ReceivedMessage) → List (ℕ × ReceivedMessage)
remove k [] = []
remove k ((j, m) ∷ r) = if j == k then r else (j, m) ∷ remove k r

-- The match of `process_chunk` on the tag: the new assembly, and the message if there is one.
unfoldable pub assemble : Bytes → Bytes → ℕ → Priority → Bytes × List ReceivedMessage
assemble asm [] seq priority = (asm, [])
assemble asm (tag ∷ rest) seq priority =
    if tag == 0x00
    then (asm, record { payload = rest; seq = seq; priority = priority } ∷ [])
    else if tag == 0x01
    then (rest, [])
    else if tag == 0x02
    then (asm ++ rest, [])
    else if tag == 0x03
    then ([], record { payload = asm ++ rest; seq = seq; priority = priority } ∷ [])
    else (asm, record { payload = tag ∷ rest; seq = seq; priority = priority } ∷ [])

unfoldable pub process_chunk : Channel → Bytes → ℕ → Priority → Channel × List ReceivedMessage
process_chunk c payload seq priority =
    let (asm, out) = assemble c.chunk_assembly payload seq priority in
    (record c { chunk_assembly = asm }, out)

-- The body of the loop that drains the reorder buffer, for the entry that it removed.
unfoldable pub deliver_next : Channel → ReceivedMessage → Channel × List ReceivedMessage
deliver_next c next =
    process_chunk
      (record c {
        last_contiguous = next.seq;
        reorder_buffer = remove (succ32 c.last_contiguous) c.reorder_buffer;
      })
      next.payload next.seq next.priority

-- `while let Some(next) = self.reorder_buffer.remove(&(self.last_contiguous + 1)) { … }`. Each round
-- takes an entry away, so as many rounds as there are entries are enough.
unfoldable pub drain : ℕ → Channel → Channel × List ReceivedMessage
drain zero c = (c, [])
drain (suc fuel) c = elim (lookup (succ32 c.last_contiguous) c.reorder_buffer) [
  | none ↦ (c, [])
  | some next ↦
      let (c1, out) = deliver_next c next in let (c2, more) = drain fuel c1 in (c2, out ++ more)
]

-- The branch of `receive_data` for the next expected frame, up to its loop.
unfoldable pub accept_next : Channel → ℕ → Priority → Bytes → Channel × List ReceivedMessage
accept_next c seq priority payload =
    process_chunk (record c { ack_pending = true; last_contiguous = seq }) payload seq priority

unfoldable pub receive_data : Channel → ℕ → Priority → Bytes → Channel × List ReceivedMessage
receive_data c seq priority payload =
    if leb seq c.last_contiguous
    then (record c { ack_pending = true }, [])
    else if seq == succ32 c.last_contiguous
    then (let (c1, out) = accept_next c seq priority payload in
        let (c2, more) = drain (length c1.reorder_buffer) c1 in (c2, out ++ more))
    else (
      record c {
        ack_pending = true;
        reorder_buffer =
            or_insert seq (record { payload = payload; seq = seq; priority = priority })
              c.reorder_buffer;
      },
      [],
    )

-- `receive_ack`: the third duplicate of an ACK sends the critical messages behind it again.
unfoldable pub receive_ack : Channel → ℕ → Channel × List Bytes
receive_ack c ack_seq =
    if ltb c.last_ack_received ack_seq
    then (
      record c {
        last_ack_received = ack_seq;
        send_buffer = drop_acked ack_seq c.send_buffer;
        duplicate_ack_count = 0;
      },
      [],
    )
    else if ack_seq == c.last_ack_received && not (is_empty c.send_buffer)
    then (if leb 3 (succ32 c.duplicate_ack_count)
        then (
          record c { duplicate_ack_count = 0 },
          encodings (filterb (resendable ack_seq) c.send_buffer),
        )
        else (record c { duplicate_ack_count = succ32 c.duplicate_ack_count }, []))
    else (c, [])

unfoldable pub reset : Channel → Channel
reset c = record c {
  next_seq = 1;
  send_buffer = [];
  last_ack_received = 0;
  last_contiguous = 0;
  reorder_buffer = [];
  ack_pending = false;
  chunk_assembly = [];
  duplicate_ack_count = 0;
}

unfoldable pub send_resume : Channel → List Bytes
send_resume c = encode_resume c.last_contiguous ∷ []

unfoldable pub last_contiguous_received : Channel → ℕ
last_contiguous_received c = c.last_contiguous

-- The free space of the reorder buffer, as `(a - b) as u16` of two `usize` in a release build.
abbrev pub window : Channel → ℕ
window c = (u64_mod + c.config.max_send_buffer - length c.reorder_buffer) % u64_mod % u16_mod

unfoldable pub tick : Channel → Channel × List Bytes
tick c =
    if c.ack_pending
    then (record c { ack_pending = false }, encode_ack c.last_contiguous (window c) ∷ [])
    else (c, [])

unfoldable pub flush_unacked : Channel → List Bytes
flush_unacked c = encodings (filterb (resendable c.last_ack_received) c.send_buffer)

unfoldable pub unacked_count : Channel → ℕ
unacked_count c = length c.send_buffer

unfoldable pub reorder_count : Channel → ℕ
reorder_count c = length c.reorder_buffer

module _ (hash : Bytes → ℕ) where
  -- The match of `receive` on the decoded frame.
  unfoldable pub dispatch :
      Channel → (ℕ → ℕ) → Option Frame → Channel × List Bytes × List ReceivedMessage
  dispatch c clock none = (c, [], [])
  dispatch c clock (some (data_frame seq timestamp checksum priority payload)) =
      let (c1, out) = receive_data c seq priority payload in (c1, [], out)
  dispatch c clock (some (ack_frame ack_seq win)) =
      let (c1, sent) = receive_ack c ack_seq in (c1, sent, [])
  dispatch c clock (some (resume_frame last_ack_seq)) =
      let (c1, sent) = handle_resume hash c clock last_ack_seq in (c1, sent, [])

  unfoldable pub receive : Channel → (ℕ → ℕ) → Bytes → Channel × List Bytes × List ReceivedMessage
  receive c clock bytes = dispatch c clock (decode hash bytes)
