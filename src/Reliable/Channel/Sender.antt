-- ===== src/Reliable/Channel/Sender.antt =====
-- The sending side of crates/b3-reliable/src/channel.rs: `send`, `send_one` and `handle_resume`.
use b.Prelude.{
  ℕ, ◌+◌, ◌-◌, ◌%◌, Bool, false, not, ◌&&◌, ◌||◌, List, [], ◌∷◌, ◌++◌, Option, none, some, map,
  length, chunks, drop, filterb, ltb, leb, ◌==◌, if◌then◌else◌, Bytes, u32_mod, succ32,
}
use b.Reliable.Frame.{Priority, encode_data, data_header_size}
use b.Reliable.Channel.State.{BufferedMessage, Channel, is_critical}

-- Whether the loop that enforces the limit drops this message, when it stands at the front.
abbrev pub evictable : ℕ → BufferedMessage → Bool
evictable last_ack m = not (is_critical m.priority) || leb m.seq last_ack

-- `while self.send_buffer.len() > self.config.max_send_buffer { … }`
unfoldable pub evict : (limit last_ack : ℕ) → List BufferedMessage → List BufferedMessage
evict limit last_ack [] = []
evict limit last_ack (m ∷ ms) =
    if ltb limit (length (m ∷ ms)) && evictable last_ack m then evict limit last_ack ms else m ∷ ms

-- `while let Some(front) = self.send_buffer.front() { if front.seq <= ack { pop_front } … }`
unfoldable pub drop_acked : ℕ → List BufferedMessage → List BufferedMessage
drop_acked ack [] = []
drop_acked ack (m ∷ ms) = if leb m.seq ack then drop_acked ack ms else m ∷ ms

-- the messages that a retransmission or a replay sends again
abbrev pub resendable : ℕ → BufferedMessage → Bool
resendable ack m = ltb ack m.seq && is_critical m.priority

-- The tag of chunk `i` of a payload that is split: 1 for the first, 3 for the last, 2 between.
unfoldable pub chunk_tag : (i last_idx : ℕ) → ℕ
chunk_tag i last_idx = if i == 0 then 0x01 else if i == last_idx then 0x03 else 0x02

-- the loop over the chunks, from chunk `i` on
unfoldable pub tag_chunks : (i last_idx : ℕ) → List Bytes → List Bytes
tag_chunks i last_idx [] = []
tag_chunks i last_idx (c ∷ cs) = (chunk_tag i last_idx ∷ c) ∷ tag_chunks (i + 1) last_idx cs

-- The tagged payloads that `send` hands to `send_one`; `none` is the panic of `chunks(0)`.
unfoldable pub framed : ℕ → Bytes → Option (List Bytes)
framed max payload =
    if leb (length payload) max
    then some ((0x00 ∷ payload) ∷ [])
    else if max == 0
    then none
    else some (tag_chunks 0 (length (chunks max payload) - 1) (chunks max payload))

-- the payload of a buffered frame, as the reset after a gap takes it out of the encoding
unfoldable pub buffered_payload : BufferedMessage → Bytes
buffered_payload m =
    if ltb data_header_size (length m.encoded) then drop data_header_size m.encoded else m.encoded

abbrev pub encodings : List BufferedMessage → List Bytes
encodings ms = map (λ m. m.encoded) ms

abbrev pub front_after : ℕ → List BufferedMessage → Bool
front_after seq [] = false
front_after seq (m ∷ ms) = ltb seq m.seq

module _ (hash : Bytes → ℕ) where
  -- `send_one`, with the reading of the clock.
  unfoldable pub send_one : Channel → ℕ → Bytes → Priority → Channel × Bytes
  send_one c now payload priority =
      let encoded = encode_data hash c.next_seq (now % u32_mod) priority payload in
      let m : BufferedMessage = record {
        seq = c.next_seq;
        priority = priority;
        encoded = encoded;
      } in
      (
        record c {
          next_seq = succ32 c.next_seq;
          send_buffer =
              evict c.config.max_send_buffer c.last_ack_received (c.send_buffer ++ (m ∷ []));
        },
        encoded,
      )

  -- Consecutive calls of `send_one`; the clock is read at the number of the frame in the call.
  unfoldable pub send_each : Channel → (ℕ → ℕ) → ℕ → List (Bytes × Priority) → Channel × List Bytes
  send_each c clock i [] = (c, [])
  send_each c clock i ((p, pri) ∷ ps) =
      let (c1, sent) = send_one c (clock i) p pri in
      let (c2, more) = send_each c1 clock (i + 1) ps in (c2, sent ∷ more)

  -- `send`; `none` is the panic of `chunks(0)`.
  unfoldable pub send : Channel → (ℕ → ℕ) → Bytes → Priority → Option (Channel × List Bytes)
  send c clock payload priority = elim (framed c.config.max_frame_payload payload) [
    | none ↦ none
    | some ps ↦ some (send_each c clock 0 (map (λ p. (p, priority)) ps))
  ]

  -- The two resets at the head of `handle_resume`, with what the second sends again.
  unfoldable pub resume_reset : Channel → (ℕ → ℕ) → ℕ → Channel × List Bytes
  resume_reset c clock last_ack_seq =
      if leb c.next_seq last_ack_seq
      then (
        record c {
          next_seq = succ32 last_ack_seq;
          send_buffer = [];
          last_contiguous = 0;
          reorder_buffer = [];
        },
        [],
      )
      else if ltb last_ack_seq c.next_seq && front_after (succ32 last_ack_seq) c.send_buffer
      then send_each
          (record c {
            next_seq = succ32 last_ack_seq;
            last_contiguous = last_ack_seq;
            send_buffer = [];
            reorder_buffer = [];
          })
          clock 0
          (map (λ m. (buffered_payload m, m.priority))
            (filterb (λ m. is_critical m.priority) c.send_buffer))
      else (c, [])

  unfoldable pub handle_resume : Channel → (ℕ → ℕ) → ℕ → Channel × List Bytes
  handle_resume c clock last_ack_seq =
      let (c1, resent) =
        resume_reset (record c { last_ack_received = last_ack_seq }) clock last_ack_seq in
      (
        record c1 { send_buffer = drop_acked last_ack_seq c1.send_buffer },
        resent ++ encodings (filterb (resendable last_ack_seq) c1.send_buffer),
      )
