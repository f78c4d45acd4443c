-- ===== src/Reliable/Channel/Resume.antt =====
-- `handle_resume` of channel.rs, in each of its three cases.
use b.Prelude.{
  ℕ, suc, ◌+◌, ◌%◌, ◌≤◌, ◌<◌, ◌≡◌, ◌≢◌, refl, sym, ◌∙◌, ap, ap₂, true, false, List, [], ◌∷◌, ◌++◌,
  map, length, filterb, ltb, leb, lt→ltb, le→leb, Bytes, u32_mod, succ32, arith,
}
use b.Reliable.Frame.{Priority, critical, encode_data}
use b.Reliable.Channel.State.{BufferedMessage, Channel, is_critical}
use b.Reliable.Channel.Sender.{
  drop_acked, resendable, send_one, send_each, encodings, front_after, resume_reset, handle_resume,
  buffered_payload,
}
use b.Reliable.Channel.Receiver.{flush_unacked, receive_data}
use b.Reliable.Channel.Buffer.{drop_acked-filterb}
use b.Reliable.Channel.Critical.{IsOrdered, Sent, send_each-Sent}

-- The frames numbered from `seq` on that carry these payloads at one priority.
abbrev pub wire : (Bytes → ℕ) → (ℕ → ℕ) → Priority → (seq i : ℕ) → List Bytes → List Bytes
wire hash clock pri seq i [] = []
wire hash clock pri seq i (p ∷ ps) =
    encode_data hash seq (clock i % u32_mod) pri p ∷ wire hash clock pri (suc seq) (i + 1) ps

-- the payloads of the critical messages, as the reset after a gap takes them
abbrev pub preserved : List BufferedMessage → List Bytes
preserved ms = map buffered_payload (filterb (λ m. is_critical m.priority) ms)

preserved-pairs :
    (ms : List BufferedMessage)
    → map (λ m. (buffered_payload m, m.priority)) (filterb (λ m. is_critical m.priority) ms)
      ≡ map {B = Bytes × Priority} (λ p. (p, critical)) (preserved ms)
preserved-pairs [] = refl
preserved-pairs (m ∷ ms) = ground (arith, preserved-pairs ms)

-- the channel that the reset after a gap starts from
abbrev pub emptied : Channel → ℕ → Channel
emptied c last = record c {
  last_ack_received = last;
  next_seq = suc last;
  last_contiguous = last;
  send_buffer = [];
  reorder_buffer = [];
}

module _ (hash : Bytes → ℕ) where
  pub send_each-wire :
      (c : Channel) (clock : ℕ → ℕ) (i seq : ℕ) (pri : Priority) (ps : List Bytes)
      → c.next_seq ≡ seq
      → seq + length ps < u32_mod
      → (send_each hash c clock i (map (λ p. (p, pri)) ps)).1 ≡ wire hash clock pri seq i ps
  unfolding send_each send_one
  send_each-wire c clock i seq pri [] e h = refl
  send_each-wire c clock i seq pri (p ∷ ps) e h =
      ap₂ ◌∷◌ (ap (λ n. encode_data hash n (clock i % u32_mod) pri p) e) (
        send_each-wire (send_one hash c (clock i) p pri).0 clock (i + 1) (suc seq) pri ps
          (omega arith) (omega arith))

  -- A resume from a peer that lacks nothing but frames that are still buffered: every critical
  -- frame above the number is sent again, in order; the buffer keeps exactly what is above it; the
  -- next number and the receiving side stay as they are. The buffer is numbered before.
  pub handle_resume-replay :
      (c : Channel) (clock : ℕ → ℕ) (last : ℕ)
      → IsOrdered c
      → last < c.next_seq
      → front_after (succ32 last) c.send_buffer ≡ false
      → let r = handle_resume hash c clock last in
        (r.1 ≡ encodings (filterb (resendable last) c.send_buffer))
        × (r.0 ≡ record c {
          last_ack_received = last;
          send_buffer = filterb (λ m. ltb last m.seq) c.send_buffer;
        })
  unfolding handle_resume resume_reset
  handle_resume-replay c clock last v behind near =
      rw (reset_skipped, handle_resume)
        (
          refl,
          ap (λ b. record c { last_ack_received = last; send_buffer = b })
              (drop_acked-filterb last v.first c.next_seq c.send_buffer v.numbered),
        )
    where
      reset_skipped :
          resume_reset hash (record c { last_ack_received = last }) clock last
          ≡ (record c { last_ack_received = last }, [])
      reset_skipped = ground arith

  -- A resume from a peer that is ahead: the channel continues behind the peer's number, with an
  -- empty send buffer, and expects the peer to start at frame 1. Nothing is sent, and nothing else
  -- changes but the last ACK. The peer's number is below 2^32 - 1.
  pub handle_resume-ahead :
      (c : Channel) (clock : ℕ → ℕ) (last : ℕ)
      → c.next_seq ≤ last
      → suc last < u32_mod
      → handle_resume hash c clock last ≡ (
        record c {
          last_ack_received = last;
          next_seq = suc last;
          send_buffer = [];
          last_contiguous = 0;
          reorder_buffer = [];
        },
        [],
      )
  unfolding handle_resume resume_reset drop_acked
  handle_resume-ahead c clock last ahead small =
      let e : succ32 last ≡ suc last = omega arith in
      rw (le→leb c.next_seq last ahead, handle_resume, e) refl

  -- Sending leaves the receiving side and the last ACK as they are.
  send_each_leaves :
      (c : Channel) (clock : ℕ → ℕ) (i : ℕ) (ps : List (Bytes × Priority))
      → let r = (send_each hash c clock i ps).0 in
        (r.last_ack_received ≡ c.last_ack_received)
        × (r.last_contiguous ≡ c.last_contiguous)
        × (r.reorder_buffer ≡ c.reorder_buffer)
  unfolding send_each send_one
  send_each_leaves c clock i [] = (refl, refl, refl)
  send_each_leaves c clock i ((p, pri) ∷ ps) =
      send_each_leaves (send_one hash c (clock i) p pri).0 clock (i + 1) ps

  resume_reset-gap :
      (c : Channel) (clock : ℕ → ℕ) (last : ℕ)
      → last < c.next_seq
      → front_after (suc last) c.send_buffer ≡ true
      → suc last < u32_mod
      → resume_reset hash (record c { last_ack_received = last }) clock last
        ≡ send_each hash
            (emptied c last)
            clock
            0
            (map (λ p. (p, critical)) (preserved c.send_buffer))
  unfolding resume_reset
  resume_reset-gap c clock last behind gap small =
      let e : succ32 last ≡ suc last = omega arith in
      let l : leb c.next_seq last ≡ false = ground arith in
      rw (l, lt→ltb last c.next_seq behind, e, gap, resume_reset, preserved-pairs c.send_buffer)
        refl

  -- A resume from a peer that needs a frame which is no longer buffered: every critical message of
  -- the buffer gets a new number, from the one that the peer needs on, in order. Each of these
  -- frames is sent twice in a row of runs, and all of them stay to be sent again. The number up to
  -- which the other direction was received is overwritten by the peer's. The numbers stay below 2^32.
  pub handle_resume-gap :
      (c : Channel) (clock : ℕ → ℕ) (last : ℕ)
      → last < c.next_seq
      → front_after (suc last) c.send_buffer ≡ true
      → suc last + length (preserved c.send_buffer) < u32_mod
      → let r = handle_resume hash c clock last in
        let frames = wire hash clock critical (suc last) 0 (preserved c.send_buffer) in
        (r.1 ≡ frames ++ frames)
        × (r.0.next_seq ≡ suc last + length (preserved c.send_buffer))
        × (r.0.last_contiguous ≡ last)
        × (r.0.reorder_buffer ≡ [])
  unfolding handle_resume flush_unacked
  handle_resume-gap c clock last behind gap small =
      rw (resume_reset-gap c clock last behind gap (omega arith), handle_resume)
        (
          ap₂ ◌++◌ sent (again ∙ sent),
          s.next
              ∙ ap (λ n. suc last + n)
                  (ap length sent ∙ length-wire (preserved c.send_buffer) (suc last) 0),
          leaves.1,
          leaves.2,
        )
    where
      ps : List (Bytes × Priority)
      ps = map (λ p. (p, critical)) (preserved c.send_buffer)

      start : IsOrdered (emptied c last)
      start = record { first = suc last; numbered = refl; ahead = omega arith }

      s :
          Sent
            (emptied c last)
            critical
            (send_each hash (emptied c last) clock 0 ps).0
            (send_each hash (emptied c last) clock 0 ps).1
      s =
          send_each-Sent hash (emptied c last) clock 0 critical (preserved c.send_buffer) small
            start

      leaves :
          let r = (send_each hash (emptied c last) clock 0 ps).0 in
          (r.last_ack_received ≡ last) × (r.last_contiguous ≡ last) × (r.reorder_buffer ≡ [])
      leaves = send_each_leaves (emptied c last) clock 0 ps

      sent :
          (send_each hash (emptied c last) clock 0 ps).1
          ≡ wire hash clock critical (suc last) 0 (preserved c.send_buffer)
      sent =
          send_each-wire (emptied c last) clock 0 (suc last) critical (preserved c.send_buffer) refl
            small

      length-wire :
          (qs : List Bytes) (seq i : ℕ) → length (wire hash clock critical seq i qs) ≡ length qs
      length-wire [] seq i = refl
      length-wire (q ∷ qs) seq i = ap suc (length-wire qs (suc seq) (i + 1))

      again :
          encodings
            (filterb (resendable last) (send_each hash (emptied c last) clock 0 ps).0.send_buffer)
          ≡ (send_each hash (emptied c last) clock 0 ps).1
      again =
          ap
            (λ a.
              encodings
                (filterb (resendable a) (send_each hash (emptied c last) clock 0 ps).0.send_buffer))
            (sym leaves.0)
          ∙ s.kept

  -- The reset after a gap confuses the two directions: if the number in the peer's resume is not
  -- the number up to which this side has received, the next frame of the peer is not delivered by
  -- its arrival. The numbers stay below 2^32.
  pub handle_resume-gap_deaf :
      (c : Channel) (clock : ℕ → ℕ) (last : ℕ) (pri : Priority) (payload : Bytes)
      → last < c.next_seq
      → front_after (suc last) c.send_buffer ≡ true
      → suc last + length (preserved c.send_buffer) < u32_mod
      → last ≢ c.last_contiguous
      → suc c.last_contiguous < u32_mod
      → (receive_data (handle_resume hash c clock last).0 (suc c.last_contiguous) pri payload).1
        ≡ []
  unfolding receive_data
  handle_resume-gap_deaf c clock last pri payload behind gap small differ fits =
      ground (arith, handle_resume-gap c clock last behind gap small)

  -- The reset recovers the payload of a buffered frame from its encoding, if it is not empty.
  pub buffered_payload-encode_data :
      (m : BufferedMessage) (seq ts : ℕ) (pri : Priority) (payload : Bytes)
      → m.encoded ≡ encode_data hash seq ts pri payload
      → payload ≢ []
      → buffered_payload m ≡ payload
  unfolding buffered_payload encode_data
  buffered_payload-encode_data m seq ts pri [] e ne = absurd (ne refl)
  buffered_payload-encode_data m seq ts pri (x ∷ xs) e ne = ground arith
