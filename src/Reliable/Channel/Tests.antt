-- ===== src/Reliable/Channel/Tests.antt =====
-- Tests of channel.rs: three frames, a receiver that gets them out of order, ACKs and resumes.
use b.Prelude.{
  ℕ, zero, suc, ◌==◌, ◌≤◌, ◌<◌, ◌≡◌, refl, false, List, [], ◌∷◌, some, map, filterb, ltb,
  if◌then◌else◌, Bytes, inl, inr, All, arith, chunks, chunks_from,
}
use b.Reliable.Frame.{
  Priority, critical, best_effort, encode_data, decode, decode_data, is_reliable, crc32,
}
use b.Reliable.Frame.Tests.{digest, digest_u32}
use b.Reliable.Channel.State.{Config, BufferedMessage, Channel, new}
use b.Reliable.Channel.Sender.{
  evict, resendable, encodings, framed, tag_chunks, chunk_tag, send_one, send_each, send,
  handle_resume,
}
use b.Reliable.Channel.Receiver.{receive_data}
use b.Reliable.Channel.Stream.{arrive, in_order}
use b.Reliable.Channel.Delivery.{IsFrom, arrive-in_order}
use b.Reliable.Channel.Complete.{Arrived, arrive_complete}
use b.Reliable.Channel.Receiver.{receive_ack}
use b.Reliable.Channel.Critical.{IsOrdered, Sent, send-Sent}
use b.Reliable.Channel.Resume.{handle_resume-replay, handle_resume-gap_deaf}
use b.Reliable.Channel.Framing.{send_all}
use b.Reliable.Channel.EndToEnd.{delivered-sent}

abbrev pub small : Config
small = record { max_send_buffer = 10; ack_interval_ms = 100; max_frame_payload = 2 }

abbrev pub clock : ℕ → ℕ
clock i = 5

abbrev pub clocks : ℕ → ℕ → ℕ
clocks j = clock

abbrev pub f1 : Bytes
f1 = encode_data digest 1 5 critical (1 ∷ 10 ∷ 20 ∷ [])

abbrev pub f2 : Bytes
f2 = encode_data digest 2 5 critical (3 ∷ 30 ∷ [])

abbrev pub f3 : Bytes
f3 = encode_data digest 3 5 best_effort (0 ∷ 40 ∷ [])

abbrev pub sent : List Bytes
sent = f1 ∷ f2 ∷ f3 ∷ []

abbrev pub messages : List (Bytes × Priority)
messages = (10 ∷ 20 ∷ 30 ∷ [], critical) ∷ (40 ∷ [], best_effort) ∷ []

abbrev buffered : List BufferedMessage
buffered =
    record { seq = 1; priority = critical; encoded = f1 }
    ∷ record { seq = 2; priority = critical; encoded = f2 }
    ∷ record { seq = 3; priority = best_effort; encoded = f3 }
    ∷ []

-- the sender after both messages
abbrev pub after : Channel
after = record {
  config = small;
  session_id = 0;
  next_seq = 4;
  send_buffer = buffered;
  last_ack_received = 0;
  last_contiguous = 0;
  reorder_buffer = [];
  ack_pending = false;
  chunk_assembly = [];
  duplicate_ack_count = 0;
}

pub send_all-messages : send_all digest (new small) clocks 0 messages ≡ some (after, sent)
unfolding send_all send framed chunks chunks_from tag_chunks chunk_tag send_each send_one evict new
send_all-messages = refl

after-IsOrdered : IsOrdered after
after-IsOrdered = record { first = 1; numbered = (refl, (refl, (refl, refl))); ahead = omega arith }

-- what arrives: noise, and the frames in another order, one of them twice
abbrev arrived : List Bytes
arrived = (9 ∷ []) ∷ f3 ∷ f1 ∷ f3 ∷ f2 ∷ []

delivered-sent_example :
    map (λ m. m.payload) (arrive digest (new small) clock arrived).1 ≡ map (λ m. m.0) messages
unfolding decode is_reliable
delivered-sent_example =
    delivered-sent digest digest_u32 small small clocks clock messages after sent arrived
      (omega arith) send_all-messages (omega arith)
      (
        inl tt,
        (
          inr (inr (inr (inl refl))),
          (inr (inl refl), (inr (inr (inr (inl refl))), (inr (inr (inl refl)), tt))),
        ),
      )
      (inr (inr (inl refl)), (inr (inr (inr (inr (inl refl)))), (inr (inl refl), tt)))

abbrev stream : ℕ → Bytes × Priority
stream k =
    if k == 1
    then (1 ∷ 10 ∷ 20 ∷ [], critical)
    else if k == 2
    then (3 ∷ 30 ∷ [], critical)
    else (0 ∷ 40 ∷ [], best_effort)

arrived-IsFrom : All (λ d. IsFrom stream 3 (decode digest d)) arrived
unfolding decode is_reliable decode_data encode_data crc32
arrived-IsFrom = (
  tt,
  (
    (omega arith, omega arith, refl, refl),
    (
      (omega arith, omega arith, refl, refl),
      ((omega arith, omega arith, refl, refl), ((omega arith, omega arith, refl, refl), tt)),
    ),
  ),
)

every-Arrived : (k : ℕ) → 0 < k → k ≤ 3 → Arrived digest k arrived
unfolding decode is_reliable decode_data encode_data crc32
every-Arrived zero pos le = absurd (omega arith)
every-Arrived (suc zero) pos le = inr (inr (inl refl))
every-Arrived (suc (suc zero)) pos le = inr (inr (inr (inr (inl refl))))
every-Arrived (suc (suc (suc zero))) pos le = inr (inl refl)
every-Arrived (suc (suc (suc (suc k)))) pos le = absurd (omega arith)

arrive-in_order_example :
    let r = arrive digest (new small) clock arrived in
    in_order stream r.0.last_contiguous ≡ (r.0.chunk_assembly, r.1)
arrive-in_order_example =
    arrive-in_order digest stream 3 clock small arrived (omega arith) arrived-IsFrom

arrive_complete_example : (arrive digest (new small) clock arrived).0.last_contiguous ≡ 3
arrive_complete_example =
    arrive_complete digest stream 3 clock small arrived (omega arith) arrived-IsFrom every-Arrived

-- the sender after one more frame, and the frame
abbrev next : Channel × Bytes
next = send_one digest after 5 (0 ∷ 7 ∷ []) critical

send-next : send digest after clock (7 ∷ []) critical ≡ some (next.0, next.1 ∷ [])
unfolding send send_each framed
send-next = refl

send-Sent_example : Sent after critical next.0 (next.1 ∷ [])
send-Sent_example =
    send-Sent digest after clock (7 ∷ []) critical next.0 (next.1 ∷ []) after-IsOrdered send-next
      (omega arith)

handle_resume-replay_example :
    let r = handle_resume digest after clock 1 in
    (r.1 ≡ encodings (filterb (resendable 1) buffered))
    × (r.0
        ≡ record after { last_ack_received = 1; send_buffer = filterb (λ m. ltb 1 m.seq) buffered })
handle_resume-replay_example =
    handle_resume-replay digest after clock 1 after-IsOrdered (omega arith) refl

-- The sender after the peer acknowledged frame 1; it has received frames 1 and 2 of the peer.
abbrev acked : Channel
acked = record after {
  send_buffer = filterb (λ m. ltb 1 m.seq) buffered;
  last_ack_received = 1;
  last_contiguous = 2;
}

handle_resume-gap_deaf_example :
    (receive_data (handle_resume digest acked clock 0).0 3 critical (0 ∷ 8 ∷ [])).1 ≡ []
handle_resume-gap_deaf_example =
    handle_resume-gap_deaf digest acked clock 0 critical (0 ∷ 8 ∷ []) (omega arith) refl
      (omega arith) (λ e. absurd (omega arith)) (omega arith)

abbrev frames : List Bytes
frames = (1 ∷ 10 ∷ 20 ∷ []) ∷ (3 ∷ 30 ∷ []) ∷ []

framed-frames : framed 2 (10 ∷ 20 ∷ 30 ∷ []) ≡ some frames
unfolding framed chunks chunks_from tag_chunks chunk_tag
framed-frames = refl

-- A new channel that gets an ACK of the number 5, which no frame has had, and then sends its first frame.
abbrev ahead_sent : Channel × Bytes
ahead_sent = send_one digest (receive_ack (new small) 5).0 5 (0 ∷ 7 ∷ []) critical
