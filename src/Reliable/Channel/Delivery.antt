-- ===== src/Reliable/Channel/Delivery.antt =====
-- Messages are delivered in the order of the stream, each once, whatever the network does to them.
use b.Prelude.{
  ℕ, ◌≤◌, ◌<◌, ◌≡◌, refl, List, [], ◌∷◌, ◌++◌, Option, none, some, Bytes, u32_mod, All, arith,
  append_assoc, append-nil,
}
use b.Reliable.Frame.{Priority, Frame, data_frame, ack_frame, resume_frame, decode}
use b.Reliable.Channel.State.{Config, ReceivedMessage, Channel, new}
use b.Reliable.Channel.Receiver.{receive_ack, dispatch, receive}
use b.Reliable.Channel.Stream.{arrive, in_order, Follows, receive_data-Follows}

-- A message that decodes to nothing, to an ACK, or to a frame of the stream.
abbrev pub IsFrom : (ℕ → Bytes × Priority) → ℕ → Option Frame → Type 0
IsFrom stream limit none = Unit
IsFrom stream limit (some (data_frame seq ts crc pri payload)) =
    (0 < seq) × (seq ≤ limit) × (payload ≡ (stream seq).0) × (pri ≡ (stream seq).1)
IsFrom stream limit (some (ack_frame seq win)) = Unit
IsFrom stream limit (some (resume_frame seq)) = ⊥

receive_ack-Follows :
    (stream : ℕ → Bytes × Priority) (limit : ℕ) (c : Channel) (out : List ReceivedMessage) (seq : ℕ)
    → Follows stream limit c out
    → Follows stream limit (receive_ack c seq).0 out
unfolding receive_ack
receive_ack-Follows stream limit c out seq v = ground arith

pub new-Follows :
    (stream : ℕ → Bytes × Priority) (limit : ℕ) (config : Config)
    → limit < u32_mod
    → Follows stream limit (new config) []
unfolding new in_order
new-Follows stream limit config small = record {
  done = refl;
  held = tt;
  fits = omega arith;
  small = small;
}

module _ (hash : Bytes → ℕ) (stream : ℕ → Bytes × Priority) (limit : ℕ) (clock : ℕ → ℕ) where
  pub dispatch-Follows :
      (f : Option Frame) (c : Channel) (out : List ReceivedMessage)
      → IsFrom stream limit f
      → Follows stream limit c out
      → let r = dispatch hash c clock f in Follows stream limit r.0 (out ++ r.2)
  unfolding dispatch
  dispatch-Follows none c out o v = rw (append-nil out) v
  dispatch-Follows (some (data_frame seq ts crc pri payload)) c out (pos, small, p, q) v =
      rw (p, q) (receive_data-Follows stream limit c out seq pos small v)
  dispatch-Follows (some (ack_frame seq win)) c out o v =
      rw (append-nil out) (receive_ack-Follows stream limit c out seq v)
  dispatch-Follows (some (resume_frame seq)) c out o v = absurd o

  pub arrive-Follows :
      (ds : List Bytes) (c : Channel) (out : List ReceivedMessage)
      → All (λ d. IsFrom stream limit (decode hash d)) ds
      → Follows stream limit c out
      → let r = arrive hash c clock ds in Follows stream limit r.0 (out ++ r.1)
  unfolding arrive receive
  arrive-Follows [] c out o v = rw (append-nil out) v
  arrive-Follows (d ∷ ds) c out o v =
      let r = dispatch hash c clock (decode hash d) in
      rw (← append_assoc out r.2 (arrive hash r.0 clock ds).1)
        (arrive-Follows ds r.0 (out ++ r.2) o.1 (dispatch-Follows (decode hash d) c out o.0 v))

  -- A new channel that gets any sequence of messages, each of which is corrupt, an ACK, or a frame
  -- of the stream, in any order and with any losses and repetitions, has delivered exactly what
  -- frames 1 to `last_contiguous` make when they are processed once each, in order. The frames of
  -- the stream are numbered from 1 to a limit below 2^32.
  pub arrive-in_order :
      (config : Config) (ds : List Bytes)
      → limit < u32_mod
      → All (λ d. IsFrom stream limit (decode hash d)) ds
      → let r = arrive hash (new config) clock ds in
        in_order stream r.0.last_contiguous ≡ (r.0.chunk_assembly, r.1)
  unfolding new
  arrive-in_order config ds small o =
      (arrive-Follows ds (new config) [] o (new-Follows stream limit config small)).done
