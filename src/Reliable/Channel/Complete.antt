-- ===== src/Reliable/Channel/Complete.antt =====
-- The receiver of channel.rs waits for nothing that it has got.
use native.Mathlib.Decide.{dec_lt}
use b.Prelude.{
  ℕ, suc, ◌≤◌, ◌<◌, ◌≡◌, refl, false, List, [], ◌∷◌, Option, none, some, Bytes, u32_mod, succ32,
  All, arith, inl, inr, ◌⊎◌,
}
use b.Reliable.Frame.{Priority, Frame, data_frame, ack_frame, resume_frame, decode}
use b.Reliable.Channel.State.{Config, ReceivedMessage, Channel, new}
use b.Reliable.Channel.Receiver.{contains_key, lookup, receive_ack, dispatch, receive}
use b.Reliable.Channel.Stream.{arrive, Follows}
use b.Reliable.Channel.Delivery.{IsFrom, new-Follows, dispatch-Follows, arrive-Follows}
use b.Reliable.Channel.Seen.{
  lookup-contains_key, IsSeen, HasGap, receive_data-HasGap, receive_data-IsSeen,
}

new-HasGap : (config : Config) → HasGap (new config)
unfolding new lookup
new-HasGap config = refl

not-IsSeen_gap :
    (c : Channel)
    → suc c.last_contiguous < u32_mod
    → HasGap c
    → IsSeen (suc c.last_contiguous) c
    → ⊥
not-IsSeen_gap c small g (inl le) = omega arith
not-IsSeen_gap c small g (inr waits) =
    let e : succ32 c.last_contiguous ≡ suc c.last_contiguous = omega arith in
    let absent : contains_key (suc c.last_contiguous) c.reorder_buffer ≡ false =
      rw e at (lookup-contains_key (succ32 c.last_contiguous) c.reorder_buffer g) in
    cc

-- The message that decodes to `f` is frame `k`.
abbrev pub IsFrame : ℕ → Option Frame → Type 0
IsFrame k none = ⊥
IsFrame k (some (data_frame seq ts crc pri payload)) = k ≡ seq
IsFrame k (some (ack_frame seq win)) = ⊥
IsFrame k (some (resume_frame seq)) = ⊥

-- Frame `k` is among the messages.
abbrev pub Arrived : (Bytes → ℕ) → ℕ → List Bytes → Type 0
Arrived hash k [] = ⊥
Arrived hash k (d ∷ ds) = IsFrame k (decode hash d) ⊎ Arrived hash k ds

receive_ack-IsSeen : (k : ℕ) (c : Channel) (seq : ℕ) → IsSeen k c → IsSeen k (receive_ack c seq).0
unfolding receive_ack
receive_ack-IsSeen k c seq s = ground arith

receive_ack-HasGap : (c : Channel) (seq : ℕ) → HasGap c → HasGap (receive_ack c seq).0
unfolding receive_ack
receive_ack-HasGap c seq s = ground arith

module _ (hash : Bytes → ℕ) (stream : ℕ → Bytes × Priority) (limit : ℕ) (clock : ℕ → ℕ) where
  dispatch-IsSeen :
      (k : ℕ) (f : Option Frame) (c : Channel) (out : List ReceivedMessage)
      → IsFrom stream limit f
      → Follows stream limit c out
      → IsSeen k c ⊎ IsFrame k f
      → IsSeen k (dispatch hash c clock f).0
  unfolding dispatch
  dispatch-IsSeen k none c out o v (inl s) = s
  dispatch-IsSeen k none c out o v (inr s) = absurd s
  dispatch-IsSeen k (some (data_frame seq ts crc pri payload)) c out (pos, small, p, q) v s =
      rw (p, q) (receive_data-IsSeen stream limit k c out seq pos small v s)
  dispatch-IsSeen k (some (ack_frame seq win)) c out o v (inl s) = receive_ack-IsSeen k c seq s
  dispatch-IsSeen k (some (ack_frame seq win)) c out o v (inr s) = absurd s
  dispatch-IsSeen k (some (resume_frame seq)) c out o v s = absurd o

  dispatch-HasGap :
      (f : Option Frame) (c : Channel)
      → IsFrom stream limit f
      → HasGap c
      → HasGap (dispatch hash c clock f).0
  unfolding dispatch
  dispatch-HasGap none c o g = g
  dispatch-HasGap (some (data_frame seq ts crc pri payload)) c o g =
      receive_data-HasGap c seq pri payload g
  dispatch-HasGap (some (ack_frame seq win)) c o g = receive_ack-HasGap c seq g
  dispatch-HasGap (some (resume_frame seq)) c o g = absurd o

  arrive-IsSeen :
      (k : ℕ) (ds : List Bytes) (c : Channel) (out : List ReceivedMessage)
      → All (λ d. IsFrom stream limit (decode hash d)) ds
      → Follows stream limit c out
      → IsSeen k c ⊎ Arrived hash k ds
      → IsSeen k (arrive hash c clock ds).0
  unfolding arrive receive
  arrive-IsSeen k [] c out o v (inl s) = s
  arrive-IsSeen k [] c out o v (inr s) = absurd s
  arrive-IsSeen k (d ∷ ds) c out o v s =
      arrive-IsSeen k ds (dispatch hash c clock (decode hash d)).0 _ o.1
        (dispatch-Follows hash stream limit clock (decode hash d) c out o.0 v) (head s)
    where
      head :
          IsSeen k c ⊎ (IsFrame k (decode hash d) ⊎ Arrived hash k ds)
          → IsSeen k (dispatch hash c clock (decode hash d)).0 ⊎ Arrived hash k ds
      head (inl t) = inl (dispatch-IsSeen k (decode hash d) c out o.0 v (inl t))
      head (inr (inl t)) = inl (dispatch-IsSeen k (decode hash d) c out o.0 v (inr t))
      head (inr (inr t)) = inr t

  arrive-HasGap :
      (ds : List Bytes) (c : Channel)
      → All (λ d. IsFrom stream limit (decode hash d)) ds
      → HasGap c
      → HasGap (arrive hash c clock ds).0
  unfolding arrive receive
  arrive-HasGap [] c o g = g
  arrive-HasGap (d ∷ ds) c o g =
      arrive-HasGap ds (dispatch hash c clock (decode hash d)).0 o.1
        (dispatch-HasGap (decode hash d) c o.0 g)

  -- Once each of the frames 1 to `limit` of the stream has arrived at a new channel, in any order
  -- and among any repetitions, corrupt messages and ACKs, and
  -- nothing else has, `last_contiguous` is `limit`, for a limit below 2^32.
  pub arrive_complete :
      (config : Config) (ds : List Bytes)
      → limit < u32_mod
      → All (λ d. IsFrom stream limit (decode hash d)) ds
      → ((k : ℕ) → 0 < k → k ≤ limit → Arrived hash k ds)
      → (arrive hash (new config) clock ds).0.last_contiguous ≡ limit
  arrive_complete config ds small o every =
      elim (dec_lt (arrive hash (new config) clock ds).0.last_contiguous limit) [
        | no le ↦ omega (
          arith,
          (arrive-Follows hash stream limit clock ds (new config) [] o
              (new-Follows stream limit config small)).fits,
        )
        | yes lt ↦ absurd (
            not-IsSeen_gap (arrive hash (new config) clock ds).0 (omega arith)
              (arrive-HasGap ds (new config) o (new-HasGap config))
              (arrive-IsSeen (suc (arrive hash (new config) clock ds).0.last_contiguous) ds
                (new config) [] o (new-Follows stream limit config small)
                (inr (
                  every (suc (arrive hash (new config) clock ds).0.last_contiguous) (omega arith)
                    lt))))
      ]
