-- ===== src/Reliable/Channel/EndToEnd.antt =====
-- Two channels of channel.rs with an unreliable network between them.
use b.Prelude.{
  ℕ, suc, ◌≤◌, ◌<◌, ◌≡◌, refl, sym, ◌∙◌, ap, List, [], ◌∷◌, Option, none, some, map, length, Bytes,
  u32_mod, All, arith, inl, inr, ◌⊎◌, subst, take-all,
}
use b.Reliable.Frame.{Priority, Frame, data_frame, ack_frame, resume_frame, decode}
use b.Reliable.Channel.State.{Config, Channel, ReceivedMessage, new}
use b.Reliable.Channel.Stream.{arrive, in_order}
use b.Reliable.Channel.Delivery.{IsFrom, arrive-in_order}
use b.Reliable.Channel.Complete.{IsFrame, Arrived, arrive_complete}
use b.Reliable.Channel.Framing.{send_all, process, Carries, Carries-length}
use b.Reliable.Channel.Transcript.{Transcript, send_all-Transcript}
use b.Reliable.Channel.Carried.{
  frame_at, IsIn, IsNoise, in_order-process, carried-IsFrom, carried-IsFrame,
}

IsIn-Arrived :
    (hash : Bytes → ℕ) (k : ℕ) (d : Bytes) (ds : List Bytes)
    → IsIn d ds
    → IsFrame k (decode hash d)
    → Arrived hash k ds
IsIn-Arrived hash k d [] m q = m
IsIn-Arrived hash k d (e ∷ es) (inl here) q = inl (subst (λ x. IsFrame k (decode hash x)) here q)
IsIn-Arrived hash k d (e ∷ es) (inr there) q = inr (IsIn-Arrived hash k d es there q)

All-IsIn : (sent ds : List Bytes) (d : Bytes) → All (λ s. IsIn s ds) sent → IsIn d sent → IsIn d ds
All-IsIn [] ds d h m = absurd m
All-IsIn (s ∷ sent) ds d h (inl here) = subst (λ x. IsIn x ds) (sym here) h.0
All-IsIn (s ∷ sent) ds d h (inr there) = All-IsIn sent ds d h.1 there

noise-IsFrom :
    (stream : ℕ → Bytes × Priority) (limit : ℕ) (f : Option Frame)
    → IsNoise f
    → IsFrom stream limit f
noise-IsFrom stream limit none h = tt
noise-IsFrom stream limit (some (data_frame seq ts crc pri payload)) h = absurd h
noise-IsFrom stream limit (some (ack_frame seq win)) h = tt
noise-IsFrom stream limit (some (resume_frame seq)) h = h

pub new-Transcript :
    (hash : Bytes → ℕ) (config : Config) (clocks : ℕ → ℕ → ℕ) (ms : List (Bytes × Priority))
    (c : Channel) (sent : List Bytes)
    → suc config.max_frame_payload < u32_mod
    → send_all hash (new config) clocks 0 ms ≡ some (c, sent)
    → suc (length sent) < u32_mod
    → Transcript hash 1 ms sent
unfolding new
new-Transcript hash config clocks ms c sent small e room =
    send_all-Transcript hash (new config) clocks 0 ms c sent
      (record { first = 1; numbered = refl; ahead = omega arith }) small e (omega arith)

module _ (hash : Bytes → ℕ) (hash_u32 : (p : Bytes) → hash p < u32_mod) where
  all-IsFrom :
      (fs : List (Bytes × Priority)) (sent ds : List Bytes)
      → length fs < u32_mod
      → Carries hash 1 fs sent
      → All (λ d. IsNoise (decode hash d) ⊎ IsIn d sent) ds
      → All (λ d. IsFrom (frame_at fs) (length fs) (decode hash d)) ds
  all-IsFrom fs sent [] small k h = tt
  all-IsFrom fs sent (d ∷ ds) small k h = (from h.0, all-IsFrom fs sent ds small k h.1)
    where
      from :
          IsNoise (decode hash d) ⊎ IsIn d sent → IsFrom (frame_at fs) (length fs) (decode hash d)
      from (inl n) = noise-IsFrom (frame_at fs) (length fs) (decode hash d) n
      from (inr m) = carried-IsFrom hash hash_u32 [] fs 1 sent d refl small k m

  -- What a receiver delivers once all the frames of a transcript have arrived.
  pub Transcript-delivered :
      (config : Config) (clock : ℕ → ℕ) (ms : List (Bytes × Priority)) (sent ds : List Bytes)
      → Transcript hash 1 ms sent
      → suc (length sent) < u32_mod
      → All (λ d. IsNoise (decode hash d) ⊎ IsIn d sent) ds
      → All (λ d. IsIn d ds) sent
      → map (λ m. m.payload) (arrive hash (new config) clock ds).1 ≡ map (λ m. m.0) ms
  Transcript-delivered config clock ms sent ds t small from every =
      ap (λ o. map (λ (m : ReceivedMessage). m.payload) o)
        (ap (λ r. r.1) (sym delivered)
          ∙ (ap (λ r. r.1)
              (in_order-process t.frames (length t.frames) (omega arith)
                ∙ (ap (process [] 1) (take-all (length t.frames) t.frames (omega arith))
                    ∙ t.assembled))))
      ∙ t.payloads
    where
      n : length sent ≡ length t.frames
      n = Carries-length hash 1 t.frames sent t.carries

      froms : All (λ d. IsFrom (frame_at t.frames) (length t.frames) (decode hash d)) ds
      froms = all-IsFrom t.frames sent ds (omega (arith, n)) t.carries from

      arrived : (k : ℕ) → 0 < k → k ≤ length t.frames → Arrived hash k ds
      arrived k lo hi =
          let (d, m, q) =
            carried-IsFrame hash hash_u32 t.frames 1 k sent lo (omega arith) (omega (arith, n))
              t.carries in
          IsIn-Arrived hash k d ds (All-IsIn sent ds d every m) q

      delivered : in_order (frame_at t.frames) (length t.frames) ≡ (
        (arrive hash (new config) clock ds).0.chunk_assembly,
        (arrive hash (new config) clock ds).1,
      )
      delivered =
          ap (in_order (frame_at t.frames)) (
            sym (
              arrive_complete hash (frame_at t.frames) (length t.frames) clock config ds
                (omega (arith, n)) froms arrived))
          ∙ arrive-in_order hash (frame_at t.frames) (length t.frames) clock config ds
              (omega (arith, n)) froms

  -- One new channel sends messages, of any sizes and priorities. Of the byte strings that reach
  -- another new channel, each is a transmitted frame, an ACK, or one that does not decode; they
  -- come in any order, with any repetitions, and each transmitted frame is among them. Then the
  -- payloads that are delivered are those that were sent, once each and in the order of sending,
  -- if no `send` panicked and the sizes and numbers of the frames are below 2^32.
  pub delivered-sent :
      (sending receiving : Config) (clocks : ℕ → ℕ → ℕ) (clock : ℕ → ℕ)
      (ms : List (Bytes × Priority)) (c : Channel) (sent ds : List Bytes)
      → suc sending.max_frame_payload < u32_mod
      → send_all hash (new sending) clocks 0 ms ≡ some (c, sent)
      → suc (length sent) < u32_mod
      → All (λ d. IsNoise (decode hash d) ⊎ IsIn d sent) ds
      → All (λ d. IsIn d ds) sent
      → map (λ m. m.payload) (arrive hash (new receiving) clock ds).1 ≡ map (λ m. m.0) ms
  delivered-sent sending receiving clocks clock ms c sent ds small e room from every =
      Transcript-delivered receiving clock ms sent ds
        (new-Transcript hash sending clocks ms c sent small e room) room from every
