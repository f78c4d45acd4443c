-- ===== src/Reliable/Encrypted/EndToEnd.antt =====
-- Two encrypted channels of crypto.rs with a network between them that may lose, repeat, reorder and
-- forge frames.
use b.Prelude.{
  ℕ, suc, ◌+◌, ◌^◌, ◌≤◌, ◌<◌, ◌≡◌, refl, sym, ◌∙◌, ap, ap₂, subst, List, [], ◌∷◌, ◌++◌, Option,
  none, some, map, length, ◌>>=◌, some_inj, Bytes, u32_mod, Option-cases, inl, inr, ◌⊎◌, All, arith,
}
use b.Reliable.Frame.{Priority, Frame, encode_data, decode}
use b.Reliable.Channel.State.{Config, Channel, ReceivedMessage, new}
use b.Reliable.Channel.Sender as Sender
use b.Reliable.Channel.Receiver as Receiver
use b.Reliable.Channel.Stream.{arrive}
use b.Reliable.Channel.Framing.{send_all, Carries}
use b.Reliable.Channel.Transcript.{Transcript}
use b.Reliable.Channel.Carried.{IsIn, IsNoise}
use b.Reliable.Channel.EndToEnd.{new-Transcript, Transcript-delivered}
use b.Reliable.Encrypted.Channel.{
  Crates, ready, EncryptedChannel, around, decrypt_frame, transmit_all,
}
use b.Reliable.Encrypted.Sealing.{AeadLaws, Opens, transmit_all-Opens}
use b.Reliable.Encrypted.Refinement.{
  Call, received, sent, run, inner_call, sealed_call, opened, sealed, run-refines,
}

-- consecutive calls of `send`, and of `receive`
abbrev pub sends : (ℕ → ℕ → ℕ) → ℕ → List (Bytes × Priority) → List (Call Bytes)
sends clocks j [] = []
sends clocks j ((p, pri) ∷ ms) = sent (clocks j) p pri ∷ sends clocks (j + 1) ms

abbrev pub receives : (ℕ → ℕ) → List Bytes → List (Call Bytes)
receives clock ds = map (λ d. received clock d) ds

module _ {Value : Type 0} (x : Crates Value) where
  pub run-sends :
      (c : Channel) (key : Option Bytes) (clocks : ℕ → ℕ → ℕ) (j : ℕ) (ms : List (Bytes × Priority))
      → run (inner_call x) c (map (opened x key) (sends clocks j ms))
        ≡ send_all x.hash c clocks j ms >>= (λ r. some (r.0, r.1, []))
  unfolding run inner_call opened send_all
  run-sends c key clocks j [] = refl
  run-sends c key clocks j ((p, pri) ∷ ms) =
      elim (Option-cases (Sender.send x.hash c (clocks j) p pri)) [
        | inl panic ↦ rw (panic, send_all) refl
        | inr ((c1, fs), ok) ↦ elim (Option-cases (send_all x.hash c1 clocks (j + 1) ms)) [
          | inl panic ↦ rw (ok, run-sends c1 key clocks (j + 1) ms, panic, send_all) refl
          | inr ((c2, gs), done) ↦ rw (ok, run-sends c1 key clocks (j + 1) ms, done, send_all) refl
        ]
      ]

  -- the wire frames that are opened, in plaintext
  unfoldable pub plaintexts : Bytes → List Bytes → List Bytes
  plaintexts key [] = []
  plaintexts key (d ∷ ds) = elim (decrypt_frame x (some key) d) [
    | none ↦ plaintexts key ds
    | some p ↦ p ∷ plaintexts key ds
  ]

  pub run-receives :
      (c : Channel) (key : Bytes) (clock : ℕ → ℕ) (ds : List Bytes)
      → let r = arrive x.hash c clock (plaintexts key ds) in
        (fs : List Bytes) × (run (inner_call x) c (map (opened x (some key)) (receives clock ds))
          ≡ some (r.0, fs, r.1))
  unfolding run inner_call opened arrive plaintexts
  run-receives c key clock [] = ([], refl)
  run-receives c key clock (d ∷ ds) = elim (Option-cases (decrypt_frame x (some key) d)) [
    | inl shut ↦
        let (fs, ih) = run-receives c key clock ds in
        (fs, rw (shut, inner_call, plaintexts, ih) refl)
    | inr (p, open_) ↦
        let c1 = (Receiver.receive x.hash c clock p).0 in
        let (fs, ih) = run-receives c1 key clock ds in
        (
          (Receiver.receive x.hash c clock p).1 ++ fs,
          rw (open_, inner_call, plaintexts, ih, arrive) refl,
        )
  ]

  plaintexts-IsIn :
      (key : Bytes) (d p : Bytes) (ds : List Bytes)
      → IsIn d ds
      → decrypt_frame x (some key) d ≡ some p
      → IsIn p (plaintexts key ds)
  unfolding plaintexts
  plaintexts-IsIn key d p [] m e = absurd m
  plaintexts-IsIn key d p (c ∷ ds) (inl here) e = rw (sym here, e, plaintexts) (inl refl)
  plaintexts-IsIn key d p (c ∷ ds) (inr there) e =
      elim (Option-cases (decrypt_frame x (some key) c)) [
        | inl shut ↦ rw (shut, plaintexts) (plaintexts-IsIn key d p ds there e)
        | inr (q, open_) ↦ rw (open_, plaintexts) (inr (plaintexts-IsIn key d p ds there e))
      ]

  -- A wire frame of the sender is opened to one of its frames.
  Opens-IsIn :
      (key w : Bytes) (ws fs : List Bytes)
      → Opens x key ws fs
      → IsIn w ws
      → (f : Bytes) × (decrypt_frame x (some key) w ≡ some f) × IsIn f fs
  Opens-IsIn key w [] fs o m = absurd m
  Opens-IsIn key w (v ∷ ws) [] o m = absurd o
  Opens-IsIn key w (v ∷ ws) (f ∷ fs) o (inl here) =
      (f, ap (decrypt_frame x (some key)) here ∙ o.0, inl refl)
  Opens-IsIn key w (v ∷ ws) (f ∷ fs) o (inr there) =
      let (g, e, m) = Opens-IsIn key w ws fs o.1 there in (g, e, inr m)

  -- the frame that a byte string from the network is opened and decoded to
  abbrev pub carried_frame : Bytes → Bytes → Option Frame
  carried_frame key d = decrypt_frame x (some key) d >>= decode x.hash

  plaintexts-from :
      (key : Bytes) (ws fs ds : List Bytes)
      → Opens x key ws fs
      → All (λ d. IsNoise (carried_frame key d) ⊎ IsIn d ws) ds
      → All (λ p. IsNoise (decode x.hash p) ⊎ IsIn p fs) (plaintexts key ds)
  unfolding plaintexts
  plaintexts-from key ws fs [] o h = tt
  plaintexts-from key ws fs (d ∷ ds) o h = elim (Option-cases (decrypt_frame x (some key) d)) [
    | inl shut ↦ rw (shut, plaintexts) (plaintexts-from key ws fs ds o h.1)
    | inr (p, open_) ↦ rw (open_, plaintexts) (from p open_ h.0, plaintexts-from key ws fs ds o h.1)
  ]
    where
      from :
          (p : Bytes)
          → decrypt_frame x (some key) d ≡ some p
          → IsNoise (carried_frame key d) ⊎ IsIn d ws
          → IsNoise (decode x.hash p) ⊎ IsIn p fs
      from p e (inl noise) = inl (subst IsNoise (ap (λ q. q >>= decode x.hash) e) noise)
      from p e (inr m) =
          let (f, q, n) = Opens-IsIn key d ws fs o m in
          inr (subst (λ r. IsIn r fs) (some_inj (sym q ∙ e)) n)

  plaintexts-every :
      (key : Bytes) (ws fs ds : List Bytes)
      → Opens x key ws fs
      → All (λ w. IsIn w ds) ws
      → All (λ f. IsIn f (plaintexts key ds)) fs
  plaintexts-every key [] [] ds o h = tt
  plaintexts-every key [] (f ∷ fs) ds o h = absurd o
  plaintexts-every key (w ∷ ws) [] ds o h = tt
  plaintexts-every key (w ∷ ws) (f ∷ fs) ds o h =
      (plaintexts-IsIn key w f ds h.0 o.0, plaintexts-every key ws fs ds o.1 h.1)

Carries-small :
    (hash : Bytes → ℕ) (seq : ℕ) (fs : List (Bytes × Priority)) (sent : List Bytes)
    → Carries hash seq fs sent
    → All (λ f. length f ≤ 2 ^ 36) sent
unfolding encode_data
Carries-small hash seq [] [] k = tt
Carries-small hash seq [] (d ∷ ds) k = absurd k
Carries-small hash seq (f ∷ fs) [] k = tt
Carries-small hash seq ((p, pri) ∷ fs) (d ∷ ds) ((ts, _, small, e), k) =
    (rw e (omega arith), Carries-small hash (suc seq) fs ds k)

module _ {Value : Type 0} (x : Crates Value) (laws : AeadLaws x)
    (hash_u32 : (p : Bytes) → x.hash p < u32_mod) where
  -- A channel is ready, with a key to send with and a reliable channel that is new inside; a second one
  -- is ready, with the same key to receive with and a new one inside. The first sends messages, of any
  -- sizes and priorities. Of the byte strings that reach the second, in any order and repeated at will,
  -- each is a transmitted frame, or is not opened by the key, or is opened to an ACK or to bytes that do
  -- not decode; each transmitted frame is among them. Then the second receives them without a panic,
  -- and the payloads that it delivers are those that were sent, once each, in the order of sending, if
  -- no `send` panicked and the sizes and numbers of the frames are below 2^32.
  pub sealed-delivered :
      (from to from1 : EncryptedChannel) (key : Bytes) (sending receiving : Config)
      (clocks : ℕ → ℕ → ℕ) (clock : ℕ → ℕ) (ms : List (Bytes × Priority)) (c : Channel)
      (frames wires ds : List Bytes) (out0 : List ReceivedMessage)
      → from.state ≡ ready
      → from.send_state.cipher ≡ some key
      → from.inner ≡ new sending
      → to.state ≡ ready
      → to.recv_cipher ≡ some key
      → to.inner ≡ new receiving
      → suc sending.max_frame_payload < u32_mod
      → send_all x.hash (new sending) clocks 0 ms ≡ some (c, frames)
      → suc (length frames) < u32_mod
      → run (sealed_call x) from (sends clocks 0 ms) ≡ some (from1, wires, out0)
      → All (λ d. IsNoise (carried_frame x key d) ⊎ IsIn d wires) ds
      → All (λ w. IsIn w ds) wires
      → (to1 : EncryptedChannel) × (acks : List Bytes) × (out : List ReceivedMessage) × (run
            (sealed_call x)
            to
            (receives clock ds)
          ≡ some (to1, acks, out))
        × (map (λ m. m.payload) out ≡ map (λ m. m.0) ms)
  unfolding sealed around
  sealed-delivered from to from1 key sending receiving clocks clock ms c frames wires ds out0 up has
        fresh up' opens fresh' small plain room ran noise every =
      (
        (around x to r.0 acks).0,
        (around x to r.0 acks).1,
        r.1,
        received_all,
        Transcript-delivered x.hash hash_u32 receiving clock ms frames (plaintexts x key ds) t room
            (plaintexts-from x key wires frames ds o noise)
            (plaintexts-every x key wires frames ds o every),
      )
    where
      r : Channel × List ReceivedMessage
      r = arrive x.hash (new receiving) clock (plaintexts x key ds)

      acks : List Bytes
      acks = (run-receives x (new receiving) key clock ds).0

      received_all :
          run (sealed_call x) to (receives clock ds)
          ≡ some ((around x to r.0 acks).0, (around x to r.0 acks).1, r.1)
      received_all =
          run-refines x to (receives clock ds) up'
          ∙ ap (λ o. o >>= sealed x to)
              (ap₂ (λ i k. run (inner_call x) i (map (opened x k) (receives clock ds))) fresh' opens
                ∙ (run-receives x (new receiving) key clock ds).1)

      sent_all :
          run (inner_call x) from.inner (map (opened x from.recv_cipher) (sends clocks 0 ms))
          ≡ some (c, frames, [])
      sent_all =
          run-sends x from.inner from.recv_cipher clocks 0 ms
          ∙ ap (λ i. send_all x.hash i clocks 0 ms >>= (λ r. some (r.0, r.1, []))) fresh
          ∙ ap (λ r. r >>= (λ r. some (r.0, r.1, []))) plain

      t : Transcript x.hash 1 ms frames
      t = new-Transcript x.hash sending clocks ms c frames small plain room

      sealing : (transmit_all x from.send_state frames).1 ≡ wires
      sealing =
          ap (λ r. r.1)
            (some_inj (
              sym
                (run-refines x from (sends clocks 0 ms) up ∙ ap (λ r. r >>= sealed x from) sent_all)
              ∙ ran))

      o : Opens x key wires frames
      o =
          subst (λ w. Opens x key w frames) sealing
            (transmit_all-Opens x laws from.send_state key frames has
              (Carries-small x.hash 1 t.frames frames t.carries))
