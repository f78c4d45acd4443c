-- ===== src/Reliable/Encrypted/Refinement.antt =====
-- A session of crypto.rs against the reliable channel that it wraps.
use b.Prelude.{
  ℕ, ◌+◌, ◌<◌, ◌≡◌, refl, sym, ◌∙◌, ap, subst, true, List, [], ◌∷◌, ◌++◌, Option, none, some, map,
  length, ◌>>=◌, some_inj, Bytes, u64_mod, Option-cases, inl, inr,
}
use b.Reliable.Frame.{Priority}
use b.Reliable.Channel.State.{Channel, ReceivedMessage}
use b.Reliable.Channel.Sender as Sender
use b.Reliable.Channel.Receiver as Receiver
use b.Reliable.Encrypted.Channel.{
  Crates, ready, EncryptedChannel, is_ready, around, decrypt_frame, receive_plain, receive_in,
  receive, send, tick, transmit_all,
}
use b.Reliable.Encrypted.Sealing.{Distinct, Grows-Distinct, transmit_all-Grows, transmit_all-append}
use b.Reliable.Encrypted.Handshake.{send-eq-some, send-eq-none}

-- The calls of one session, on the wire frames, or on what they are opened to.
pub data Call (A : Type 0) : Type 0 where
  received : (ℕ → ℕ) → A → Call A
  sent : (ℕ → ℕ) → Bytes → Priority → Call A
  ticked : Call A

-- A state, the byte strings that it transmitted to get there, and what it delivered.
abbrev pub Run : Type 0 → Type 0
Run S = Option (S × List Bytes × List ReceivedMessage)

module _ {S C : Type 0} (call : S → C → Run S) where
  -- the calls in their order, up to the first panic
  unfoldable pub run : S → List C → Run S
  run s [] = some (s, [], [])
  run s (c ∷ cs) = do
    (s1, wires, out) ← call s c
    (s2, more, later) ← run s1 cs
    some (s2, wires ++ more, out ++ later)

module _ {Value : Type 0} (x : Crates Value) where
  -- A call of the reliable channel; a frame that is not opened does not reach it.
  unfoldable pub inner_call : Channel → Call (Option Bytes) → Run Channel
  inner_call c (received clock none) = some (c, [], [])
  inner_call c (received clock (some plaintext)) = some (Receiver.receive x.hash c clock plaintext)
  inner_call c (sent clock payload pri) = do
    (c1, frames) ← Sender.send x.hash c clock payload pri
    some (c1, frames, [])
  inner_call c ticked = let (c1, frames) = Receiver.tick c in some (c1, frames, [])

  -- A call of the encrypted channel.
  unfoldable pub sealed_call : EncryptedChannel → Call Bytes → Run EncryptedChannel
  sealed_call e (received clock wire) = some (receive x e clock wire)
  sealed_call e (sent clock payload pri) = do
    (e1, wires) ← send x e clock payload pri
    some (e1, wires, [])
  sealed_call e ticked = let (e1, wires) = tick x e in some (e1, wires, [])

  -- The same call, with the wire frame opened.
  unfoldable pub opened : Option Bytes → Call Bytes → Call (Option Bytes)
  opened key (received clock wire) = received clock (decrypt_frame x key wire)
  opened key (sent clock payload pri) = sent clock payload pri
  opened key ticked = ticked

  -- A result of the reliable channel, with its frames sealed.
  unfoldable pub sealed :
      EncryptedChannel → Channel × List Bytes × List ReceivedMessage → Run EncryptedChannel
  sealed e (c, frames, out) = let (e1, wires) = around x e c frames in some (e1, wires, out)

  tick-refines :
      (e : EncryptedChannel) → sealed_call e ticked ≡ inner_call e.inner ticked >>= sealed e
  unfolding sealed_call inner_call tick sealed
  tick-refines e = refl

  run-nil : (e : EncryptedChannel) → some (e, [], []) ≡ sealed e (e.inner, [], [])
  unfolding sealed around transmit_all
  run-nil e = refl

  receive_plain-refines :
      (e : EncryptedChannel) (clock : ℕ → ℕ) (p : Option Bytes)
      → some (receive_plain x e clock p) ≡ inner_call e.inner (received clock p) >>= sealed e
  unfolding receive_plain inner_call sealed around transmit_all
  receive_plain-refines e clock none = refl
  receive_plain-refines e clock (some p) = refl

  send-refines :
      (e : EncryptedChannel) (clock : ℕ → ℕ) (payload : Bytes) (pri : Priority)
      → is_ready e ≡ true
      → sealed_call e (sent clock payload pri)
        ≡ inner_call e.inner (sent clock payload pri) >>= sealed e
  unfolding sealed_call inner_call sealed
  send-refines e clock payload pri up =
      elim (Option-cases (Sender.send x.hash e.inner clock payload pri)) [
        | inl panic ↦
            rw
              (
                panic,
                send-eq-none x e clock payload pri (inr panic),
                sealed_call,
                inner_call,
                sealed,
              )
              refl
        | inr ((c, fs), ok) ↦
            rw (ok, send-eq-some x e clock payload pri c fs up ok, sealed_call, inner_call, sealed)
              refl
      ]

  ready-is_ready : (e : EncryptedChannel) → e.state ≡ ready → is_ready e ≡ true
  unfolding is_ready
  ready-is_ready e up = rw (up, is_ready) refl

  -- One call.
  sealed_call-refines :
      (e : EncryptedChannel) (c : Call Bytes)
      → e.state ≡ ready
      → sealed_call e c ≡ inner_call e.inner (opened e.recv_cipher c) >>= sealed e
  unfolding sealed_call opened receive receive_in
  sealed_call-refines e (received clock wire) up =
      ap (λ s. some (receive_in x s e clock wire)) up
      ∙ receive_plain-refines e clock (decrypt_frame x e.recv_cipher wire)
  sealed_call-refines e (sent clock payload pri) up =
      send-refines e clock payload pri (ready-is_ready e up)
  sealed_call-refines e ticked up = tick-refines e

  sealed-append :
      (e : EncryptedChannel) (c c1 : Channel) (fs gs : List Bytes)
      (out later : List ReceivedMessage)
      → sealed e (c1, fs ++ gs, out ++ later) ≡ (
          let (e1, wires) = around x e c fs in
          let (e2, more) = around x e1 c1 gs in some (e2, wires ++ more, out ++ later))
  unfolding sealed around
  sealed-append e c c1 fs gs out later =
      rw (transmit_all-append x e.send_state fs gs, sealed, around) refl

  -- From a ready channel on, any calls do what the reliable channel inside does with the opened frames:
  -- the same deliveries and panics, and the frames that it transmits go out sealed, in order.
  pub run-refines :
      (e : EncryptedChannel) (cs : List (Call Bytes))
      → e.state ≡ ready
      → run sealed_call e cs ≡ run inner_call e.inner (map (opened e.recv_cipher) cs) >>= sealed e
  unfolding run around sealed
  run-refines e [] up = run-nil e
  run-refines e (c ∷ cs) up = elim (Option-cases (inner_call e.inner (opened e.recv_cipher c))) [
    | inl panic ↦ rw (sealed_call-refines e c up, panic) refl
    | inr ((c1, fs, out), ok) ↦
        let e1 = (around x e c1 fs).0 in
        let ih : run sealed_call e1 cs
            ≡ run inner_call c1 (map (opened e.recv_cipher) cs) >>= sealed e1 =
          run-refines e1 cs up in
        elim (Option-cases (run inner_call c1 (map (opened e.recv_cipher) cs))) [
          | inl panic ↦ rw (sealed_call-refines e c up, ok, sealed, ih, panic) refl
          | inr ((c2, gs, later), done) ↦
              rw (sealed_call-refines e c up, ok, sealed, ih, done)
                (sym (sealed-append e c1 c2 fs gs out later))
        ]
  ]

  -- From a ready channel on, over any calls, the frames that go out have nonces that differ from each
  -- other, if fewer than 2^64 frames are transmitted under the key.
  pub run-Distinct :
      (e e1 : EncryptedChannel) (c : Channel) (key : Bytes) (cs : List (Call Bytes))
      (frames wires : List Bytes) (out out1 : List ReceivedMessage)
      → e.state ≡ ready
      → e.send_state.cipher ≡ some key
      → run inner_call e.inner (map (opened e.recv_cipher) cs) ≡ some (c, frames, out)
      → run sealed_call e cs ≡ some (e1, wires, out1)
      → e.send_state.counter + length frames < u64_mod
      → Distinct wires
  unfolding sealed around
  run-Distinct e e1 c key cs frames wires out out1 up has inner outer small =
      let same : some ((around x e c frames).0, (around x e c frames).1, out)
          ≡ some (e1, wires, out1) =
        ap (λ r. r >>= sealed e) (sym inner) ∙ sym (run-refines e cs up) ∙ outer in
      subst Distinct (ap (λ r. r.1) (some_inj same)) (
        Grows-Distinct e.send_state.counter (e.send_state.counter + length frames)
          (transmit_all x e.send_state frames).1 small
          (transmit_all-Grows x e.send_state key frames has small))
