-- ===== src/Reliable/Encrypted/Handshake.antt =====
-- The handshake of crypto.rs: the states of the channel, and the keys of a session.
use Prim.Native.String.{String}
use b.Prelude.{
  ℕ, ◌≡◌, refl, sym, ◌∙◌, ap, subst, true, false, List, [], ◌∷◌, Option, none, some, take, drop,
  ◌>>=◌, none-some, true-false, Bytes, Option-cases, Bool-cases, some_inj, inl, inr, ◌⊎◌,
}
use b.Reliable.Frame.{Priority}
use b.Reliable.Channel.State.{Config, Channel}
use b.Reliable.Channel.Sender as Sender
use b.Reliable.Encrypted.Channel.{
  hkdf_salt, hkdf_info, Crates, State, handshaking, ready, SendState, EncryptedChannel, disarmed,
  is_ready, set_version, reset_for_reconnect, new, around, establish, browser_pub, session_keys,
  derived, handle_handshake, decrypt_frame, receive_plain, receive_in, receive, send, tick,
  handshake_ok, public_key_bytes, transmit, transmit_all,
}
use b.Reliable.Encrypted.Sealing.{transmit_all-cipher}

-- The calls that the owner of a channel makes.
pub data Event : Type 0 where
  received : (ℕ → ℕ) → Bytes → Event
  sent : (ℕ → ℕ) → Bytes → Priority → Event
  ticked reconnected : Event
  versioned : String → Event

-- There are keys for both directions in the state `Ready`, and none before.
abbrev pub Keyed : State → SendState → Option Bytes → Type 0
Keyed handshaking st recv = (st ≡ disarmed) × (recv ≡ none)
Keyed ready st recv = ((key : Bytes) × (st.cipher ≡ some key)) × ((key : Bytes) × (recv ≡ some key))

abbrev pub IsKeyed : EncryptedChannel → Type 0
IsKeyed e = Keyed e.state e.send_state e.recv_cipher

module _ {Value : Type 0} (x : Crates Value) where
  unfoldable pub step : EncryptedChannel → Event → Option EncryptedChannel
  step e (received clock bytes) = some (receive x e clock bytes).0
  step e (sent clock payload pri) = elim (send x e clock payload pri) [
    | none ↦ none
    | some (e1, wires) ↦ some e1
  ]
  step e ticked = some (tick x e).0
  step e reconnected = some (reset_for_reconnect e)
  step e (versioned v) = some (set_version e v)

  -- The channel after the calls; `none` is a panic in one of them.
  unfoldable pub live : EncryptedChannel → List Event → Option EncryptedChannel
  live e [] = some e
  live e (v ∷ vs) = do e1 ← step e v; live e1 vs

  -- Before the handshake the closure drops every frame.
  pub transmit_all-disarmed : (fs : List Bytes) → transmit_all x disarmed fs ≡ (disarmed, [])
  unfolding transmit_all transmit
  transmit_all-disarmed [] = refl
  transmit_all-disarmed (f ∷ fs) = rw (transmit_all-disarmed fs, transmit_all, transmit) refl

  transmit_all-Keyed :
      (s : State) (st : SendState) (recv : Option Bytes) (fs : List Bytes)
      → Keyed s st recv
      → Keyed s (transmit_all x st fs).0 recv
  transmit_all-Keyed handshaking st recv fs (off, shut) =
      (ap (λ t. (transmit_all x t fs).0) off ∙ ap (λ r. r.0) (transmit_all-disarmed fs), shut)
  transmit_all-Keyed ready st recv fs ((key, has), opens) =
      ((key, transmit_all-cipher x st fs ∙ has), opens)

  around-IsKeyed :
      (e : EncryptedChannel) (c : Channel) (fs : List Bytes)
      → IsKeyed e
      → IsKeyed (around x e c fs).0
  unfolding around
  around-IsKeyed e c fs k = transmit_all-Keyed e.state e.send_state e.recv_cipher fs k

  handle_handshake-IsKeyed :
      (e : EncryptedChannel) (bytes : Bytes) → IsKeyed e → IsKeyed (handle_handshake x e bytes).0
  unfolding handle_handshake establish
  handle_handshake-IsKeyed e bytes k = elim (Option-cases (derived x e bytes)) [
    | inl failed ↦ rw (failed, handle_handshake) k
    | inr (okm, made) ↦
        rw (made, handle_handshake, establish) ((take 32 (drop 32 okm), refl), (take 32 okm, refl))
  ]

  receive_plain-IsKeyed :
      (e : EncryptedChannel) (clock : ℕ → ℕ) (p : Option Bytes)
      → IsKeyed e
      → IsKeyed (receive_plain x e clock p).0
  unfolding receive_plain
  receive_plain-IsKeyed e clock none k = k
  receive_plain-IsKeyed e clock (some p) k = around-IsKeyed e _ _ k

  receive_in-IsKeyed :
      (s : State) (e : EncryptedChannel) (clock : ℕ → ℕ) (bytes : Bytes)
      → IsKeyed e
      → IsKeyed (receive_in x s e clock bytes).0
  unfolding receive_in
  receive_in-IsKeyed handshaking e clock bytes k = handle_handshake-IsKeyed e bytes k
  receive_in-IsKeyed ready e clock bytes k =
      receive_plain-IsKeyed e clock (decrypt_frame x e.recv_cipher bytes) k

  -- What `send` does when the inner channel sends, and when it panics.
  pub send-eq-some :
      (e : EncryptedChannel) (clock : ℕ → ℕ) (payload : Bytes) (pri : Priority) (c : Channel)
      (fs : List Bytes)
      → is_ready e ≡ true
      → Sender.send x.hash e.inner clock payload pri ≡ some (c, fs)
      → send x e clock payload pri ≡ some (around x e c fs)
  unfolding send
  send-eq-some e clock payload pri c fs up ok = rw (up, send, ok) refl

  pub send-eq-none :
      (e : EncryptedChannel) (clock : ℕ → ℕ) (payload : Bytes) (pri : Priority)
      → (is_ready e ≡ false) ⊎ (Sender.send x.hash e.inner clock payload pri ≡ none)
      → send x e clock payload pri ≡ none
  unfolding send
  send-eq-none e clock payload pri (inl down) = rw (down, send) refl
  send-eq-none e clock payload pri (inr panic) = elim (Bool-cases (is_ready e)) [
    | inl up ↦ rw (up, send, panic) refl
    | inr down ↦ rw (down, send) refl
  ]

  send-IsKeyed :
      (e e1 : EncryptedChannel) (clock : ℕ → ℕ) (payload : Bytes) (pri : Priority)
      → IsKeyed e
      → step e (sent clock payload pri) ≡ some e1
      → IsKeyed e1
  unfolding step
  send-IsKeyed e e1 clock payload pri k h = elim (Bool-cases (is_ready e)) [
    | inl up ↦ elim (Option-cases (Sender.send x.hash e.inner clock payload pri)) [
      | inl panic ↦ absurd (cc (h, send-eq-none e clock payload pri (inr panic)))
      | inr ((c, fs), ok) ↦
          let sent : step e (sent clock payload pri) ≡ some (around x e c fs).0 =
            rw (send-eq-some e clock payload pri c fs up ok, step) refl in
          subst IsKeyed (some_inj (sym sent ∙ h)) (around-IsKeyed e c fs k)
    ]
    | inr down ↦ absurd (cc (h, send-eq-none e clock payload pri (inl down)))
  ]

  step-IsKeyed : (e e1 : EncryptedChannel) (v : Event) → IsKeyed e → step e v ≡ some e1 → IsKeyed e1
  unfolding step receive tick reset_for_reconnect set_version
  step-IsKeyed e e1 (received clock bytes) k h =
      subst IsKeyed (some_inj h) (receive_in-IsKeyed e.state e clock bytes k)
  step-IsKeyed e e1 (sent clock payload pri) k h = send-IsKeyed e e1 clock payload pri k h
  step-IsKeyed e e1 ticked k h = subst IsKeyed (some_inj h) (around-IsKeyed e _ _ k)
  step-IsKeyed e e1 reconnected k h = subst IsKeyed (some_inj h) (refl, refl)
  step-IsKeyed e e1 (versioned v) k h = subst IsKeyed (some_inj h) k

  live_from-IsKeyed :
      (e0 : EncryptedChannel) (vs : List Event) (e : EncryptedChannel)
      → IsKeyed e0
      → live e0 vs ≡ some e
      → IsKeyed e
  unfolding live
  live_from-IsKeyed e0 [] e k h = subst IsKeyed (some_inj h) k
  live_from-IsKeyed e0 (v ∷ vs) e k h = elim (Option-cases (step e0 v)) [
    | inl panic ↦ absurd (none-some (sym (ap (λ r. r >>= (λ e1. live e1 vs)) panic) ∙ h))
    | inr (e1, ok) ↦
        live_from-IsKeyed e1 vs e (step-IsKeyed e0 e1 v k ok)
          (sym (ap (λ r. r >>= (λ e1. live e1 vs)) ok) ∙ h)
  ]

  -- From a new channel on, over any calls that do not panic, there are keys for both directions in the
  -- state `Ready`, and in the state `Handshaking` there are none and the counter is 0.
  pub live-IsKeyed :
      (config : Config) (secret : Bytes) (vs : List Event) (e : EncryptedChannel)
      → live (new x config secret) vs ≡ some e
      → IsKeyed e
  unfolding new
  live-IsKeyed config secret vs e h = live_from-IsKeyed (new x config secret) vs e (refl, refl) h

  -- The browser has a key pair of its own and its public key is in the handshake; both sides know the
  -- other's public key, and Diffie-Hellman agrees. Then the browser's derivation and the daemon's have
  -- the same output: the daemon is ready, opens with the first half, seals with the second half from
  -- counter 0 on, and answers in plaintext with one `handshake_ok`.
  pub handle_handshake-session_keys :
      (e : EncryptedChannel) (browser : Bytes) (bytes okm : Bytes)
      → ((s t : Bytes) → x.diffie_hellman s (x.public_key t) ≡ x.diffie_hellman t (x.public_key s))
      → e.long_term_pub ≡ x.public_key e.long_term_secret
      → browser_pub x bytes ≡ some (x.public_key browser)
      → session_keys x browser (public_key_bytes e) ≡ some okm
      → let r = handle_handshake x e bytes in
        (is_ready r.0 ≡ true)
        × (r.0.recv_cipher ≡ some (take 32 okm))
        × (r.0.send_state ≡ record { cipher = some (take 32 (drop 32 okm)); counter = 0 })
        × (r.1 ≡ handshake_ok e.version ∷ [])
  unfolding handle_handshake establish is_ready derived session_keys public_key_bytes
  handle_handshake-session_keys e browser bytes okm agrees own offered keys =
      rw (made, handle_handshake, establish) (refl, refl, refl, refl)
    where
      same : session_keys x e.long_term_secret (x.public_key browser) ≡ some okm
      same =
          ap (λ d. x.hkdf_expand hkdf_salt d hkdf_info 64)
            (agrees e.long_term_secret browser ∙ ap (x.diffie_hellman browser) (sym own))
          ∙ keys

      made : derived x e bytes ≡ some okm
      made = rw (offered, derived) same

  -- A handshake that succeeds, by the keys that it derives.
  handle_handshake-establish :
      (e : EncryptedChannel) (bytes okm : Bytes)
      → derived x e bytes ≡ some okm
      → handle_handshake x e bytes ≡ establish x e okm
  unfolding handle_handshake
  handle_handshake-establish e bytes okm made = rw (made, handle_handshake) refl

  handle_handshake-failed :
      (e : EncryptedChannel) (bytes : Bytes)
      → derived x e bytes ≡ none
      → handle_handshake x e bytes ≡ (e, [])
  unfolding handle_handshake
  handle_handshake-failed e bytes failed = rw (failed, handle_handshake) refl

  is_ready-handshaking : (e : EncryptedChannel) → e.state ≡ handshaking → is_ready e ≡ false
  unfolding is_ready
  is_ready-handshaking e start = rw (start, is_ready) refl

  receive-derived :
      (e : EncryptedChannel) (clock : ℕ → ℕ) (bytes : Bytes)
      → e.state ≡ handshaking
      → is_ready (receive x e clock bytes).0 ≡ true
      → (okm : Bytes) × (derived x e bytes ≡ some okm)
        × ((receive x e clock bytes).0 ≡ (establish x e okm).0)
  unfolding receive receive_in
  receive-derived e clock bytes start up = elim (Option-cases (derived x e bytes)) [
    | inl failed ↦
        let kept : (receive x e clock bytes).0 ≡ e =
          ap (λ s. (receive_in x s e clock bytes).0) start
          ∙ ap (λ r. r.0) (handle_handshake-failed e bytes failed) in
        absurd (true-false (sym up ∙ ap is_ready kept ∙ is_ready-handshaking e start))
    | inr (okm, made) ↦ (
      okm,
      made,
      ap (λ s. (receive_in x s e clock bytes).0) start
          ∙ ap (λ r. r.0) (handle_handshake-establish e bytes okm made),
    )
  ]

  -- A frame made a channel ready that was waiting for a handshake. If it is received again by a channel with
  -- the same long-term secret that was reset, this one is ready too, opens with the same key, and seals with
  -- the same key, from counter 0 on, as the first one did.
  pub receive-reset_for_reconnect :
      (e e1 : EncryptedChannel) (clock clock1 : ℕ → ℕ) (bytes : Bytes)
      → e.state ≡ handshaking
      → is_ready (receive x e clock bytes).0 ≡ true
      → e1.long_term_secret ≡ e.long_term_secret
      → let first = (receive x e clock bytes).0 in
        let again = (receive x (reset_for_reconnect e1) clock1 bytes).0 in
        (is_ready again ≡ true)
        × ((key : Bytes) × (again.send_state ≡ record { cipher = some key; counter = 0 })
            × (first.send_state ≡ record { cipher = some key; counter = 0 }))
        × (again.recv_cipher ≡ first.recv_cipher)
  unfolding receive receive_in reset_for_reconnect establish derived is_ready
  receive-reset_for_reconnect e e1 clock clock1 bytes start up same =
      let (okm, made, first) = receive-derived e clock bytes start up in
      let remade : derived x (reset_for_reconnect e1) bytes ≡ some okm =
        ap (λ k. browser_pub x bytes >>= (λ public. session_keys x k public)) same ∙ made in
      let again : (receive x (reset_for_reconnect e1) clock1 bytes).0
          ≡ (establish x (reset_for_reconnect e1) okm).0 =
        ap (λ r. r.0) (handle_handshake-establish (reset_for_reconnect e1) bytes okm remade) in
      (
        ap is_ready again,
        (take 32 (drop 32 okm), ap (λ r. r.send_state) again, ap (λ r. r.send_state) first),
        ap (λ r. r.recv_cipher) again ∙ sym (ap (λ r. r.recv_cipher) first),
      )
