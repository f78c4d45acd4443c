-- ===== src/Reliable/Encrypted/Channel.antt =====
-- The state and the operations of `EncryptedChannel`.
use Prim.Native.String.{String}
use text.Mathlib.Text.{◌==◌ as str_eq}
use b.Prelude.{
  ℕ, ◌+◌, ◌/◌, ◌%◌, Bool, true, false, List, [], ◌∷◌, ◌++◌, Option, none, some, length, take, drop,
  ltb, ◌==◌, if◌then◌else◌, ◌>>=◌, Bytes, u32_mod, u64_mod, u32_to_le_bytes, as_bytes,
}
use b.Reliable.Frame.{Priority}
use b.Reliable.Channel.State.{Config, Channel, ReceivedMessage}
use b.Reliable.Channel.State as Inner
use b.Reliable.Channel.Sender as Sender
use b.Reliable.Channel.Receiver as Receiver

-- What the code takes from other crates: crc32fast, serde_json with `get` and `as_str`, base64,
-- x25519_dalek, hkdf and aes_gcm. A result of `none` is their error.
pub record Crates (Value : Type 0) : Type 0 where
  pub hash : Bytes → ℕ
  pub from_slice : Bytes → Option Value
  pub get_str : Value → String → Option String
  pub base64_decode : String → Option Bytes
  pub base64_encode : Bytes → String
  pub public_key : Bytes → Bytes
  pub diffie_hellman : (secret public : Bytes) → Bytes
  pub hkdf_expand : (salt ikm info : Bytes) (len : ℕ) → Option Bytes
  pub encrypt : (key nonce plaintext : Bytes) → Option Bytes
  pub decrypt : (key nonce ciphertext : Bytes) → Option Bytes

abbrev pub hkdf_salt : Bytes
hkdf_salt = as_bytes "b3-daemon-proxy"

abbrev pub hkdf_info : Bytes
hkdf_info = as_bytes "b3-daemon-proxy-v1"

abbrev pub nonce_len : ℕ
nonce_len = 12

abbrev pub tag_len : ℕ
tag_len = 16

pub data State : Type 0 where
  handshaking : State
  ready : State

pub record SendState : Type 0 where
  pub cipher : Option Bytes
  pub counter : ℕ

pub record EncryptedChannel : Type 0 where
  pub state : State
  pub long_term_secret : Bytes
  pub long_term_pub : Bytes
  pub inner : Channel
  pub send_state : SendState
  pub recv_cipher : Option Bytes
  pub version : Option String

-- `u64::to_le_bytes`
abbrev pub u64_to_le_bytes : ℕ → Bytes
u64_to_le_bytes n = u32_to_le_bytes (n % u32_mod) ++ u32_to_le_bytes (n / u32_mod)

unfoldable pub counter_nonce : ℕ → Bytes
counter_nonce counter = 0 ∷ 0 ∷ 0 ∷ 0 ∷ u64_to_le_bytes counter

abbrev pub disarmed : SendState
disarmed = record { cipher = none; counter = 0 }

unfoldable pub is_ready : EncryptedChannel → Bool
is_ready e = elim e.state [ handshaking ↦ false | ready ↦ true ]

unfoldable pub set_version : EncryptedChannel → String → EncryptedChannel
set_version e v = record e { version = some v }

unfoldable pub public_key_bytes : EncryptedChannel → Bytes
public_key_bytes e = e.long_term_pub

-- The plaintext answer to a handshake.
unfoldable pub handshake_ok : Option String → Bytes
handshake_ok none = as_bytes "{\"type\":\"handshake_ok\"}"
handshake_ok (some v) =
    as_bytes "{\"type\":\"handshake_ok\",\"version\":\"" ++ as_bytes v ++ as_bytes "\"}"

unfoldable pub reset_for_reconnect : EncryptedChannel → EncryptedChannel
reset_for_reconnect e = record e {
  inner = Receiver.reset e.inner;
  send_state = disarmed;
  recv_cipher = none;
  state = handshaking;
}

module _ {Value : Type 0} (x : Crates Value) where
  unfoldable pub new : Config → Bytes → EncryptedChannel
  new config long_term_secret = record {
    state = handshaking;
    long_term_secret = long_term_secret;
    long_term_pub = x.public_key long_term_secret;
    inner = Inner.new config;
    send_state = disarmed;
    recv_cipher = none;
    version = none;
  }

  unfoldable pub public_key_b64 : EncryptedChannel → String
  public_key_b64 e = x.base64_encode e.long_term_pub

  -- The match of the closure on the result of `encrypt`.
  unfoldable pub wire : (counter : ℕ) → Option Bytes → List Bytes
  wire counter none = []
  wire counter (some ciphertext) = (counter_nonce counter ++ ciphertext) ∷ []

  -- The closure, on one frame.
  unfoldable pub transmit : SendState → Bytes → SendState × List Bytes
  transmit st frame = elim st.cipher [
    | none ↦ (st, [])
    | some key ↦
        let counter = (st.counter + 1) % u64_mod in
        (
          record st { counter = counter },
          wire counter (x.encrypt key (counter_nonce counter) frame),
        )
  ]

  -- The closure, on each frame that a call of the inner channel hands out.
  unfoldable pub transmit_all : SendState → List Bytes → SendState × List Bytes
  transmit_all st [] = (st, [])
  transmit_all st (f ∷ fs) =
      let (st1, sent) = transmit st f in
      let (st2, more) = transmit_all st1 fs in (st2, sent ++ more)

  -- the encrypted channel after a call of the inner one, and what went to `raw_tx`
  unfoldable pub around : EncryptedChannel → Channel → List Bytes → EncryptedChannel × List Bytes
  around e inner frames =
      let (st, wires) = transmit_all e.send_state frames in
      (record e { inner = inner; send_state = st }, wires)

  -- The end of `handle_handshake`, from the output of HKDF on.
  unfoldable pub establish : EncryptedChannel → Bytes → EncryptedChannel × List Bytes
  establish e okm = (
    record e {
      recv_cipher = some (take 32 okm);
      send_state = record { cipher = some (take 32 (drop 32 okm)); counter = 0 };
      state = ready;
    },
    handshake_ok e.version ∷ [],
  )

  -- The fields `type` and `pubkey`, and the decoding of the key; `none` is an early return.
  unfoldable pub pubkey_text : Value → Option String
  pubkey_text frame = elim (x.get_str frame "type") [
    | none ↦ none
    | some t ↦ if str_eq t "handshake" then x.get_str frame "pubkey" else none
  ]

  unfoldable pub browser_pub : Bytes → Option Bytes
  browser_pub bytes = do
    frame ← x.from_slice bytes
    text ← pubkey_text frame
    pubkey_bytes ← x.base64_decode text
    if length pubkey_bytes == 32 then some pubkey_bytes else none

  -- ECDH and HKDF, for the side that has this secret.
  unfoldable pub session_keys : (secret public : Bytes) → Option Bytes
  session_keys secret public = x.hkdf_expand hkdf_salt (x.diffie_hellman secret public) hkdf_info 64

  unfoldable pub derived : EncryptedChannel → Bytes → Option Bytes
  derived e bytes = do public ← browser_pub bytes; session_keys e.long_term_secret public

  unfoldable pub handle_handshake : EncryptedChannel → Bytes → EncryptedChannel × List Bytes
  handle_handshake e bytes = elim (derived e bytes) [ none ↦ (e, []) | some okm ↦ establish e okm ]

  unfoldable pub decrypt_frame : Option Bytes → Bytes → Option Bytes
  decrypt_frame recv_cipher bytes =
      if ltb (length bytes) (nonce_len + tag_len) then none else elim recv_cipher [
        | none ↦ none
        | some key ↦ x.decrypt key (take nonce_len bytes) (drop nonce_len bytes)
      ]

  -- What `receive` does in the state `Ready`, with the result of `decrypt_frame`.
  unfoldable pub receive_plain :
      EncryptedChannel
      → (ℕ → ℕ)
      → Option Bytes
      → EncryptedChannel × List Bytes × List ReceivedMessage
  receive_plain e clock none = (e, [], [])
  receive_plain e clock (some plaintext) =
      let (c, frames, out) = Receiver.receive x.hash e.inner clock plaintext in
      let (e1, wires) = around e c frames in (e1, wires, out)

  -- The match of `receive` on the state.
  unfoldable pub receive_in :
      State
      → EncryptedChannel
      → (ℕ → ℕ)
      → Bytes
      → EncryptedChannel × List Bytes × List ReceivedMessage
  receive_in handshaking e clock bytes = let (e1, sent) = handle_handshake e bytes in (e1, sent, [])
  receive_in ready e clock bytes = receive_plain e clock (decrypt_frame e.recv_cipher bytes)

  unfoldable pub receive :
      EncryptedChannel → (ℕ → ℕ) → Bytes → EncryptedChannel × List Bytes × List ReceivedMessage
  receive e clock bytes = receive_in e.state e clock bytes

  -- `send`; `none` is a panic, of the assertion or of the inner `send`.
  unfoldable pub send :
      EncryptedChannel → (ℕ → ℕ) → Bytes → Priority → Option (EncryptedChannel × List Bytes)
  send e clock payload priority =
      if is_ready e
      then elim (Sender.send x.hash e.inner clock payload priority) [
        | none ↦ none
        | some (c, frames) ↦ some (around e c frames)
      ]
      else none

  unfoldable pub tick : EncryptedChannel → EncryptedChannel × List Bytes
  tick e = let (c, frames) = Receiver.tick e.inner in around e c frames
