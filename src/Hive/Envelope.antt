-- ===== src/Hive/Envelope.antt =====
-- The types and the functions of hive.rs, up to the pinning of keys.
use b.Prelude.{
  ℕ, Bool, true, false, [], ◌∷◌, ◌++◌, Option, none, some, length, ltb, ◌==◌, if◌then◌else◌, Bytes,
  as_bytes, Result, ok, err, and_then,
}

-- base64, x25519_dalek, hkdf and chacha20poly1305. HKDF gives 32 bytes and encryption a ciphertext, as
-- the calls of `expect` say; `none` is an error of the crate.
pub record Crates : Type 0 where
  pub base64_encode : Bytes → Bytes
  pub base64_decode : Bytes → Option Bytes
  pub public_key : Bytes → Bytes
  pub diffie_hellman : (secret public : Bytes) → Bytes
  pub hkdf_expand : (salt ikm info : Bytes) → Bytes
  pub encrypt : (key nonce msg aad : Bytes) → Bytes
  pub decrypt : (key nonce msg aad : Bytes) → Option Bytes

abbrev pub hkdf_salt : Bytes
hkdf_salt = as_bytes "b3-hive-v1"

pub data KeyType : Type 0 where
  static ephemeral : KeyType

pub record EncryptedEnvelope : Type 0 where
  pub encrypted : Bool
  pub version : ℕ
  pub key_type : KeyType
  pub ephemeral_pub : Option Bytes
  pub nonce : Bytes
  pub content : Bytes

pub record EncryptedRoomKey : Type 0 where
  pub nonce : Bytes
  pub encrypted_key : Bytes

pub data DecryptError : Type 0 where
  invalid_nonce invalid_content missing_ephemeral_key invalid_ephemeral_key decryption_failed
        invalid_room_key :
      DecryptError

-- `a <= b` on texts
unfoldable pub text_le : Bytes → Bytes → Bool
text_le [] t = true
text_le (c ∷ s) [] = false
text_le (c ∷ s) (d ∷ t) =
    let rest = text_le s t in if ltb c d then true else if c == d then rest else false

-- The ids in their order, with a colon between them.
unfoldable pub ordered_ids : Bytes → Bytes → Bytes
ordered_ids a_id b_id =
    if text_le a_id b_id then a_id ++ (as_bytes ":" ++ b_id) else b_id ++ (as_bytes ":" ++ a_id)

unfoldable pub dm_info : Bytes → Bytes → Bool → Bytes
dm_info a_id b_id is_ephemeral =
    (if is_ephemeral then as_bytes "dm-ephemeral:" else as_bytes "dm:") ++ ordered_ids a_id b_id

unfoldable pub room_info : Bytes → Bytes
room_info room_id = as_bytes "room-key:" ++ room_id

-- A conversion to an array of `n` bytes.
abbrev pub sized : ℕ → Bytes → DecryptError → Result Bytes DecryptError
sized n bytes e = if length bytes == n then ok bytes else err e

module _ (x : Crates) where
  unfoldable pub derive_key : Bytes → Bytes → Bytes
  derive_key shared_secret info = x.hkdf_expand hkdf_salt shared_secret info

  -- The nonce that was drawn, and the ciphertext.
  unfoldable pub encrypt_aead : (nonce key plaintext aad : Bytes) → Bytes × Bytes
  encrypt_aead nonce key plaintext aad = (nonce, x.encrypt key nonce plaintext aad)

  unfoldable pub decrypt_aead : (key nonce ciphertext aad : Bytes) → Result Bytes DecryptError
  decrypt_aead key nonce ciphertext aad =
      and_then (sized 12 nonce invalid_nonce) (λ n. elim (x.decrypt key n ciphertext aad) [
        | none ↦ err decryption_failed
        | some p ↦ ok p
      ])

  unfoldable pub decode_or : Bytes → DecryptError → Result Bytes DecryptError
  decode_or text e = elim (x.base64_decode text) [ none ↦ err e | some b ↦ ok b ]

  unfoldable pub encrypt_dm :
      (nonce plaintext my_key their_pub my_id their_id aad : Bytes) → EncryptedEnvelope
  encrypt_dm nonce plaintext my_key their_pub my_id their_id aad =
      let enc_key = derive_key (x.diffie_hellman my_key their_pub) (dm_info my_id their_id false) in
      let (nonce_bytes, ciphertext) = encrypt_aead nonce enc_key plaintext aad in
      record {
        encrypted = true;
        version = 1;
        key_type = static;
        ephemeral_pub = none;
        nonce = x.base64_encode nonce_bytes;
        content = x.base64_encode ciphertext;
      }

  unfoldable pub encrypt_dm_ephemeral :
      (nonce ephemeral_secret plaintext their_pub my_id their_id aad : Bytes) → EncryptedEnvelope
  encrypt_dm_ephemeral nonce ephemeral_secret plaintext their_pub my_id their_id aad =
      let enc_key =
        derive_key (x.diffie_hellman ephemeral_secret their_pub) (dm_info my_id their_id true) in
      let (nonce_bytes, ciphertext) = encrypt_aead nonce enc_key plaintext aad in
      record {
        encrypted = true;
        version = 1;
        key_type = ephemeral;
        ephemeral_pub = some (x.base64_encode (x.public_key ephemeral_secret));
        nonce = x.base64_encode nonce_bytes;
        content = x.base64_encode ciphertext;
      }

  -- The ephemeral key of an envelope.
  unfoldable pub ephemeral_key : Option Bytes → Result Bytes DecryptError
  ephemeral_key none = err missing_ephemeral_key
  ephemeral_key (some text) =
      and_then (decode_or text invalid_ephemeral_key) (λ b. sized 32 b invalid_ephemeral_key)

  -- The match of `decrypt_dm` on the type of the key.
  unfoldable pub dm_key :
      KeyType
      → Option Bytes
      → (my_key sender_pub my_id sender_id : Bytes) → Result Bytes DecryptError
  dm_key static eph my_key sender_pub my_id sender_id =
      ok (derive_key (x.diffie_hellman my_key sender_pub) (dm_info my_id sender_id false))
  dm_key ephemeral eph my_key sender_pub my_id sender_id =
      and_then (ephemeral_key eph) (λ eph_pub.
        ok (derive_key (x.diffie_hellman my_key eph_pub) (dm_info my_id sender_id true)))

  unfoldable pub decrypt_dm :
      EncryptedEnvelope
      → (my_key sender_pub my_id sender_id aad : Bytes) → Result Bytes DecryptError
  decrypt_dm envelope my_key sender_pub my_id sender_id aad =
      and_then (decode_or envelope.nonce invalid_nonce) (λ nonce_bytes.
        and_then (decode_or envelope.content invalid_content) (λ ciphertext.
          and_then
            (dm_key envelope.key_type envelope.ephemeral_pub my_key sender_pub my_id sender_id)
            (λ enc_key. decrypt_aead enc_key nonce_bytes ciphertext aad)))

  unfoldable pub encrypt_room_key :
      (nonce room_key my_key member_pub room_id : Bytes) → EncryptedRoomKey
  encrypt_room_key nonce room_key my_key member_pub room_id =
      let enc_key = derive_key (x.diffie_hellman my_key member_pub) (room_info room_id) in
      let (nonce_bytes, ciphertext) = encrypt_aead nonce enc_key room_key [] in
      record { nonce = x.base64_encode nonce_bytes; encrypted_key = x.base64_encode ciphertext }

  unfoldable pub decrypt_room_key :
      EncryptedRoomKey → (my_key creator_pub room_id : Bytes) → Result Bytes DecryptError
  decrypt_room_key encrypted my_key creator_pub room_id =
      and_then (decode_or encrypted.nonce invalid_nonce) (λ nonce_bytes.
        and_then (decode_or encrypted.encrypted_key invalid_content) (λ ciphertext.
          let enc_key = derive_key (x.diffie_hellman my_key creator_pub) (room_info room_id) in
          and_then (decrypt_aead enc_key nonce_bytes ciphertext [])
            (λ plaintext. sized 32 plaintext invalid_room_key)))

  unfoldable pub encrypt_room_message : (nonce plaintext room_key : Bytes) → EncryptedEnvelope
  encrypt_room_message nonce plaintext room_key =
      let (nonce_bytes, ciphertext) = encrypt_aead nonce room_key plaintext [] in
      record {
        encrypted = true;
        version = 1;
        key_type = static;
        ephemeral_pub = none;
        nonce = x.base64_encode nonce_bytes;
        content = x.base64_encode ciphertext;
      }

  unfoldable pub decrypt_room_message : EncryptedEnvelope → Bytes → Result Bytes DecryptError
  decrypt_room_message envelope room_key =
      and_then (decode_or envelope.nonce invalid_nonce) (λ nonce_bytes.
        and_then (decode_or envelope.content invalid_content)
          (λ ciphertext. decrypt_aead room_key nonce_bytes ciphertext []))
