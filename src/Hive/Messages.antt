-- ===== src/Hive/Messages.antt =====
-- Messages of hive.rs between two sides that agree on their keys.
use b.Prelude.{
  ℕ, ◌≡◌, refl, ◌∙◌, ap, ap₂, true, false, Bool, [], some, length, ◌==◌, Bytes, ok, and_then, arith,
}
use b.Hive.Envelope.{
  Crates, DecryptError, invalid_nonce, invalid_content, invalid_ephemeral_key, invalid_room_key,
  sized, dm_info, derive_key, encrypt_aead, decrypt_aead, decode_or, encrypt_dm,
  encrypt_dm_ephemeral, ephemeral_key, dm_key, decrypt_dm, encrypt_room_key, decrypt_room_key,
  encrypt_room_message, decrypt_room_message,
}
use b.Hive.Order.{dm_info_comm}

-- What the development relies on of the crates.
pub record Laws (x : Crates) : Type 0 where
  pub base64 : (b : Bytes) → x.base64_decode (x.base64_encode b) ≡ some b
  pub agrees :
      (s t : Bytes) → x.diffie_hellman s (x.public_key t) ≡ x.diffie_hellman t (x.public_key s)
  pub public_32 : (s : Bytes) → length (x.public_key s) ≡ 32
  pub decrypts :
      (key nonce msg aad : Bytes) → x.decrypt key nonce (x.encrypt key nonce msg aad) aad ≡ some msg

module _ (x : Crates) (laws : Laws x) where
  decode_or-base64_encode :
      (b : Bytes) (e : DecryptError) → decode_or x (x.base64_encode b) e ≡ ok b
  unfolding decode_or
  decode_or-base64_encode b e = rw (laws.base64 b, decode_or) refl

  sized-length : (n : ℕ) (b : Bytes) (e : DecryptError) → length b ≡ n → sized n b e ≡ ok b
  sized-length n b e h = let t : (length b == n) ≡ true = ground (arith, h) in rw t refl

  decrypt_aead-encrypt :
      (key nonce msg aad : Bytes)
      → length nonce ≡ 12
      → decrypt_aead x key nonce (x.encrypt key nonce msg aad) aad ≡ ok msg
  unfolding decrypt_aead
  decrypt_aead-encrypt key nonce msg aad h =
      rw (sized-length 12 nonce invalid_nonce h, decrypt_aead, laws.decrypts key nonce msg aad) refl

  -- The two sides derive one key, whichever of them is named first.
  derive_key-agrees :
      (s t a b_ : Bytes) (e : Bool)
      → derive_key x (x.diffie_hellman s (x.public_key t)) (dm_info a b_ e)
        ≡ derive_key x (x.diffie_hellman t (x.public_key s)) (dm_info b_ a e)
  derive_key-agrees s t a b_ e = ap₂ (derive_key x) (laws.agrees s t) (dm_info_comm a b_ e)

  -- A static direct message, whatever its text and its metadata, is decrypted by the recipient with the
  -- sender's public key, if the nonce has 12 bytes.
  pub decrypt_dm-encrypt_dm :
      (nonce plaintext mine theirs my_id their_id aad : Bytes)
      → length nonce ≡ 12
      → decrypt_dm x
          (encrypt_dm x nonce plaintext mine (x.public_key theirs) my_id their_id aad)
          theirs
          (x.public_key mine)
          their_id
          my_id
          aad
        ≡ ok plaintext
  unfolding decrypt_dm encrypt_dm encrypt_aead dm_key
  decrypt_dm-encrypt_dm nonce plaintext mine theirs my_id their_id aad h =
      rw
        (
          decode_or-base64_encode nonce invalid_nonce,
          decode_or-base64_encode _ invalid_content,
          derive_key-agrees theirs mine their_id my_id false,
        )
        (decrypt_aead-encrypt _ nonce plaintext aad h)

  -- An ephemeral direct message is decrypted by the recipient, whatever public key it takes for the
  -- sender's, if the nonce has 12 bytes.
  pub decrypt_dm-encrypt_dm_ephemeral :
      (nonce ephemeral_secret plaintext theirs sender_pub my_id their_id aad : Bytes)
      → length nonce ≡ 12
      → decrypt_dm x
          (encrypt_dm_ephemeral x nonce ephemeral_secret plaintext
            (x.public_key theirs)
            my_id
            their_id
            aad)
          theirs
          sender_pub
          their_id
          my_id
          aad
        ≡ ok plaintext
  unfolding decrypt_dm encrypt_dm_ephemeral encrypt_aead dm_key ephemeral_key
  decrypt_dm-encrypt_dm_ephemeral nonce s plaintext theirs sender_pub my_id their_id aad h =
      rw
        (
          decode_or-base64_encode nonce invalid_nonce,
          decode_or-base64_encode _ invalid_content,
          decode_or-base64_encode (x.public_key s) invalid_ephemeral_key,
          sized-length 32 (x.public_key s) invalid_ephemeral_key (laws.public_32 s),
          derive_key-agrees theirs s their_id my_id true,
        )
        (decrypt_aead-encrypt _ nonce plaintext aad h)

  decrypt_room_key-encrypt_room_key :
      (nonce room_key creator member room_id : Bytes)
      → length nonce ≡ 12
      → length room_key ≡ 32
      → decrypt_room_key x
          (encrypt_room_key x nonce room_key creator (x.public_key member) room_id)
          member
          (x.public_key creator)
          room_id
        ≡ ok room_key
  unfolding decrypt_room_key encrypt_room_key encrypt_aead
  decrypt_room_key-encrypt_room_key nonce room_key creator member room_id h h32 =
      rw
        (
          decode_or-base64_encode nonce invalid_nonce,
          decode_or-base64_encode _ invalid_content,
          laws.agrees member creator,
          decrypt_aead-encrypt _ nonce room_key [] h,
        )
        (sized-length 32 room_key invalid_room_key h32)

  decrypt_room_message-encrypt_room_message :
      (nonce plaintext room_key : Bytes)
      → length nonce ≡ 12
      → decrypt_room_message x (encrypt_room_message x nonce plaintext room_key) room_key
        ≡ ok plaintext
  unfolding decrypt_room_message encrypt_room_message encrypt_aead
  decrypt_room_message-encrypt_room_message nonce plaintext room_key h =
      rw (decode_or-base64_encode nonce invalid_nonce, decode_or-base64_encode _ invalid_content)
        (decrypt_aead-encrypt room_key nonce plaintext [] h)

  -- A room key that its creator encrypts for a member is what the member decrypts, and what one of them
  -- then encrypts with it the other decrypts; nonces have 12 bytes and the room key has 32.
  pub decrypt_room_message-decrypt_room_key :
      (nonce1 nonce2 room_key creator member room_id plaintext : Bytes)
      → length nonce1 ≡ 12
      → length nonce2 ≡ 12
      → length room_key ≡ 32
      → and_then
          (decrypt_room_key x
            (encrypt_room_key x nonce1 room_key creator (x.public_key member) room_id)
            member
            (x.public_key creator)
            room_id)
          (decrypt_room_message x (encrypt_room_message x nonce2 plaintext room_key))
        ≡ ok plaintext
  decrypt_room_message-decrypt_room_key nonce1 nonce2 room_key creator member room_id plaintext h1
        h2 h =
      ap
        (λ r.
          and_then r (decrypt_room_message x (encrypt_room_message x nonce2 plaintext room_key)))
        (decrypt_room_key-encrypt_room_key nonce1 room_key creator member room_id h1 h)
      ∙ decrypt_room_message-encrypt_room_message nonce2 plaintext room_key h2
