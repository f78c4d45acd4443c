-- ===== src/Hive/Tests.antt =====
-- Tests of hive.rs with a cipher that puts a zero before the text, and of `HiveDedup`.
use b.Prelude.{
  is_whitespace, List, ℕ, ◌+◌, ◌-◌, All, false, map, ap₂, ok, Bytes, ◌≡◌, refl, ap, [], ◌∷◌, some,
  drop, replicate, get_or, arith, as_bytes,
}
use b.Hive.Envelope.{Crates, encrypt_dm, decrypt_dm}
use b.Hive.Dedup.{answers, expected, answers-expected}
use b.Hive.Trust.{answers as pins, expected as judged, answers-trusted}
use b.Hive.Messages.{Laws, decrypt_dm-encrypt_dm}

abbrev toy : Crates
toy = record {
  base64_encode = λ b. b;
  base64_decode = λ t. some t;
  public_key = λ s. get_or s 0 0 ∷ replicate 31 0;
  diffie_hellman = λ s t. (get_or s 0 0 + get_or t 0 0) ∷ [];
  hkdf_expand = λ salt ikm info. ikm;
  encrypt = λ key nonce msg aad. 0 ∷ msg;
  decrypt = λ key nonce msg aad. some (drop 1 msg);
}

toy-Laws : Laws toy
toy-Laws = record {
  base64 = λ b. refl;
  agrees = λ s t. ap (λ n. n ∷ []) (omega arith);
  public_32 = λ s. refl;
  decrypts = λ key nonce msg aad. refl;
}

abbrev nonce : Bytes
nonce = replicate 12 3

abbrev room_key : Bytes
room_key = replicate 32 8

abbrev hello : Bytes
hello = as_bytes "hello"

decrypt_dm-encrypt_dm_example :
    decrypt_dm toy
      (encrypt_dm toy nonce hello
        (5 ∷ [])
        (toy.public_key (6 ∷ []))
        (as_bytes "ann")
        (as_bytes "bob")
        [])
      (6 ∷ [])
      (toy.public_key (5 ∷ []))
      (as_bytes "bob")
      (as_bytes "ann")
      []
    ≡ ok hello
decrypt_dm-encrypt_dm_example =
    decrypt_dm-encrypt_dm toy toy-Laws nonce hello (5 ∷ []) (6 ∷ []) (as_bytes "ann")
      (as_bytes "bob") [] refl

-- The same message twice, and another one between.
abbrev inbox : List (List ℕ × List ℕ)
inbox = (1 ∷ [], 2 ∷ 3 ∷ []) ∷ (1 ∷ [], 4 ∷ []) ∷ (1 ∷ [], 2 ∷ 3 ∷ []) ∷ []

abbrev hash : List ℕ → List ℕ → ℕ
hash sender text = get_or text 0 0

answers-expected_example : answers hash [] inbox ≡ expected hash [] inbox
answers-expected_example = answers-expected hash inbox

-- An encoding without white space.
abbrev shifted : Crates
shifted = record toy {
  base64_encode = map (λ c. c + 0x3001);
  base64_decode = λ t. some (map (λ c. c - 0x3001) t);
}

map-shifted : (b : Bytes) → map (λ c. c - 0x3001) (map (λ c. c + 0x3001) b) ≡ b
map-shifted [] = refl
map-shifted (c ∷ b) = ap₂ (λ d ds. d ∷ ds) (omega arith) (map-shifted b)

is_whitespace-shifted : (c : ℕ) → is_whitespace (c + 0x3001) ≡ false
unfolding is_whitespace
is_whitespace-shifted c = ground arith

shifted-no_space : (b : Bytes) → All (λ c. is_whitespace c ≡ false) (map (λ c. c + 0x3001) b)
shifted-no_space [] = tt
shifted-no_space (c ∷ b) = (is_whitespace-shifted c, shifted-no_space b)

-- A name with its key, again with it, and with another one.
abbrev contacts : List (Bytes × Bytes)
contacts = (5 ∷ [], replicate 32 1) ∷ (5 ∷ [], replicate 32 1) ∷ (5 ∷ [], replicate 32 2) ∷ []

answers-trusted_example : pins shifted [] contacts ≡ judged [] contacts
answers-trusted_example =
    answers-trusted shifted (λ b. ap some (map-shifted b)) shifted-no_space contacts
      (refl, (refl, (refl, tt))) ((refl, tt), ((refl, tt), ((refl, tt), tt)))
