-- ===== src/Reliable/Frame/Reject.antt =====
-- What `decode` of frame.rs refuses, and how it agrees with the test of the magic bytes.
use b.Prelude.{
  ℕ, zero, suc, ◌+◌, ◌<◌, ◌≤◌, ◌≡◌, ◌≢◌, refl, none, some, [], ◌∷◌, ◌++◌, true, arith, ◌⊎◌, inl,
  inr, read_u32, get_or-take, u32_to_le_bytes, u16_to_le_bytes, length, take, length-take, take-all,
  Bytes, u32_mod,
}
use native.Mathlib.Decide.{dec_lt}
use b.Reliable.Frame.{
  Priority, critical, best_effort, Frame, encode_data, encode_ack, encode_resume, decode,
  decode_data, decode_ack, decode_resume, crc32, is_reliable,
}

-- A data frame whose payload was replaced in transit by one of the same length and another digest
-- is refused, if its length fits a u32.
pub decode-corrupt :
    (hash : Bytes → ℕ) (hash_u32 : (p : Bytes) → hash p < u32_mod) (seq ts : ℕ) (pri : Priority)
    (payload received : Bytes)
    → length payload < u32_mod
    → length received ≡ length payload
    → hash received ≢ hash payload
    → decode hash (take 19 (encode_data hash seq ts pri payload) ++ received) ≡ none
unfolding decode decode_data encode_data crc32
decode-corrupt hash hash_u32 seq ts critical payload received hl same differ =
    ground (arith, hash_u32 payload, take-all (length payload) received)
decode-corrupt hash hash_u32 seq ts best_effort payload received hl same differ =
    ground (arith, hash_u32 payload, take-all (length payload) received)

-- What `decode` accepts starts with one of the three magic prefixes.
pub decode-is_reliable :
    (hash : Bytes → ℕ) (d : Bytes) {f : Frame} → decode hash d ≡ some f → is_reliable d ≡ true
unfolding decode is_reliable
decode-is_reliable hash [] h = ground arith
decode-is_reliable hash (a ∷ []) h = ground arith
decode-is_reliable hash (a ∷ k ∷ rest) h = ground arith

decode_data-cut :
    (hash : Bytes → ℕ) (d : Bytes) → length d < 19 + read_u32 d 15 → decode_data hash d ≡ none
unfolding decode_data
decode_data-cut hash d h = ground arith

read_u32-take : (n i : ℕ) (d : Bytes) → i + 4 ≤ n → read_u32 (take n d) i ≡ read_u32 d i
read_u32-take n i d h = omega (
  arith,
  get_or-take n i d 0 (omega arith),
  get_or-take n (i + 1) d 0 (omega arith),
  get_or-take n (i + 2) d 0 (omega arith),
  get_or-take n (i + 3) d 0 (omega arith),
)

decode_data-short : (hash : Bytes → ℕ) (d : Bytes) → length d < 19 → decode_data hash d ≡ none
unfolding decode_data
decode_data-short hash d h = ground arith

decode_data-take :
    (hash : Bytes → ℕ) (n : ℕ) (d : Bytes)
    → n < 19 + read_u32 d 15
    → decode_data hash (take n d) ≡ none
decode_data-take hash n d h = elim (dec_lt n 19) [
  | yes short ↦ decode_data-short hash (take n d) (omega (arith, length-take n d))
  | no long ↦
      decode_data-cut hash (take n d)
        (omega (arith, length-take n d, read_u32-take n 15 d (omega arith)))
]

data-truncated :
    (hash : Bytes → ℕ) (n seq ts : ℕ) (pri : Priority) (payload : Bytes)
    → length payload < u32_mod
    → n < length (encode_data hash seq ts pri payload)
    → decode hash (take n (encode_data hash seq ts pri payload)) ≡ none
unfolding decode encode_data
data-truncated hash zero seq ts pri payload hl h = refl
data-truncated hash (suc zero) seq ts pri payload hl h = refl
data-truncated hash (suc (suc n)) seq ts pri payload hl h =
    decode_data-take hash (suc (suc n)) (encode_data hash seq ts pri payload) (omega arith)

ack-truncated :
    (hash : Bytes → ℕ) (n seq window : ℕ)
    → n < length (encode_ack seq window)
    → decode hash (take n (encode_ack seq window)) ≡ none
unfolding decode decode_ack encode_ack
ack-truncated hash zero seq window h = refl
ack-truncated hash (suc zero) seq window h = refl
ack-truncated hash (suc (suc n)) seq window h =
    ground (arith, length-take n (u32_to_le_bytes seq ++ u16_to_le_bytes window))

resume-truncated :
    (hash : Bytes → ℕ) (n seq : ℕ)
    → n < length (encode_resume seq)
    → decode hash (take n (encode_resume seq)) ≡ none
unfolding decode decode_resume encode_resume
resume-truncated hash zero seq h = refl
resume-truncated hash (suc zero) seq h = refl
resume-truncated hash (suc (suc n)) seq h = ground (arith, length-take n (u32_to_le_bytes seq))

-- A strict prefix of an encoded frame is refused, be it a data frame whose payload fits a `u32`,
-- an ACK frame or a resume frame.
pub decode-truncated :
    (hash : Bytes → ℕ) (seq ts window : ℕ) (pri : Priority) (payload sent : Bytes) (n : ℕ)
    → length payload < u32_mod
    → (sent ≡ encode_data hash seq ts pri payload)
      ⊎ ((sent ≡ encode_ack seq window) ⊎ (sent ≡ encode_resume seq))
    → n < length sent
    → decode hash (take n sent) ≡ none
decode-truncated hash seq ts window pri payload sent n hl (inl e) h =
    rw e (data-truncated hash n seq ts pri payload hl (rw e at h))
decode-truncated hash seq ts window pri payload sent n hl (inr (inl e)) h =
    rw e (ack-truncated hash n seq window (rw e at h))
decode-truncated hash seq ts window pri payload sent n hl (inr (inr e)) h =
    rw e (resume-truncated hash n seq (rw e at h))
