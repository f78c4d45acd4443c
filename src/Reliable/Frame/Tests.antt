-- ===== src/Reliable/Frame/Tests.antt =====
-- Tests of frame.rs: a checksum that adds the bytes stands for the crate's.
use b.Prelude.{ℕ, ◌+◌, ◌%◌, ◌<◌, ◌≡◌, refl, [], ◌∷◌, ◌++◌, none, some, take, Bytes, u32_mod, arith}
use b.Reliable.Frame.{critical, data_frame, encode_data, crc32, decode}
use b.Reliable.Frame.Roundtrip.{decode-encode_data}
use b.Reliable.Frame.Reject.{decode-corrupt}

abbrev pub total : Bytes → ℕ
total [] = 0
total (b ∷ bs) = b + total bs

abbrev pub digest : Bytes → ℕ
digest p = total p % u32_mod

pub digest_u32 : (p : Bytes) → digest p < u32_mod
digest_u32 p = omega arith

decode-encode_data_example :
    decode digest (encode_data digest 7 12 critical (1 ∷ 2 ∷ []) ++ (9 ∷ []))
    ≡ some (data_frame 7 12 (crc32 digest (1 ∷ 2 ∷ [])) critical (1 ∷ 2 ∷ []))
decode-encode_data_example =
    decode-encode_data digest digest_u32 7 12 critical (1 ∷ 2 ∷ []) (9 ∷ []) (omega arith)
      (omega arith) (omega arith)

decode-corrupt_example :
    decode digest (take 19 (encode_data digest 7 12 critical (1 ∷ 2 ∷ [])) ++ (1 ∷ 3 ∷ [])) ≡ none
decode-corrupt_example =
    decode-corrupt digest digest_u32 7 12 critical (1 ∷ 2 ∷ []) (1 ∷ 3 ∷ []) (omega arith) refl
      (λ e. absurd (omega arith))
