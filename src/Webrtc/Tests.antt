-- ===== src/Webrtc/Tests.antt =====
-- Tests of the data channel's messages: a JSON value is its text.
use Prim.Native.String.{String}
use b.Prelude.{
  ℕ, ◌≡◌, ◌≢◌, refl, List, [], ◌∷◌, length, replicate, Bytes, ◌⊎◌, inl, All, arith,
  length-replicate,
}
use b.Webrtc.Message.{binary, type_binary, err, invalid_chunk, encode, decode}
use b.Webrtc.Assembler.{new, assembled}
use b.Webrtc.Roundtrip.{encode-too_large}
use b.Webrtc.Arrivals.{contains, given, feed_all, feed_all-message}
use b.Prelude.{zero, suc, true, ◌++◌, ◌<◌, ◌≢◌}

abbrev to_vec : Bytes → Bytes
to_vec v = v

abbrev from_slice : Bytes → Bytes ⊎ String
from_slice d = inl d

unfoldable zeros : ℕ → Bytes
zeros n = replicate n 0

length-zeros : (n : ℕ) → length (zeros n) ≡ n
unfolding zeros
length-zeros n = length-replicate n 0

encode-too_large_example :
    (encode to_vec from_slice (binary (zeros 5000000)) ≢ [])
    × All
        (λ f. decode to_vec from_slice f ≡ err invalid_chunk)
        (encode to_vec from_slice (binary (zeros 5000000)))
encode-too_large_example =
    encode-too_large to_vec from_slice (zeros 5000000) (omega (arith, length-zeros 5000000))
      (omega (arith, length-zeros 5000000))

abbrev parts : List Bytes
parts = (1 ∷ 2 ∷ []) ∷ (3 ∷ []) ∷ []

every-part : (k : ℕ) → k < 2 → k ≢ 0 → contains k (1 ∷ 1 ∷ []) ≡ true
every-part zero lt ne = absurd (ne refl)
every-part (suc zero) lt ne = refl
every-part (suc (suc k)) lt ne = absurd (omega arith)

feed_all-message_example :
    (feed_all from_slice (new 2 type_binary) parts ((1 ∷ 1 ∷ []) ++ (0 ∷ []))).1
    ≡ given from_slice (assembled from_slice type_binary (1 ∷ 2 ∷ 3 ∷ []))
feed_all-message_example =
    feed_all-message from_slice parts type_binary (1 ∷ 1 ∷ []) 0 (omega arith) (omega arith)
      (omega arith, (omega arith, tt)) refl every-part
