-- ===== src/Common/Speech/Tests.antt =====
-- Tests of tts.rs, with an interpolation that is silent.
use b.Prelude.{
  ℕ, ◌≡◌, refl, List, [], ◌∷◌, ◌++◌, some, replicate, Bytes, ok, arith, u32_to_le_bytes,
}
use b.Common.Speech.Base64.{base64_decode}
use b.Common.Speech.Decoding.{encode, base64_decode-encode}
use b.Common.Speech.Wav.{
  wav_sample_rate, patch_wav_header, joined, pcm_part, pcm_parts, combine, finish, samples,
  stitch_one, stitch_wav_chunks, resample_pcm,
}
use b.Common.Speech.Parts.{ArePartsOf}
use b.Common.Speech.Stitching.{Describes, stitch_wav_chunks-Describes}

base64_decode-encode_example :
    base64_decode (encode (104 ∷ 105 ∷ 255 ∷ 33 ∷ [])) ≡ ok (104 ∷ 105 ∷ 255 ∷ 33 ∷ [])
base64_decode-encode_example =
    base64_decode-encode (104 ∷ 105 ∷ 255 ∷ 33 ∷ [])
      (omega arith, (omega arith, (omega arith, (omega arith, tt))))

abbrev silent : (pcm : Bytes) (src_rate dst_rate i : ℕ) → Bytes
silent pcm src_rate dst_rate i = 0 ∷ 0 ∷ []

-- a file of this rate with these samples
abbrev file : ℕ → Bytes → Bytes
file rate pcm = replicate 24 1 ++ (u32_to_le_bytes rate ++ (replicate 16 2 ++ pcm))

abbrev first : Bytes
first = file 24000 (5 ∷ 6 ∷ [])

abbrev second : Bytes
second = file 48000 (7 ∷ 8 ∷ 9 ∷ 10 ∷ [])

abbrev stitched : Bytes
stitched = combine first ((5 ∷ 6 ∷ []) ∷ (0 ∷ 0 ∷ []) ∷ [])

stitched-both : stitch_wav_chunks silent (first ∷ second ∷ []) ≡ some (some stitched)
unfolding stitch_wav_chunks pcm_parts pcm_part wav_sample_rate resample_pcm samples finish
stitched-both = refl

stitch_wav_chunks-Describes_example :
    (parts : List Bytes) × ArePartsOf silent (first ∷ second ∷ []) parts
    × Describes stitched (joined parts)
stitch_wav_chunks-Describes_example =
    stitch_wav_chunks-Describes silent first second [] stitched stitched-both

abbrev alone : Bytes
alone = patch_wav_header (file 48000 []) 2 ++ (0 ∷ 0 ∷ [])

stitched-alone : stitch_wav_chunks silent (second ∷ []) ≡ some (some alone)
unfolding stitch_wav_chunks stitch_one wav_sample_rate resample_pcm samples
stitched-alone = refl
