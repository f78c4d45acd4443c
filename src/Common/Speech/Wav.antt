-- ===== src/Common/Speech/Wav.antt =====
-- The stitching of WAV files in tts.rs. `sample` is the interpolation of one output sample, in floating
-- point, as its two bytes: a function of the samples, the two rates and the number of the sample.
-- `none` as the result of `resample_pcm` is the panic of a division by a rate of 0.
use b.Prelude.{
  ℕ, zero, suc, ◌+◌, ◌*◌, ◌/◌, ◌%◌, ◌||◌, List, [], ◌∷◌, ◌++◌, Option, none, some, length, take,
  drop, set, is_empty, ltb, leb, ◌==◌, if◌then◌else◌, ◌>>=◌, Bytes, u32_mod, read_u32,
}

abbrev pub target_sample_rate : ℕ
target_sample_rate = 24000

abbrev pub header_size : ℕ
header_size = 44

unfoldable pub wav_sample_rate : Bytes → ℕ
wav_sample_rate chunk = if ltb (length chunk) 28 then target_sample_rate else read_u32 chunk 24

-- `copy_from_slice` of four bytes to index `i`
unfoldable pub write_u32 : Bytes → ℕ → ℕ → Bytes
write_u32 wav i n =
    set (set (set (set wav i (n % 256)) (i + 1) (n / 256 % 256)) (i + 2) (n / 65536 % 256)) (i + 3)
      (n / 16777216 % 256)

unfoldable pub patch_wav_header : Bytes → ℕ → Bytes
patch_wav_header wav pcm_len =
    write_u32 (write_u32 wav 4 ((36 + pcm_len) % u32_mod)) 40 (pcm_len % u32_mod)

-- `concat` of the parts
abbrev pub joined : List Bytes → Bytes
joined [] = []
joined (p ∷ ps) = p ++ joined ps

-- The header of the first chunk with the target rate, and all the samples.
unfoldable pub combine : Bytes → List Bytes → Bytes
combine first parts =
    patch_wav_header
      (write_u32 (write_u32 (take header_size first) 24 target_sample_rate) 28
        (target_sample_rate * 2))
      (length (joined parts))
    ++ joined parts

-- The end of `stitch_wav_chunks`; the inner `none` is its own.
unfoldable pub finish : Bytes → List Bytes → Option Bytes
finish first parts =
    if is_empty parts || ltb (length first) header_size then none else some (combine first parts)

module _ (sample : (pcm : Bytes) (src_rate dst_rate i : ℕ) → Bytes) where
  -- the loop from sample `i` on, for `n` samples
  unfoldable pub samples : (pcm : Bytes) (src_rate dst_rate n i : ℕ) → Bytes
  samples pcm src_rate dst_rate zero i = []
  samples pcm src_rate dst_rate (suc n) i =
      sample pcm src_rate dst_rate i ++ samples pcm src_rate dst_rate n (i + 1)

  unfoldable pub resample_pcm : Bytes → (src_rate dst_rate : ℕ) → Option Bytes
  resample_pcm pcm src_rate dst_rate =
      if src_rate == dst_rate || ltb (length pcm) 2
      then some pcm
      else if src_rate == 0
      then none
      else some (samples pcm src_rate dst_rate (length pcm / 2 * dst_rate / src_rate) 0)

  -- The branch for one chunk.
  unfoldable pub stitch_one : Bytes → Option Bytes
  stitch_one chunk =
      if wav_sample_rate chunk == target_sample_rate || leb (length chunk) header_size
      then some chunk
      else (do
        pcm ← resample_pcm (drop header_size chunk) (wav_sample_rate chunk) target_sample_rate
        some (patch_wav_header (take header_size chunk) (length pcm) ++ pcm))

  -- The samples of one chunk at the target rate.
  unfoldable pub pcm_part : Bytes → Option Bytes
  pcm_part chunk =
      if wav_sample_rate chunk == target_sample_rate
      then some (drop header_size chunk)
      else resample_pcm (drop header_size chunk) (wav_sample_rate chunk) target_sample_rate

  -- The loop that collects the parts; a chunk without samples is skipped.
  unfoldable pub pcm_parts : List Bytes → Option (List Bytes)
  pcm_parts [] = some []
  pcm_parts (chunk ∷ chunks) =
      if leb (length chunk) header_size
      then pcm_parts chunks
      else (do p ← pcm_part chunk; ps ← pcm_parts chunks; some (p ∷ ps))

  unfoldable pub stitch_wav_chunks : List Bytes → Option (Option Bytes)
  stitch_wav_chunks [] = some none
  stitch_wav_chunks (chunk ∷ []) = do wav ← stitch_one chunk; some (some wav)
  stitch_wav_chunks (first ∷ second ∷ chunks) = do
    parts ← pcm_parts (first ∷ second ∷ chunks)
    some (finish first parts)
