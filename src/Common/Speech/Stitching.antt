-- ===== src/Common/Speech/Stitching.antt =====
-- What the header of a stitched WAV file of tts.rs says, against the samples behind it.
use b.Prelude.{
  ℕ, ◌+◌, ◌-◌, ◌*◌, ◌%◌, ◌≤◌, ◌<◌, ◌≡◌, ◌≢◌, refl, sym, ◌∙◌, ap, subst, false, ◌||◌, List, [], ◌∷◌,
  ◌++◌, none, some, length, take, drop, is_empty, ltb, leb, ◌==◌, ◌>>=◌, Bytes, u32_mod, read_u32,
  arith, Bool-cases, Option-cases, inl, inr, some_inj, none-some, length-append, length-take,
  drop-append, drop-all, get_or-take,
}
use b.Common.Speech.Header.{
  length-write_u32, read_u32-write_u32, read_u32-write_u32_other, read_u32-append,
}
use b.Common.Speech.Parts.{ArePartsOf, pcm_parts-ArePartsOf}
use b.Common.Speech.Wav.{
  target_sample_rate, header_size, wav_sample_rate, write_u32, patch_wav_header, joined, pcm_parts,
  combine, finish, stitch_one, stitch_wav_chunks, resample_pcm,
}

-- A file that says what it holds: the target rate, and the sizes of its samples and of itself.
pub record Describes (wav samples : Bytes) : Type 0 where
  pub rate : wav_sample_rate wav ≡ target_sample_rate
  pub byte_rate : read_u32 wav 28 ≡ 2 * target_sample_rate
  pub data_size : read_u32 wav 40 ≡ length samples % u32_mod
  pub riff_size : read_u32 wav 4 ≡ (length wav - 8) % u32_mod
  pub body : drop header_size wav ≡ samples

-- the header of `combine`
abbrev stamped : Bytes → ℕ → Bytes
stamped h n =
    write_u32
      (write_u32 (write_u32 (write_u32 h 24 target_sample_rate) 28 (target_sample_rate * 2)) 4
        ((36 + n) % u32_mod))
      40 (n % u32_mod)

stamped-Describes :
    (h samples : Bytes)
    → length h ≡ header_size
    → Describes (stamped h (length samples) ++ samples) samples
unfolding wav_sample_rate
stamped-Describes h samples lh = record {
  rate =
      rw (long, wav_sample_rate)
        (read_u32-append w4 samples 24 (omega (arith, l4))
          ∙ read_u32-write_u32_other w3 40 (n % u32_mod) 24 (inr (omega arith))
          ∙ read_u32-write_u32_other w2 4 ((36 + n) % u32_mod) 24 (inl (omega arith))
          ∙ read_u32-write_u32_other w1 28 (target_sample_rate * 2) 24 (inr (omega arith))
          ∙ read_u32-write_u32 h 24 target_sample_rate (omega (arith, lh)) (omega arith));
  byte_rate =
      read_u32-append w4 samples 28 (omega (arith, l4))
      ∙ read_u32-write_u32_other w3 40 (n % u32_mod) 28 (inr (omega arith))
      ∙ read_u32-write_u32_other w2 4 ((36 + n) % u32_mod) 28 (inl (omega arith))
      ∙ read_u32-write_u32 w1 28 (target_sample_rate * 2) (omega (arith, l1)) (omega arith);
  data_size =
      read_u32-append w4 samples 40 (omega (arith, l4))
      ∙ read_u32-write_u32 w3 40 (n % u32_mod) (omega (arith, l3)) (omega arith);
  riff_size =
      read_u32-append w4 samples 4 (omega (arith, l4))
      ∙ read_u32-write_u32_other w3 40 (n % u32_mod) 4 (inr (omega arith))
      ∙ read_u32-write_u32 w2 4 ((36 + n) % u32_mod) (omega (arith, l2)) (omega arith)
      ∙ omega (arith, l4, length-append w4 samples);
  body =
      drop-append header_size w4 samples (omega (arith, l4))
      ∙ ap (λ d. d ++ samples) (drop-all header_size w4 (omega (arith, l4)));
}
  where
    n : ℕ
    n = length samples

    w1 : Bytes
    w1 = write_u32 h 24 target_sample_rate

    w2 : Bytes
    w2 = write_u32 w1 28 (target_sample_rate * 2)

    w3 : Bytes
    w3 = write_u32 w2 4 ((36 + n) % u32_mod)

    w4 : Bytes
    w4 = write_u32 w3 40 (n % u32_mod)

    l1 : length w1 ≡ 44
    l1 = length-write_u32 h 24 target_sample_rate ∙ lh

    l2 : length w2 ≡ 44
    l2 = length-write_u32 w1 28 (target_sample_rate * 2) ∙ l1

    l3 : length w3 ≡ 44
    l3 = length-write_u32 w2 4 ((36 + n) % u32_mod) ∙ l2

    l4 : length w4 ≡ 44
    l4 = length-write_u32 w3 40 (n % u32_mod) ∙ l3

    long : ltb (length (w4 ++ samples)) 28 ≡ false
    long = ground (arith, l4, length-append w4 samples)

combine-Describes :
    (first : Bytes) (parts : List Bytes)
    → header_size ≤ length first
    → Describes (combine first parts) (joined parts)
unfolding combine patch_wav_header
combine-Describes first parts long =
    stamped-Describes (take header_size first) (joined parts)
      (length-take header_size first ∙ omega arith)

finish-some :
    (first wav : Bytes) (parts : List Bytes)
    → finish first parts ≡ some wav
    → (header_size ≤ length first) × (combine first parts ≡ wav)
unfolding finish
finish-some first wav parts e =
    elim (Bool-cases (is_empty parts || ltb (length first) header_size)) [
      | inl bad ↦
          let refused : finish first parts ≡ none = rw (bad, finish) refl in
          absurd (none-some (sym refused ∙ e))
      | inr good ↦
          let made : finish first parts ≡ some (combine first parts) = rw (good, finish) refl in
          (ground arith, some_inj (sym made ∙ e))
    ]

wav_sample_rate-long : (w : Bytes) → 28 ≤ length w → wav_sample_rate w ≡ read_u32 w 24
unfolding wav_sample_rate
wav_sample_rate-long w h =
    let long : ltb (length w) 28 ≡ false = ground arith in rw (long, wav_sample_rate) refl

-- the rate that a single chunk's new header keeps
patch_wav_header-rate :
    (chunk pcm : Bytes)
    → header_size < length chunk
    → wav_sample_rate (patch_wav_header (take header_size chunk) (length pcm) ++ pcm)
      ≡ wav_sample_rate chunk
unfolding patch_wav_header
patch_wav_header-rate chunk pcm long =
    wav_sample_rate-long (w2 ++ pcm) (omega (arith, l2, length-append w2 pcm))
    ∙ read_u32-append w2 pcm 24 (omega (arith, l2))
    ∙ read_u32-write_u32_other w1 40 (length pcm % u32_mod) 24 (inr (omega arith))
    ∙ read_u32-write_u32_other h 4 ((36 + length pcm) % u32_mod) 24 (inl (omega arith))
    ∙ rw
        (
          get_or-take header_size 24 chunk 0 (omega arith),
          get_or-take header_size 25 chunk 0 (omega arith),
          get_or-take header_size 26 chunk 0 (omega arith),
          get_or-take header_size 27 chunk 0 (omega arith),
        )
        (sym (wav_sample_rate-long chunk (omega arith)))
  where
    h : Bytes
    h = take header_size chunk

    w1 : Bytes
    w1 = write_u32 h 4 ((36 + length pcm) % u32_mod)

    w2 : Bytes
    w2 = write_u32 w1 40 (length pcm % u32_mod)

    l2 : length w2 ≡ 44
    l2 =
        length-write_u32 w1 40 (length pcm % u32_mod)
        ∙ length-write_u32 h 4 ((36 + length pcm) % u32_mod)
        ∙ length-take header_size chunk
        ∙ omega arith

module _ (sample : (pcm : Bytes) (src_rate dst_rate i : ℕ) → Bytes) where
  -- Two or more chunks that are stitched without a panic: the file has a part of each chunk that has more
  -- than a header, in their order, and its header says the target rate and, modulo 2^32, the sizes of the
  -- samples and of the file. The part of a chunk at the target rate is what stands behind its header. That of
  -- another one is interpolated from it sample by sample, with as many samples as the ratio of the rates
  -- says, rounded down; less than one sample stays as it is.
  pub stitch_wav_chunks-Describes :
      (first second : Bytes) (chunks : List Bytes) (wav : Bytes)
      → stitch_wav_chunks sample (first ∷ second ∷ chunks) ≡ some (some wav)
      → (parts : List Bytes) × ArePartsOf sample (first ∷ second ∷ chunks) parts
        × Describes wav (joined parts)
  unfolding stitch_wav_chunks
  stitch_wav_chunks-Describes first second chunks wav e =
      elim (Option-cases (pcm_parts sample (first ∷ second ∷ chunks))) [
        | inl panic ↦
            let stuck : stitch_wav_chunks sample (first ∷ second ∷ chunks) ≡ none =
              ap (λ r. r >>= (λ parts. some (finish first parts))) panic in
            absurd (none-some (sym stuck ∙ e))
        | inr (parts, made) ↦
            let done : stitch_wav_chunks sample (first ∷ second ∷ chunks)
                ≡ some (finish first parts) =
              ap (λ r. r >>= (λ parts. some (finish first parts))) made in
            let (long, same) = finish-some first wav parts (some_inj (sym done ∙ e)) in
            (
              parts,
              pcm_parts-ArePartsOf sample (first ∷ second ∷ chunks) parts made,
              subst (λ w. Describes w (joined parts)) same (combine-Describes first parts long),
            )
      ]

  -- A single chunk of another rate keeps the rate in its header, though its samples are at the target
  -- rate; it has more than a header.
  pub stitch_wav_chunks-single :
      (chunk wav : Bytes)
      → header_size < length chunk
      → wav_sample_rate chunk ≢ target_sample_rate
      → stitch_wav_chunks sample (chunk ∷ []) ≡ some (some wav)
      → wav_sample_rate wav ≡ wav_sample_rate chunk
  unfolding stitch_wav_chunks stitch_one
  stitch_wav_chunks-single chunk wav long other e =
      let rate = wav_sample_rate chunk in
      let foreign : (rate == target_sample_rate) ≡ false = ground (arith, other) in
      let whole : leb (length chunk) header_size ≡ false = ground arith in
      let pcm_of = resample_pcm sample (drop header_size chunk) rate target_sample_rate in
      let one : stitch_one sample chunk
          ≡ pcm_of
            >>= (λ pcm. some (patch_wav_header (take header_size chunk) (length pcm) ++ pcm)) =
        rw (foreign, whole, stitch_one) refl in
      elim (Option-cases pcm_of) [
        | inl panic ↦
            let stuck : stitch_one sample chunk ≡ none =
              one
              ∙ ap
                  (λ r. r >>= (λ pcm.
                    some (patch_wav_header (take header_size chunk) (length pcm) ++ pcm)))
                  panic in
            absurd (none-some (sym (ap (λ r. r >>= (λ w. some (some w))) stuck) ∙ e))
        | inr (pcm, made) ↦
            let done : stitch_one sample chunk
                ≡ some (patch_wav_header (take header_size chunk) (length pcm) ++ pcm) =
              one
              ∙ ap
                  (λ r. r >>= (λ pcm.
                    some (patch_wav_header (take header_size chunk) (length pcm) ++ pcm)))
                  made in
            subst (λ w. wav_sample_rate w ≡ rate)
              (some_inj (some_inj (sym (ap (λ r. r >>= (λ w. some (some w))) done) ∙ e)))
              (patch_wav_header-rate chunk pcm long)
      ]
