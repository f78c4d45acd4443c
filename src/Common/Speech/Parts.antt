-- ===== src/Common/Speech/Parts.antt =====
-- What the parts are of which `stitch_wav_chunks` of tts.rs makes a file.
use b.Prelude.{
  ℕ, zero, suc, ◌+◌, ◌*◌, ◌/◌, ◌≤◌, ◌<◌, ◌≡◌, ◌≢◌, ◌⊎◌, refl, sym, ◌∙◌, ap, subst, false, List, [],
  ◌∷◌, ◌++◌, none, some, map, length, drop, ltb, leb, ◌==◌, ◌>>=◌, Bytes, arith, Bool-cases,
  Option-cases, inl, inr, some_inj, none-some,
}
use b.Common.Speech.Wav.{
  target_sample_rate, header_size, wav_sample_rate, joined, samples, resample_pcm, pcm_part,
  pcm_parts,
}

-- the numbers of `n` samples from `i` on
abbrev pub numbers : (i n : ℕ) → List ℕ
numbers i zero = []
numbers i (suc n) = i ∷ numbers (i + 1) n

module _ (sample : (pcm : Bytes) (src_rate dst_rate i : ℕ) → Bytes) where
  -- A part at the target rate, of samples at another: each of its samples is interpolated, and there are as
  -- many as the ratio of the rates says, rounded down. Less than one sample stays.
  abbrev pub IsResampled : Bytes → (rate : ℕ) → Bytes → Type 0
  IsResampled pcm rate p =
      ((length pcm < 2) × (p ≡ pcm))
      ⊎ ((2 ≤ length pcm)
          × (0 < rate)
          × (p
              ≡ joined (
                  map (λ i. sample pcm rate target_sample_rate i)
                    (numbers 0 (length pcm / 2 * target_sample_rate / rate)))))

  -- The part of a chunk: what stands behind its header, at the target rate.
  abbrev pub IsPart : Bytes → Bytes → Type 0
  IsPart chunk p =
      ((wav_sample_rate chunk ≡ target_sample_rate) × (p ≡ drop header_size chunk))
      ⊎ ((wav_sample_rate chunk ≢ target_sample_rate)
          × IsResampled (drop header_size chunk) (wav_sample_rate chunk) p)

  -- The parts of the chunks, in order: one of each chunk that has more than a header.
  pub data ArePartsOf : (chunks parts : List Bytes) → Type 0 where
    nil : ArePartsOf [] []
    skipped :
        {c : Bytes} {cs ps : List Bytes}
        → length c ≤ header_size
        → ArePartsOf cs ps
        → ArePartsOf (c ∷ cs) ps
    taken :
        {c p : Bytes} {cs ps : List Bytes}
        → header_size < length c
        → IsPart c p
        → ArePartsOf cs ps
        → ArePartsOf (c ∷ cs) (p ∷ ps)

  samples_lem :
      (pcm : Bytes) (src_rate dst_rate n i : ℕ)
      → samples sample pcm src_rate dst_rate n i
        ≡ joined (map (λ i. sample pcm src_rate dst_rate i) (numbers i n))
  unfolding samples
  samples_lem pcm src_rate dst_rate zero i = refl
  samples_lem pcm src_rate dst_rate (suc n) i =
      ap (λ r. sample pcm src_rate dst_rate i ++ r) (samples_lem pcm src_rate dst_rate n (i + 1))

  resample_pcm-IsResampled :
      (pcm p : Bytes) (rate : ℕ)
      → rate ≢ target_sample_rate
      → resample_pcm sample pcm rate target_sample_rate ≡ some p
      → IsResampled pcm rate p
  unfolding resample_pcm
  resample_pcm-IsResampled pcm p rate other h =
      let foreign : (rate == target_sample_rate) ≡ false = ground (arith, other) in
      elim (Bool-cases (ltb (length pcm) 2)) [
        | inl short ↦
            let kept : resample_pcm sample pcm rate target_sample_rate ≡ some pcm =
              rw (foreign, short, resample_pcm) refl in
            inl (ground arith, sym (some_inj (sym kept ∙ h)))
        | inr long ↦ elim (Bool-cases (rate == 0)) [
          | inl z ↦
              let panic : resample_pcm sample pcm rate target_sample_rate ≡ none =
                rw (foreign, long, z, resample_pcm) refl in
              absurd (none-some (sym panic ∙ h))
          | inr pos ↦
              let n = length pcm / 2 * target_sample_rate / rate in
              let made : resample_pcm sample pcm rate target_sample_rate
                  ≡ some (samples sample pcm rate target_sample_rate n 0) =
                rw (foreign, long, pos, resample_pcm) refl in
              inr (
                ground arith,
                ground arith,
                sym (some_inj (sym made ∙ h)) ∙ samples_lem pcm rate target_sample_rate n 0,
              )
        ]
      ]

  pcm_part-IsPart : (chunk p : Bytes) → pcm_part sample chunk ≡ some p → IsPart chunk p
  unfolding pcm_part
  pcm_part-IsPart chunk p h = elim (Bool-cases (wav_sample_rate chunk == target_sample_rate)) [
    | inl same ↦
        let whole : pcm_part sample chunk ≡ some (drop header_size chunk) =
          rw (same, pcm_part) refl in
        inl (ground arith, sym (some_inj (sym whole ∙ h)))
    | inr other ↦
        let differs : wav_sample_rate chunk ≢ target_sample_rate = ground arith in
        let again : pcm_part sample chunk
            ≡ resample_pcm sample (drop header_size chunk) (wav_sample_rate chunk)
                target_sample_rate =
          rw (other, pcm_part) refl in
        inr (
          differs,
          resample_pcm-IsResampled (drop header_size chunk) p (wav_sample_rate chunk) differs
              (sym again ∙ h),
        )
  ]

  pub pcm_parts-ArePartsOf :
      (chunks parts : List Bytes) → pcm_parts sample chunks ≡ some parts → ArePartsOf chunks parts
  unfolding pcm_parts
  pcm_parts-ArePartsOf [] parts h = subst (ArePartsOf []) (some_inj h) nil
  pcm_parts-ArePartsOf (c ∷ cs) parts h = elim (Bool-cases (leb (length c) header_size)) [
    | inl short ↦
        let rest : pcm_parts sample (c ∷ cs) ≡ pcm_parts sample cs = rw (short, pcm_parts) refl in
        skipped (ground arith) (pcm_parts-ArePartsOf cs parts (sym rest ∙ h))
    | inr long ↦
        let both : pcm_parts sample (c ∷ cs)
            ≡ (pcm_part sample c >>= (λ p. pcm_parts sample cs >>= (λ ps. some (p ∷ ps)))) =
          rw (long, pcm_parts) refl in
        elim (Option-cases (pcm_part sample c)) [
          | inl panic ↦ absurd (
              none-some (
                sym (ap (λ o. o >>= (λ p. pcm_parts sample cs >>= (λ ps. some (p ∷ ps)))) panic)
                ∙ sym both
                ∙ h))
          | inr (p, one) ↦
              let more =
                sym (ap (λ o. o >>= (λ p. pcm_parts sample cs >>= (λ ps. some (p ∷ ps)))) one)
                ∙ sym both
                ∙ h in
              elim (Option-cases (pcm_parts sample cs)) [
                | inl panic ↦
                    absurd (none-some (sym (ap (λ o. o >>= (λ ps. some (p ∷ ps))) panic) ∙ more))
                | inr (ps, others) ↦
                    subst (ArePartsOf (c ∷ cs))
                      (some_inj (sym (ap (λ o. o >>= (λ ps. some (p ∷ ps))) others) ∙ more))
                      (taken (ground arith) (pcm_part-IsPart c p one)
                        (pcm_parts-ArePartsOf cs ps others))
              ]
        ]
  ]
