-- ===== src/Reliable/Channel/Chunking.antt =====
-- The split of a payload in channel.rs, and that the receiver's assembly undoes it.
use native.Mathlib.Nat.{add-zero}
use b.Prelude.{
  ◌↔◌, ℕ, suc, ◌+◌, ◌-◌, ◌≤◌, ◌<◌, ◌≡◌, ◌≢◌, refl, ◌∙◌, ap, ap₂, true, false, List, [], ◌∷◌, ◌++◌,
  none, some, length, ◌==◌, if◌then◌else◌, Bytes, All, arith, inl, inr, ◌⊎◌, append_assoc, chunks,
  joined, joined-chunks, chunks_bounded, append-nil, Bool-cases, length-append,
}
use b.Reliable.Frame.{Priority}
use b.Reliable.Channel.State.{ReceivedMessage}
use b.Reliable.Channel.Sender.{chunk_tag, tag_chunks, framed}
use b.Reliable.Channel.Receiver.{assemble}

tag_chunks_bounded :
    (k i last : ℕ) (cs : List Bytes)
    → All (λ c. length c ≤ k) cs
    → All (λ c. length c ≤ suc k) (tag_chunks i last cs)
unfolding tag_chunks
tag_chunks_bounded k i last [] h = tt
tag_chunks_bounded k i last (c ∷ cs) h =
    (omega (arith, h.0), tag_chunks_bounded k (i + 1) last cs h.1)

-- `framed` panics exactly when the limit is zero and there is a payload.
pub framed-eq-none :
    (max : ℕ) (payload : Bytes) → (framed max payload ≡ none) ↔ ((max ≡ 0) × (payload ≢ []))
unfolding framed
framed-eq-none max [] = ((λ h. ground arith), λ h. absurd (h.1 refl))
framed-eq-none max (x ∷ xs) = ((λ h. (ground arith, λ e. cc)), λ h. ground arith)

-- A payload within the limit is one frame with tag 0; a longer one is split.
pub framed-cases :
    (max : ℕ) (payload : Bytes) (ps : List Bytes)
    → framed max payload ≡ some ps
    → ((ps ≡ (0x00 ∷ payload) ∷ []) × (length payload ≤ max))
      ⊎ ((ps ≡ tag_chunks 0 (length (chunks max payload) - 1) (chunks max payload))
          × (max < length payload)
          × (0 < max))
unfolding framed
framed-cases max payload ps e = ground arith

-- Each payload that `send` hands to `send_one` is at most one byte longer than the limit.
pub framed_bounded :
    (max : ℕ) (payload : Bytes) (ps : List Bytes)
    → framed max payload ≡ some ps
    → All (λ p. length p ≤ suc max) ps
framed_bounded max payload ps e = elim (framed-cases max payload ps e) [
  | inl (one, short) ↦ rw one (omega arith, tt)
  | inr (many, long, pos) ↦
      rw many (tag_chunks_bounded max 0 _ (chunks max payload) (chunks_bounded max payload pos))
]

-- Consecutive frames of one priority, from number `seq` on, as the receiver assembles them.
unfoldable pub assemble_run : Bytes → ℕ → Priority → List Bytes → Bytes × List ReceivedMessage
assemble_run asm seq pri [] = (asm, [])
assemble_run asm seq pri (p ∷ ps) =
    let (asm1, out) = assemble asm p seq pri in
    let (asm2, more) = assemble_run asm1 (suc seq) pri ps in (asm2, out ++ more)

-- the message that ends with the frame of this number
abbrev pub message : Bytes → ℕ → Priority → ReceivedMessage
message payload seq pri = record { payload = payload; seq = seq; priority = pri }

assemble_tagged :
    (asm c : Bytes) (seq i last : ℕ) (pri : Priority)
    → assemble asm (chunk_tag i last ∷ c) seq pri ≡ (
        if i == 0
        then (c, [])
        else if i == last
        then ([], message (asm ++ c) seq pri ∷ [])
        else (asm ++ c, []))
unfolding assemble chunk_tag
assemble_tagged asm c seq i last pri = elim (Bool-cases (i == 0)) [
  | inl first ↦ rw (first, chunk_tag) refl
  | inr later ↦ elim (Bool-cases (i == last)) [
    | inl end ↦ rw (later, end, chunk_tag) refl
    | inr inner ↦ rw (later, inner, chunk_tag) refl
  ]
]

-- From the second chunk on, the assembly collects the chunks and delivers at the last.
assemble_run-tag_chunks :
    (asm : Bytes) (seq i last : ℕ) (pri : Priority) (c : Bytes) (cs : List Bytes)
    → last ≡ i + length cs
    → 0 < i
    → assemble_run asm seq pri (tag_chunks i last (c ∷ cs))
      ≡ ([], message (asm ++ joined (c ∷ cs)) (seq + length cs) pri ∷ [])
unfolding assemble_run tag_chunks
assemble_run-tag_chunks asm seq i last pri c [] e pos =
    let n : (i == 0) ≡ false = ground arith in
    let l : (i == last) ≡ true = ground arith in
    rw (assemble_tagged asm c seq i last pri, n, l, append-nil c, add-zero seq)
assemble_run-tag_chunks asm seq i last pri c (d ∷ cs) e pos =
    let n : (i == 0) ≡ false = ground arith in
    let l : (i == last) ≡ false = ground arith in
    rw (assemble_tagged asm c seq i last pri, n, l)
      (assemble_run-tag_chunks (asm ++ c) (suc seq) (i + 1) last pri d cs (omega arith)
          (omega arith)
        ∙ ap₂ (λ p k. ([], message p k pri ∷ [])) (append_assoc asm c (joined (d ∷ cs)))
            (omega arith))

assemble_run-first :
    (c : Bytes) (cs : List Bytes) (seq last : ℕ) (pri : Priority)
    → assemble_run [] seq pri (tag_chunks 0 last (c ∷ cs))
      ≡ assemble_run c (suc seq) pri (tag_chunks 1 last cs)
unfolding assemble_run tag_chunks
assemble_run-first c cs seq last pri = rw (assemble_tagged [] c seq 0 last pri) refl

assemble_run-standalone :
    (q : Bytes) (seq : ℕ) (pri : Priority)
    → assemble_run [] seq pri ((0x00 ∷ q) ∷ []) ≡ ([], message q seq pri ∷ [])
unfolding assemble_run assemble
assemble_run-standalone q seq pri = refl

length-tag_chunks : (i last : ℕ) (cs : List Bytes) → length (tag_chunks i last cs) ≡ length cs
unfolding tag_chunks
length-tag_chunks i last [] = refl
length-tag_chunks i last (c ∷ cs) = ap suc (length-tag_chunks (i + 1) last cs)

-- A list of at least two chunks is assembled to its concatenation.
assemble_run-split :
    (max seq : ℕ) (pri : Priority) (payload : Bytes) (cs : List Bytes)
    → joined cs ≡ payload
    → All (λ c. length c ≤ max) cs
    → max < length payload
    → assemble_run [] seq pri (tag_chunks 0 (length cs - 1) cs)
      ≡ ([], message payload (seq + length cs - 1) pri ∷ [])
assemble_run-split max seq pri payload [] j small l = absurd (omega (arith, ap length j))
assemble_run-split max seq pri payload (c ∷ []) j small l =
    absurd (omega (arith, ap length j, length-append c [], small.0))
assemble_run-split max seq pri payload (c ∷ d ∷ cs) j small l =
    assemble_run-first c (d ∷ cs) seq (length (c ∷ d ∷ cs) - 1) pri
    ∙ (assemble_run-tag_chunks c (suc seq) 1 (length (c ∷ d ∷ cs) - 1) pri d cs (omega arith)
          (omega arith)
        ∙ ap₂ (λ p k. ([], message p k pri ∷ [])) j (omega arith))

-- What `send` makes of a payload, the receiver assembles into one message with that payload, which
-- bears the number of the last frame; nothing stays in the assembly buffer.
pub assemble_run-framed :
    (max seq : ℕ) (pri : Priority) (payload : Bytes) (ps : List Bytes)
    → framed max payload ≡ some ps
    → assemble_run [] seq pri ps ≡ ([], message payload (seq + length ps - 1) pri ∷ [])
assemble_run-framed max seq pri payload ps e = elim (framed-cases max payload ps e) [
  | inl (one, short) ↦ rw one (
      assemble_run-standalone payload seq pri
      ∙ ap {B = Bytes × List ReceivedMessage} (λ k. ([], message payload k pri ∷ [])) (omega arith))
  | inr (many, long, pos) ↦ rw many (
      assemble_run-split max seq pri payload (chunks max payload) (joined-chunks max payload)
        (chunks_bounded max payload pos) long
      ∙ ap {B = Bytes × List ReceivedMessage} (λ k. ([], message payload k pri ∷ []))
          (omega
            (arith, length-tag_chunks 0 (length (chunks max payload) - 1) (chunks max payload))))
]
