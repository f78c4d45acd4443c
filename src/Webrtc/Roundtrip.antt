-- ===== src/Webrtc/Roundtrip.antt =====
-- What `ChannelMessage::encode` writes, `decode` reads; what is too long, it refuses.
use Prim.Native.String.{String}
use b.Prelude.{
  ℕ, ◌+◌, ◌*◌, ◌%◌, ◌≤◌, ◌<◌, ◌≡◌, refl, false, List, [], ◌∷◌, ◌++◌, ◌⊎◌, inl, inr, map, length,
  chunks, leb, Bytes, u32_mod, u32_to_le_bytes, All, arith, take-all, chunks_bounded, joined,
  joined-chunks, ◌≢◌, ap, ap₂, ◌∙◌,
}
use b.Reliable.Frame.{is_reliable}
use b.Webrtc.Message.{
  Message, json, binary, ping, pong, complete, chunk, invalid_json, invalid_chunk, Decoded, ok, err,
  encode_simple, single_frame, chunk_frame, chunk_frames, total_chunks, encode_payload,
  decode_chunk, encode, decode_body, decode, is_b3_reliable_frame, max_chunk_size,
  chunk_payload_size, max_chunks, type_json, type_binary, type_chunk,
}

-- The test of the data channel and that of the reliability layer accept the same byte strings.
pub is_b3_reliable_frame-eq-is_reliable : (d : Bytes) → is_b3_reliable_frame d ≡ is_reliable d
unfolding is_b3_reliable_frame is_reliable
is_b3_reliable_frame-eq-is_reliable d = ground arith

-- what `decode` should make of the chunks of a message, numbered from `seq` on
abbrev pub chunk_results :
    (Value : Type 0) → (type_tag seq total : ℕ) → List Bytes → List (Decoded Value)
chunk_results Value type_tag seq total [] = []
chunk_results Value type_tag seq total (c ∷ cs) =
    ok (chunk seq total type_tag c) ∷ chunk_results Value type_tag (seq + 1) total cs

-- what follows the frame header in a chunk
abbrev pub chunk_body : (type_tag seq total : ℕ) → Bytes → Bytes
chunk_body type_tag seq total c =
    u32_to_le_bytes (seq % u32_mod) ++ (u32_to_le_bytes (total % u32_mod) ++ (type_tag ∷ c))

chunk_frame-single :
    (type_tag seq total : ℕ) (c : Bytes)
    → chunk_frame type_tag seq total c ≡ single_frame type_chunk (chunk_body type_tag seq total c)
unfolding chunk_frame single_frame
chunk_frame-single type_tag seq total c =
    ap (λ n. type_chunk ∷ (u32_to_le_bytes (n % u32_mod) ++ chunk_body type_tag seq total c))
      (omega arith)

decode_chunk-small :
    {Value : Type 0} (type_tag seq total : ℕ) (c : Bytes)
    → seq < u32_mod
    → total ≤ max_chunks
    → decode_chunk Value (chunk_body type_tag seq total c) ≡ ok (chunk seq total type_tag c)
unfolding decode_chunk
decode_chunk-small type_tag seq total c hs ht = ground arith

decode_chunk-large :
    {Value : Type 0} (type_tag seq total : ℕ) (c : Bytes)
    → max_chunks < total
    → total < u32_mod
    → decode_chunk Value (chunk_body type_tag seq total c) ≡ err invalid_chunk
unfolding decode_chunk
decode_chunk-large type_tag seq total c big ht = ground arith

module _ {Value : Type 0} (to_vec : Value → Bytes) (from_slice : Bytes → Value ⊎ String) where
  decode-single_frame :
      (type_tag : ℕ) (payload : Bytes)
      → length payload < u32_mod
      → decode to_vec from_slice (single_frame type_tag payload)
        ≡ decode_body to_vec from_slice type_tag payload
  unfolding decode single_frame
  decode-single_frame type_tag payload h = ground (arith, take-all (length payload) payload)

  decode-encode_simple :
      (type_tag : ℕ)
      → decode to_vec from_slice (encode_simple type_tag)
        ≡ decode_body to_vec from_slice type_tag []
  unfolding decode encode_simple
  decode-encode_simple type_tag = ground arith

  -- The message needs no chunks.
  abbrev pub Fits : Message Value → Type 0
  Fits (json v) = 5 + length (to_vec v) ≤ max_chunk_size
  Fits (binary d) = 5 + length d ≤ max_chunk_size
  Fits ping = Unit
  Fits pong = Unit

  single-encode_payload :
      (type_tag : ℕ) (payload : Bytes)
      → 5 + length payload ≤ max_chunk_size
      → map (decode to_vec from_slice) (encode_payload type_tag payload)
        ≡ decode_body to_vec from_slice type_tag payload ∷ []
  unfolding encode_payload
  single-encode_payload type_tag payload h = ground (arith, decode-single_frame type_tag payload)

  -- A message that needs no chunks is one frame, which decodes to the message, if the JSON crate
  -- reads back what it writes.
  pub decode-encode :
      (m : Message Value)
      → ((v : Value) → from_slice (to_vec v) ≡ inl v)
      → Fits m
      → map (decode to_vec from_slice) (encode to_vec from_slice m) ≡ ok (complete m) ∷ []
  unfolding encode decode_body
  decode-encode (json v) law h =
      single-encode_payload type_json (to_vec v) h
      ∙ ap (λ r. r ∷ []) (body (from_slice (to_vec v)) (law v))
    where
      body :
          (r : Value ⊎ String)
          → r ≡ inl v
          → (elim r [ inl w ↦ ok (complete (json w)) | inr e ↦ err (invalid_json e) ])
            ≡ ok (complete (json v))
      body (inl w) e = cc
      body (inr s) e = cc
  decode-encode (binary d) law h = single-encode_payload type_binary d h
  decode-encode ping law h = ap (λ r. r ∷ []) (decode-encode_simple 0x03)
  decode-encode pong law h = ap (λ r. r ∷ []) (decode-encode_simple 0x04)

  decode_body-chunk :
      (payload : Bytes)
      → decode_body to_vec from_slice type_chunk payload ≡ decode_chunk Value payload
  unfolding decode_body
  decode_body-chunk payload = refl

  decode-chunk_frame :
      (type_tag seq total : ℕ) (c : Bytes)
      → total < u32_mod
      → length c ≤ chunk_payload_size
      → decode to_vec from_slice (chunk_frame type_tag seq total c)
        ≡ decode_chunk Value (chunk_body type_tag seq total c)
  decode-chunk_frame type_tag seq total c ht hl = rw (chunk_frame-single type_tag seq total c) (
      decode-single_frame type_chunk (chunk_body type_tag seq total c) (omega arith)
      ∙ decode_body-chunk (chunk_body type_tag seq total c))

  -- Each chunk of a message of at most 256 chunks decodes to its number, the number of chunks, the
  -- type of the message and the bytes of the chunk, if no chunk is longer than the sender makes them.
  pub decode-chunk_frames :
      (type_tag seq total : ℕ) (cs : List Bytes)
      → total ≤ max_chunks
      → seq + length cs ≤ total
      → All (λ c. length c ≤ chunk_payload_size) cs
      → map (decode to_vec from_slice) (chunk_frames type_tag seq total cs)
        ≡ chunk_results Value type_tag seq total cs
  unfolding chunk_frames
  decode-chunk_frames type_tag seq total [] ht hn hl = refl
  decode-chunk_frames type_tag seq total (c ∷ cs) ht hn hl =
      ap₂ ◌∷◌
        (decode-chunk_frame type_tag seq total c (omega arith) hl.0
          ∙ decode_chunk-small type_tag seq total c (omega arith) ht)
        (decode-chunk_frames type_tag (seq + 1) total cs ht (omega arith) hl.1)

  refused-chunk_frames :
      (type_tag seq total : ℕ) (cs : List Bytes)
      → max_chunks < total
      → total < u32_mod
      → All (λ c. length c ≤ chunk_payload_size) cs
      → All
          (λ f. decode to_vec from_slice f ≡ err invalid_chunk)
          (chunk_frames type_tag seq total cs)
  unfolding chunk_frames
  refused-chunk_frames type_tag seq total [] big ht hl = tt
  refused-chunk_frames type_tag seq total (c ∷ cs) big ht hl = (
    decode-chunk_frame type_tag seq total c ht hl.0
        ∙ decode_chunk-large type_tag seq total c big ht,
    refused-chunk_frames type_tag (seq + 1) total cs big ht hl.1,
  )

  -- A binary message of more than 256 chunks and fewer than 2^32 bytes is encoded all the same, into at least one frame, and
  -- the peer refuses every one of its frames.
  pub encode-too_large :
      (d : Bytes)
      → max_chunks * chunk_payload_size < length d
      → length d < u32_mod
      → (encode to_vec from_slice (binary d) ≢ [])
        × All
            (λ f. decode to_vec from_slice f ≡ err invalid_chunk)
            (encode to_vec from_slice (binary d))
  unfolding encode encode_payload chunk_frames
  encode-too_large d big small =
      let l : leb (1 + 4 + length d) max_chunk_size ≡ false = ground arith in
      rw (l, encode_payload, encode)
        (
          not_empty d (omega arith),
          refused-chunk_frames type_binary 0 (total_chunks d) (chunks chunk_payload_size d)
              (omega arith) (omega arith) (chunks_bounded chunk_payload_size d (omega arith)),
        )
    where
      no_frames : (cs : List Bytes) → chunk_frames type_binary 0 (total_chunks d) cs ≡ [] → cs ≡ []
      no_frames [] e = refl
      no_frames (c ∷ cs) e = cc

      not_empty :
          (x : Bytes)
          → 0 < length x
          → chunk_frames type_binary 0 (total_chunks d) (chunks chunk_payload_size x) ≢ []
      not_empty x pos e = absurd (
          omega (
            arith,
            ap length (joined-chunks chunk_payload_size x),
            ap (λ cs. length (joined cs)) (no_frames (chunks chunk_payload_size x) e),
          ))
