-- ===== src/Reliable/Channel/Carried.antt =====
-- Numbered frames of channel.rs on their way: what the byte strings of a sender decode to.
use native.Mathlib.Decide.{dec_lt}
use b.Prelude.{
  ℕ, zero, suc, ◌+◌, ◌≤◌, ◌<◌, ◌≡◌, refl, sym, ◌∙◌, ap, List, [], ◌∷◌, ◌++◌, Option, none, some,
  length, take, get_or, Bytes, u32_mod, arith, inl, inr, ◌⊎◌, append_assoc, append-nil,
  length-append, subst,
}
use b.Reliable.Frame.{
  Priority, critical, Frame, data_frame, ack_frame, resume_frame, encode_data, decode,
}
use b.Reliable.Frame.Roundtrip.{decode-encode_data}
use b.Reliable.Channel.Receiver.{assemble}
use b.Reliable.Channel.Stream.{in_order}
use b.Reliable.Channel.Delivery.{IsFrom}
use b.Reliable.Channel.Complete.{IsFrame}
use b.Reliable.Channel.Framing.{process, process-append, Carries}

-- the frame of number `k` when these are numbered from 1 on
abbrev pub frame_at : List (Bytes × Priority) → ℕ → Bytes × Priority
frame_at fs zero = ([], critical)
frame_at fs (suc k) = get_or fs k ([], critical)

abbrev pub IsIn : Bytes → List Bytes → Type 0
IsIn d [] = ⊥
IsIn d (e ∷ es) = (d ≡ e) ⊎ IsIn d es

-- A message that carries no frame: one that does not decode, or an ACK.
abbrev pub IsNoise : Option Frame → Type 0
IsNoise none = Unit
IsNoise (some (data_frame seq ts crc pri payload)) = ⊥
IsNoise (some (ack_frame seq win)) = Unit
IsNoise (some (resume_frame seq)) = ⊥

take-suc :
    (n : ℕ) (fs : List (Bytes × Priority))
    → suc n ≤ length fs
    → take (suc n) fs ≡ take n fs ++ (get_or fs n ([], critical) ∷ [])
take-suc n [] h = absurd (omega arith)
take-suc zero (f ∷ fs) h = refl
take-suc (suc n) (f ∷ fs) h = ap (λ r. f ∷ r) (take-suc n fs (omega arith))

length-take_le : (n : ℕ) (fs : List (Bytes × Priority)) → n ≤ length fs → length (take n fs) ≡ n
length-take_le zero fs h = refl
length-take_le (suc n) [] h = absurd (omega arith)
length-take_le (suc n) (f ∷ fs) h = ap suc (length-take_le n fs (omega arith))

process-snoc :
    (asm : Bytes) (seq : ℕ) (f : Bytes × Priority)
    → process asm seq (f ∷ []) ≡ assemble asm f.0 seq f.1
unfolding process
process-snoc asm seq f =
    ap (λ o. ((assemble asm f.0 seq f.1).0, o)) (append-nil (assemble asm f.0 seq f.1).1)

-- Processing the stream in order is assembling its frames one after the other.
process-nil : (asm : Bytes) (seq : ℕ) → process asm seq [] ≡ (asm, [])
unfolding process
process-nil asm seq = refl

pub in_order-process :
    (fs : List (Bytes × Priority)) (n : ℕ)
    → n ≤ length fs
    → in_order (frame_at fs) n ≡ process [] 1 (take n fs)
unfolding in_order
in_order-process fs zero h = sym (process-nil [] 1)
in_order-process fs (suc n) h =
    rw
      (
        in_order-process fs n (omega arith),
        take-suc n fs h,
        process-append [] 1 (suc n) (take n fs) (get_or fs n ([], critical) ∷ [])
            (omega (arith, length-take_le n fs (omega arith))),
        process-snoc (process [] 1 (take n fs)).0 (suc n) (get_or fs n ([], critical)),
      )
      refl

-- The frame after the first `length pre` ones.
frame_at-middle :
    (pre fs : List (Bytes × Priority)) (f : Bytes × Priority)
    → frame_at (pre ++ (f ∷ fs)) (suc (length pre)) ≡ f
frame_at-middle [] fs f = refl
frame_at-middle (x ∷ pre) fs f = frame_at-middle pre fs f

module _ (hash : Bytes → ℕ) (hash_u32 : (p : Bytes) → hash p < u32_mod) where
  -- An encoded frame decodes to its number and contents.
  IsFrame-IsFrom :
      (stream : ℕ → Bytes × Priority) (limit seq ts : ℕ) (pri : Priority) (p d : Bytes)
      → 0 < seq
      → seq ≤ limit
      → limit < u32_mod
      → ts < u32_mod
      → length p < u32_mod
      → stream seq ≡ (p, pri)
      → d ≡ encode_data hash seq ts pri p
      → IsFrom stream limit (decode hash d) × IsFrame seq (decode hash d)
  IsFrame-IsFrom stream limit seq ts pri p d pos le small ht hl at e =
      rw
        (
          e,
          ← append-nil (encode_data hash seq ts pri p),
          decode-encode_data hash hash_u32 seq ts pri p [] (omega arith) ht hl,
        )
        ((pos, le, ap (λ r. r.0) (sym at), ap (λ r. r.1) (sym at)), refl)

  pub carried-IsFrom :
      (pre fs : List (Bytes × Priority)) (seq : ℕ) (sent : List Bytes) (d : Bytes)
      → seq ≡ suc (length pre)
      → length (pre ++ fs) < u32_mod
      → Carries hash seq fs sent
      → IsIn d sent
      → IsFrom (frame_at (pre ++ fs)) (length (pre ++ fs)) (decode hash d)
  carried-IsFrom pre [] seq [] d e small k m = absurd m
  carried-IsFrom pre [] seq (s ∷ sent) d e small k m = absurd k
  carried-IsFrom pre (f ∷ fs) seq [] d e small k m = absurd k
  carried-IsFrom pre ((p, pri) ∷ fs) seq (s ∷ sent) d e small ((ts, ht, hl, es), k) (inl here) =
      (IsFrame-IsFrom (frame_at (pre ++ ((p, pri) ∷ fs))) (length (pre ++ ((p, pri) ∷ fs))) seq ts
        pri p d (omega arith) (omega (arith, length-append pre ((p, pri) ∷ fs))) small ht hl
        (ap (frame_at (pre ++ ((p, pri) ∷ fs))) e ∙ frame_at-middle pre fs (p, pri)) (here ∙ es)).0
  carried-IsFrom pre ((p, pri) ∷ fs) seq (s ∷ sent) d e small (h, k) (inr there) =
      let a : (pre ++ ((p, pri) ∷ [])) ++ fs ≡ pre ++ ((p, pri) ∷ fs) =
        append_assoc pre ((p, pri) ∷ []) fs in
      subst (λ all. IsFrom (frame_at all) (length all) (decode hash d)) a
        (carried-IsFrom (pre ++ ((p, pri) ∷ [])) fs (suc seq) sent d
          (omega (arith, length-append pre ((p, pri) ∷ []))) (rw a small) k there)

  -- Each number of the run is the number of a transmitted frame.
  pub carried-IsFrame :
      (fs : List (Bytes × Priority)) (seq k : ℕ) (sent : List Bytes)
      → seq ≤ k
      → k < seq + length fs
      → seq + length fs < suc u32_mod
      → Carries hash seq fs sent
      → (d : Bytes) × IsIn d sent × IsFrame k (decode hash d)
  carried-IsFrame [] seq k sent lo hi small h = absurd (omega arith)
  carried-IsFrame (f ∷ fs) seq k [] lo hi small h = absurd h
  carried-IsFrame ((p, pri) ∷ fs) seq k (s ∷ sent) lo hi small ((ts, ht, hl, es), h) =
      elim (dec_lt seq k) [
        | yes later ↦
            let (d, m, q) =
              carried-IsFrame fs (suc seq) k sent later (omega arith) (omega arith) h in
            (d, inr m, q)
        | no here ↦
            let e : seq ≡ k = omega arith in
            (
              s,
              inl refl,
              subst (λ n. IsFrame n (decode hash s)) e
                  (number seq ts pri p s (omega arith) ht hl es),
            )
      ]
    where
      number :
          (seq ts : ℕ) (pri : Priority) (p d : Bytes)
          → seq < u32_mod
          → ts < u32_mod
          → length p < u32_mod
          → d ≡ encode_data hash seq ts pri p
          → IsFrame seq (decode hash d)
      number seq ts pri p d hs ht hl e =
          rw
            (
              e,
              ← append-nil (encode_data hash seq ts pri p),
              decode-encode_data hash hash_u32 seq ts pri p [] hs ht hl,
            )
            refl
