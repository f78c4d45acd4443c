-- ===== src/Reliable/Channel/Buffer.antt =====
-- The send buffer of channel.rs: its numbering, what eviction may drop, what acknowledgement drops.
use native.Mathlib.Decide.{dec_lt}
use b.Prelude.{
  ℕ, suc, ◌<◌, ◌≡◌, refl, ◌∙◌, true, false, ◌&&◌, List, [], ◌∷◌, ◌++◌, length, filterb, ltb, leb,
  arith, inl, inr, Bool-cases,
}
use b.Reliable.Channel.State.{BufferedMessage}
use b.Reliable.Channel.Sender.{evictable, evict, drop_acked, resendable}

-- The messages are numbered without a gap, from `first` up to but not including `next`.
abbrev pub Numbered : ℕ → List BufferedMessage → ℕ → Type 0
Numbered first [] next = first ≡ next
Numbered first (m ∷ ms) next = (m.seq ≡ first) × Numbered (suc first) ms next

pub Numbered-snoc :
    (first next : ℕ) (ms : List BufferedMessage) (m : BufferedMessage)
    → Numbered first ms next
    → m.seq ≡ next
    → Numbered first (ms ++ (m ∷ [])) (suc next)
Numbered-snoc first next [] m h e = omega arith
Numbered-snoc first next (x ∷ ms) m h e = (h.0, Numbered-snoc (suc first) next ms m h.1 e)

-- Eviction takes messages off the front only.
pub evict-Numbered :
    (limit last_ack first next : ℕ) (ms : List BufferedMessage)
    → Numbered first ms next
    → (k : ℕ) × Numbered k (evict limit last_ack ms) next
unfolding evict
evict-Numbered limit last_ack first next [] h = (first, h)
evict-Numbered limit last_ack first next (m ∷ ms) h =
    elim (Bool-cases (ltb limit (length (m ∷ ms)) && evictable last_ack m)) [
      | inl out ↦ rw (out, evict) (evict-Numbered limit last_ack (suc first) next ms h.1)
      | inr kept ↦ rw (kept, evict) (first, h)
    ]

all_later :
    (ack first next : ℕ) (ms : List BufferedMessage)
    → ack < first
    → Numbered first ms next
    → filterb (λ m. ltb ack m.seq) ms ≡ ms
all_later ack first next [] lt h = refl
all_later ack first next (m ∷ ms) lt h =
    ground (arith, all_later ack (suc first) next ms (omega arith) h.1)

-- On a numbered buffer, dropping from the front as long as it is acknowledged drops exactly what
-- is acknowledged.
pub drop_acked-filterb :
    (ack first next : ℕ) (ms : List BufferedMessage)
    → Numbered first ms next
    → drop_acked ack ms ≡ filterb (λ m. ltb ack m.seq) ms
unfolding drop_acked
drop_acked-filterb ack first next [] h = refl
drop_acked-filterb ack first next (m ∷ ms) h = elim (dec_lt ack m.seq) [
  | yes later ↦ ground (arith, all_later ack (suc first) next ms (omega arith) h.1)
  | no past ↦ ground (arith, drop_acked-filterb ack (suc first) next ms h.1)
]

pub drop_acked-Numbered :
    (ack first next : ℕ) (ms : List BufferedMessage)
    → Numbered first ms next
    → (k : ℕ) × Numbered k (drop_acked ack ms) next
unfolding drop_acked
drop_acked-Numbered ack first next [] h = (first, h)
drop_acked-Numbered ack first next (m ∷ ms) h = elim (Bool-cases (leb m.seq ack)) [
  | inl out ↦ rw (out, drop_acked) (drop_acked-Numbered ack (suc first) next ms h.1)
  | inr kept ↦ rw (kept, drop_acked) (first, h)
]

-- Eviction keeps every critical message that is not acknowledged.
pub evict_keeps :
    (limit last_ack : ℕ) (ms : List BufferedMessage)
    → filterb (resendable last_ack) (evict limit last_ack ms) ≡ filterb (resendable last_ack) ms
unfolding evict
evict_keeps limit last_ack [] = refl
evict_keeps limit last_ack (m ∷ ms) =
    elim (Bool-cases (ltb limit (length (m ∷ ms)) && evictable last_ack m)) [
      | inl out ↦ rw (out, evict) (evict_keeps limit last_ack ms ∙ dropped out)
      | inr kept ↦ rw (kept, evict)
    ]
  where
    dropped :
        ltb limit (length (m ∷ ms)) && evictable last_ack m ≡ true
        → filterb (resendable last_ack) ms ≡ filterb (resendable last_ack) (m ∷ ms)
    dropped h = ground arith

-- The loop of `send_one` stops above the limit only at a critical message without its ACK.
evict_stops :
    (limit last_ack : ℕ) (ms : List BufferedMessage)
    → limit < length (evict limit last_ack ms)
    → (m : BufferedMessage) × (rest : List BufferedMessage) × (evict limit last_ack ms ≡ m ∷ rest)
      × (resendable last_ack m ≡ true)
unfolding evict
evict_stops limit last_ack [] h = absurd (omega arith)
evict_stops limit last_ack (m ∷ ms) h =
    elim (Bool-cases (ltb limit (length (m ∷ ms)) && evictable last_ack m)) [
      | inl out ↦ rw (out, evict) (evict_stops limit last_ack ms (rw (out, evict) at h))
      | inr kept ↦ rw (kept, evict) (m, ms, refl, stops kept (rw (kept, evict) at h))
    ]
  where
    stops :
        ltb limit (length (m ∷ ms)) && evictable last_ack m ≡ false
        → limit < length (m ∷ ms)
        → resendable last_ack m ≡ true
    stops k l = ground arith
