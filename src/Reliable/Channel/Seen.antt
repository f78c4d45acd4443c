-- ===== src/Reliable/Channel/Seen.antt =====
-- What the receiver of channel.rs has got, and that its loop closes every gap.
use native.Mathlib.Decide.{dec_lt}
use b.Prelude.{
  ℕ, zero, suc, ◌≤◌, ◌<◌, ◌≡◌, ◌≢◌, refl, ◌∙◌, true, false, List, [], ◌∷◌, ◌++◌, none, some, length,
  leb, ◌==◌, Bytes, succ32, arith, inl, inr, ◌⊎◌, Bool-cases, Option-cases,
}
use b.Reliable.Frame.{Priority}
use b.Reliable.Channel.State.{ReceivedMessage, Channel}
use b.Reliable.Channel.Receiver.{
  contains_key, or_insert, lookup, remove, process_chunk, deliver_next, accept_next, drain,
  receive_data,
}
use b.Reliable.Channel.Stream.{Follows, found-next, deliver_next-Follows, accept_next-Follows}

contains_key-remove :
    (k j : ℕ) (r : List (ℕ × ReceivedMessage))
    → k ≢ j
    → contains_key k r ≡ true
    → contains_key k (remove j r) ≡ true
unfolding contains_key remove
contains_key-remove k j [] ne h = h
contains_key-remove k j ((i, m) ∷ r) ne h = ground (arith, contains_key-remove k j r ne)

contains_key-or_insert :
    (k j : ℕ) (m : ReceivedMessage) (r : List (ℕ × ReceivedMessage))
    → (contains_key k r ≡ true) ⊎ (k ≡ j)
    → contains_key k (or_insert j m r) ≡ true
unfolding or_insert contains_key
contains_key-or_insert k j m r (inl h) = elim (Bool-cases (contains_key j r)) [
  | inl old ↦ rw (old, or_insert) h
  | inr fresh ↦ rw (fresh, or_insert, h) (ground arith)
]
contains_key-or_insert k j m r (inr e) = elim (Bool-cases (contains_key j r)) [
  | inl old ↦ rw (e, old, or_insert) old
  | inr fresh ↦ rw (e, fresh, or_insert) (ground arith)
]

lookup-or_insert_ne :
    (k j : ℕ) (m : ReceivedMessage) (r : List (ℕ × ReceivedMessage))
    → j ≢ k
    → lookup k (or_insert j m r) ≡ lookup k r
unfolding lookup or_insert
lookup-or_insert_ne k j m r ne = ground arith

pub lookup-contains_key :
    (k : ℕ) (r : List (ℕ × ReceivedMessage)) → lookup k r ≡ none → contains_key k r ≡ false
unfolding lookup contains_key
lookup-contains_key k [] h = refl
lookup-contains_key k ((j, m) ∷ r) h = ground (arith, lookup-contains_key k r)

length-remove :
    (k : ℕ) (r : List (ℕ × ReceivedMessage)) (m : ReceivedMessage)
    → lookup k r ≡ some m
    → suc (length (remove k r)) ≡ length r
unfolding lookup remove
length-remove k [] m h = ground arith
length-remove k ((j, x) ∷ r) m h = ground (arith, length-remove k r m)

-- Frame `k` has been accepted, and either counts as delivered or waits in the reorder buffer.
abbrev pub IsSeen : ℕ → Channel → Type 0
IsSeen k c = (k ≤ c.last_contiguous) ⊎ (contains_key k c.reorder_buffer ≡ true)

-- The frame that the channel waits for is not in its reorder buffer.
abbrev pub HasGap : Channel → Type 0
HasGap c = lookup (succ32 c.last_contiguous) c.reorder_buffer ≡ none

module _ (stream : ℕ → Bytes × Priority) (limit : ℕ) where
  accept_next-IsSeen :
      (k : ℕ) (c : Channel) (out : List ReceivedMessage) (seq : ℕ) (pri : Priority)
      (payload : Bytes)
      → 0 < seq
      → Follows stream limit c out
      → seq ≡ succ32 c.last_contiguous
      → IsSeen k c ⊎ (k ≡ seq)
      → IsSeen k (accept_next c seq pri payload).0
  unfolding accept_next process_chunk
  accept_next-IsSeen k c out seq pri payload pos v e (inl (inl old)) =
      inl (omega (arith, v.fits, v.small))
  accept_next-IsSeen k c out seq pri payload pos v e (inl (inr waits)) = inr waits
  accept_next-IsSeen k c out seq pri payload pos v e (inr here) = inl (omega arith)

  deliver_next-IsSeen :
      (k : ℕ) (c : Channel) (out : List ReceivedMessage) (m : ReceivedMessage)
      → Follows stream limit c out
      → lookup (succ32 c.last_contiguous) c.reorder_buffer ≡ some m
      → IsSeen k c
      → IsSeen k (deliver_next c m).0
  unfolding deliver_next process_chunk
  deliver_next-IsSeen k c out m v e (inl old) =
      inl (omega (arith, (found-next stream limit m v e).0))
  deliver_next-IsSeen k c out m v e (inr waits) = elim (dec_lt m.seq k) [
    | yes later ↦ inr (
        contains_key-remove k (succ32 c.last_contiguous) c.reorder_buffer
          (omega (arith, (found-next stream limit m v e).0, (found-next stream limit m v e).1))
          waits)
    | no past ↦ inl (omega arith)
  ]

  drain-IsSeen :
      (fuel k : ℕ) (c : Channel) (out : List ReceivedMessage)
      → Follows stream limit c out
      → IsSeen k c
      → IsSeen k (drain fuel c).0
  unfolding drain
  drain-IsSeen zero k c out v s = s
  drain-IsSeen (suc fuel) k c out v s =
      elim (Option-cases (lookup (succ32 c.last_contiguous) c.reorder_buffer)) [
        | inl gap ↦ rw (gap, drain) s
        | inr (m, found) ↦
            rw (found, drain)
              (drain-IsSeen fuel k (deliver_next c m).0 (out ++ (deliver_next c m).1)
                (deliver_next-Follows stream limit c out m v found)
                (deliver_next-IsSeen k c out m v found s))
      ]

length-deliver_next :
    (c : Channel) (m : ReceivedMessage)
    → lookup (succ32 c.last_contiguous) c.reorder_buffer ≡ some m
    → suc (length (deliver_next c m).0.reorder_buffer) ≡ length c.reorder_buffer
unfolding deliver_next process_chunk
length-deliver_next c m e = length-remove (succ32 c.last_contiguous) c.reorder_buffer m e

lookup-short : (k : ℕ) (r : List (ℕ × ReceivedMessage)) → length r ≤ 0 → lookup k r ≡ none
unfolding lookup
lookup-short k [] h = refl
lookup-short k (e ∷ r) h = absurd (omega arith)

-- With as many rounds as entries the loop ends because the next frame is missing.
drain-HasGap : (fuel : ℕ) (c : Channel) → length c.reorder_buffer ≤ fuel → HasGap (drain fuel c).0
unfolding drain
drain-HasGap zero c h = lookup-short (succ32 c.last_contiguous) c.reorder_buffer h
drain-HasGap (suc fuel) c h =
    elim (Option-cases (lookup (succ32 c.last_contiguous) c.reorder_buffer)) [
      | inl gap ↦ rw (gap, drain) gap
      | inr (m, found) ↦
          rw (found, drain)
            (drain-HasGap fuel (deliver_next c m).0 (omega (arith, length-deliver_next c m found)))
    ]

pub receive_data-HasGap :
    (c : Channel) (seq : ℕ) (pri : Priority) (payload : Bytes)
    → HasGap c
    → HasGap (receive_data c seq pri payload).0
unfolding receive_data
receive_data-HasGap c seq pri payload g = elim (Bool-cases (leb seq c.last_contiguous)) [
  | inl old ↦ rw (old, receive_data) g
  | inr fresh ↦ elim (Bool-cases (seq == succ32 c.last_contiguous)) [
    | inl next ↦
        rw (fresh, next, receive_data)
          (drain-HasGap (length (accept_next c seq pri payload).0.reorder_buffer)
            (accept_next c seq pri payload).0 (omega arith))
    | inr ahead ↦
        rw (fresh, ahead, receive_data)
          (lookup-or_insert_ne (succ32 c.last_contiguous) seq _ c.reorder_buffer (ground arith) ∙ g)
  ]
]

module _ (stream : ℕ → Bytes × Priority) (limit : ℕ) where
  -- What was seen stays seen, and the frame that arrives is seen.
  pub receive_data-IsSeen :
      (k : ℕ) (c : Channel) (out : List ReceivedMessage) (seq : ℕ)
      → 0 < seq
      → seq ≤ limit
      → Follows stream limit c out
      → IsSeen k c ⊎ (k ≡ seq)
      → IsSeen k (receive_data c seq (stream seq).1 (stream seq).0).0
  unfolding receive_data
  receive_data-IsSeen k c out seq pos small v s = elim (Bool-cases (leb seq c.last_contiguous)) [
    | inl old ↦ rw (old, receive_data) (seen_old old s)
    | inr fresh ↦ elim (Bool-cases (seq == succ32 c.last_contiguous)) [
      | inl next ↦
          rw (fresh, next, receive_data)
            (drain-IsSeen stream limit
              (length (accept_next c seq (stream seq).1 (stream seq).0).0.reorder_buffer) k
              (accept_next c seq (stream seq).1 (stream seq).0).0 _
              (accept_next-Follows stream limit c out seq pos small v (ground arith))
              (accept_next-IsSeen stream limit k c out seq _ _ pos v (ground arith) s))
      | inr ahead ↦ rw (fresh, ahead, receive_data) (stored s)
    ]
  ]
    where
      seen_old : leb seq c.last_contiguous ≡ true → IsSeen k c ⊎ (k ≡ seq) → IsSeen k c
      seen_old old (inl t) = t
      seen_old old (inr e) = inl (ground arith)

      stored :
          IsSeen k c ⊎ (k ≡ seq)
          → (k ≤ c.last_contiguous)
            ⊎ (contains_key k (
                  or_insert seq
                    (record { payload = (stream seq).0; seq = seq; priority = (stream seq).1 })
                    c.reorder_buffer)
                ≡ true)
      stored (inl (inl t)) = inl t
      stored (inl (inr t)) = inr (contains_key-or_insert k seq _ c.reorder_buffer (inl t))
      stored (inr e) = inr (contains_key-or_insert k seq _ c.reorder_buffer (inr e))
