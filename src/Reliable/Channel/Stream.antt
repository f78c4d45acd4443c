-- ===== src/Reliable/Channel/Stream.antt =====
-- Deliveries of channel.rs against the stream that the peer numbers: frame `k` carries `stream k`.
-- Frames may be lost, repeated and reordered, and other messages may stand between them.
use b.Prelude.{
  ℕ, zero, suc, ◌≤◌, ◌<◌, ◌≡◌, refl, List, [], ◌∷◌, ◌++◌, some, length, leb, ◌==◌, Bytes, u32_mod,
  succ32, All, arith, inl, inr, append_assoc, append-nil, Bool-cases, Option-cases,
}
use b.Reliable.Frame.{Priority}
use b.Reliable.Channel.State.{ReceivedMessage, Channel, new}
use b.Reliable.Channel.Receiver.{
  or_insert, lookup, remove, assemble, process_chunk, deliver_next, accept_next, drain,
  receive_data, receive,
}

-- Consecutive calls of `receive`, and all that they deliver.
unfoldable pub arrive :
    (hash : Bytes → ℕ) → Channel → (ℕ → ℕ) → List Bytes → Channel × List ReceivedMessage
arrive hash c clock [] = (c, [])
arrive hash c clock (d ∷ ds) =
    let (c1, sent, out) = receive hash c clock d in
    let (c2, more) = arrive hash c1 clock ds in (c2, out ++ more)

module _ (stream : ℕ → Bytes × Priority) where
  -- The assembly buffer and the deliveries when frames 1 to n are processed in their order.
  unfoldable pub in_order : ℕ → Bytes × List ReceivedMessage
  in_order zero = ([], [])
  in_order (suc n) =
      let (asm, out) = in_order n in
      let (asm', new) = assemble asm (stream (suc n)).0 (suc n) (stream (suc n)).1 in
      (asm', out ++ new)

-- Of the frames of the stream, those up to `limit` are sent.
module _ (stream : ℕ → Bytes × Priority) (limit : ℕ) where
  -- An entry of the reorder buffer holds the frame of its key.
  abbrev pub Holds : ℕ × ReceivedMessage → Type 0
  Holds e =
      (0 < e.0)
      × (e.0 ≤ limit)
      × (e.1.seq ≡ e.0)
      × (e.1.payload ≡ (stream e.0).0)
      × (e.1.priority ≡ (stream e.0).1)

  -- `out` has been delivered, and it is what frames 1 to `last_contiguous` make.
  pub record Follows (c : Channel) (out : List ReceivedMessage) : Type 0 where
    pub done : in_order stream c.last_contiguous ≡ (c.chunk_assembly, out)
    pub held : All Holds c.reorder_buffer
    pub fits : c.last_contiguous ≤ limit
    pub small : limit < u32_mod

  pub lookup-Holds :
      (k : ℕ) (r : List (ℕ × ReceivedMessage)) (m : ReceivedMessage)
      → All Holds r
      → lookup k r ≡ some m
      → Holds (k, m)
  unfolding lookup
  lookup-Holds k [] m h e = ground arith
  lookup-Holds k ((j, x) ∷ r) m h e = elim (Bool-cases (j == k)) [
    | inl hit ↦ ground arith
    | inr miss ↦ lookup-Holds k r m h.1 (ground arith)
  ]

  pub remove-Holds : (k : ℕ) (r : List (ℕ × ReceivedMessage)) → All Holds r → All Holds (remove k r)
  unfolding remove
  remove-Holds k [] h = tt
  remove-Holds k ((j, x) ∷ r) h = ground (arith, remove-Holds k r h.1)

  -- Processing the next frame of the stream.
  pub advance :
      (c : Channel) (out : List ReceivedMessage) (k seq : ℕ) (payload : Bytes) (pri : Priority)
      → in_order stream k ≡ (c.chunk_assembly, out)
      → seq ≡ suc k
      → c.last_contiguous ≡ seq
      → seq ≤ limit
      → limit < u32_mod
      → All Holds c.reorder_buffer
      → payload ≡ (stream seq).0
      → pri ≡ (stream seq).1
      → Follows (process_chunk c payload seq pri).0 (out ++ (process_chunk c payload seq pri).1)
  unfolding process_chunk in_order
  advance c out k seq payload pri done e next inside small held ep eq = record {
    done = rw (next, ep, eq, e, in_order, done) refl;
    held = held;
    fits = rw next inside;
    small = small;
  }

  -- An entry that the loop finds is the next frame of the stream.
  pub found-next :
      {c : Channel} {out : List ReceivedMessage} (m : ReceivedMessage)
      → Follows c out
      → lookup (succ32 c.last_contiguous) c.reorder_buffer ≡ some m
      → (m.seq ≡ suc c.last_contiguous)
        × (m.seq ≤ limit)
        × (m.payload ≡ (stream m.seq).0)
        × (m.priority ≡ (stream m.seq).1)
  found-next {c} m v e =
      let h : Holds (succ32 c.last_contiguous, m) =
        lookup-Holds (succ32 c.last_contiguous) c.reorder_buffer m v.held e in
      (
        omega (arith, h.0, h.2, v.fits, v.small),
        omega (arith, h.1, h.2),
        cc (h.2, h.3),
        cc (h.2, h.4),
      )

  pub deliver_next-Follows :
      (c : Channel) (out : List ReceivedMessage) (m : ReceivedMessage)
      → Follows c out
      → lookup (succ32 c.last_contiguous) c.reorder_buffer ≡ some m
      → Follows (deliver_next c m).0 (out ++ (deliver_next c m).1)
  unfolding deliver_next
  deliver_next-Follows c out m v e =
      let (key, small, p, q) = found-next m v e in
      advance _ out c.last_contiguous m.seq m.payload m.priority v.done key refl small v.small
        (remove-Holds (succ32 c.last_contiguous) c.reorder_buffer v.held) p q

  drain-Follows :
      (fuel : ℕ) (c : Channel) (out : List ReceivedMessage)
      → Follows c out
      → Follows (drain fuel c).0 (out ++ (drain fuel c).1)
  unfolding drain
  drain-Follows zero c out v = rw (append-nil out) v
  drain-Follows (suc fuel) c out v =
      elim (Option-cases (lookup (succ32 c.last_contiguous) c.reorder_buffer)) [
        | inl gap ↦ rw (gap, drain, append-nil out) v
        | inr (m, found) ↦
            rw
              (
                found,
                drain,
                ← append_assoc out (deliver_next c m).1 (drain fuel (deliver_next c m).0).1,
              )
              (drain-Follows fuel (deliver_next c m).0 (out ++ (deliver_next c m).1)
                (deliver_next-Follows c out m v found))
      ]

  or_insert-Holds :
      (k : ℕ) (m : ReceivedMessage) (r : List (ℕ × ReceivedMessage))
      → Holds (k, m)
      → All Holds r
      → All Holds (or_insert k m r)
  unfolding or_insert
  or_insert-Holds k m r h held = ground arith

  pub accept_next-Follows :
      (c : Channel) (out : List ReceivedMessage) (seq : ℕ)
      → 0 < seq
      → seq ≤ limit
      → Follows c out
      → seq ≡ succ32 c.last_contiguous
      → let r = accept_next c seq (stream seq).1 (stream seq).0 in Follows r.0 (out ++ r.1)
  unfolding accept_next
  accept_next-Follows c out seq positive small v e =
      advance _ out c.last_contiguous seq _ _ v.done (omega (arith, v.fits, v.small)) refl small
        v.small v.held refl refl

  pub receive_data-Follows :
      (c : Channel) (out : List ReceivedMessage) (seq : ℕ)
      → 0 < seq
      → seq ≤ limit
      → Follows c out
      → let r = receive_data c seq (stream seq).1 (stream seq).0 in Follows r.0 (out ++ r.1)
  unfolding receive_data
  receive_data-Follows c out seq positive small v = elim (Bool-cases (leb seq c.last_contiguous)) [
    | inl old ↦
        rw (old, receive_data, append-nil out)
          (record { done = v.done; held = v.held; fits = v.fits; small = v.small })
    | inr fresh ↦ elim (Bool-cases (seq == succ32 c.last_contiguous)) [
      | inl next ↦
          rw
            (
              fresh,
              next,
              receive_data,
              ← append_assoc out (accept_next c seq (stream seq).1 (stream seq).0).1 _,
            )
            (drain-Follows
              (length (accept_next c seq (stream seq).1 (stream seq).0).0.reorder_buffer)
              (accept_next c seq (stream seq).1 (stream seq).0).0 _
              (accept_next-Follows c out seq positive small v (ground arith)))
      | inr ahead ↦
          rw (fresh, ahead, receive_data, append-nil out)
            (record {
              done = v.done;
              held =
                  or_insert-Holds seq _ c.reorder_buffer (positive, small, refl, refl, refl) v.held;
              fits = v.fits;
              small = v.small;
            })
    ]
  ]
