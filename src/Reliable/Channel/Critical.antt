-- ===== src/Reliable/Channel/Critical.antt =====
-- Critical messages of channel.rs survive in the send buffer until they are acknowledged, and what
-- is sent again is exactly those.
use b.Prelude.{
  ℕ, suc, ◌+◌, ◌%◌, ◌<◌, ◌≡◌, refl, sym, ◌∙◌, ap, Bool, true, false, List, [], ◌∷◌, ◌++◌, Option,
  none, some, map, length, filterb, filterb-append, is_empty, ltb, lt→ltb, if◌then◌else◌, Bytes,
  u32_mod, succ32, arith, append_assoc, append-nil, length-map, subst, some_inj,
}
use mathlib.Core.List.{map-append}
use b.Reliable.Frame.{Priority, critical, best_effort, encode_data}
use b.Reliable.Channel.State.{BufferedMessage, Channel, is_critical}
use b.Reliable.Channel.Sender.{resendable, send_one, send_each, send, framed, encodings}
use b.Reliable.Channel.Receiver.{receive_ack, flush_unacked}
use b.Reliable.Channel.Buffer.{
  Numbered, Numbered-snoc, evict-Numbered, drop_acked-filterb, drop_acked-Numbered, evict_keeps,
}

-- The send buffer is numbered up to `next_seq`, which lies ahead of every ACK received.
pub record IsOrdered (c : Channel) : Type 0 where
  pub first : ℕ
  pub numbered : Numbered first c.send_buffer c.next_seq
  pub ahead : c.last_ack_received < c.next_seq

pub filterb_twice :
    (ack : ℕ) (ms : List BufferedMessage)
    → filterb (resendable ack) (filterb (λ m. ltb ack m.seq) ms) ≡ filterb (resendable ack) ms
filterb_twice ack [] = refl
filterb_twice ack (m ∷ ms) = ground (arith, filterb_twice ack ms)

-- What a run of `send_one` with one priority does to the channel.
pub record Sent (c : Channel) (pri : Priority) (c' : Channel) (sent : List Bytes) : Type 0 where
  pub ordered : IsOrdered c'
  pub next : c'.next_seq ≡ c.next_seq + length sent
  pub kept : flush_unacked c' ≡ flush_unacked c ++ (if is_critical pri then sent else [])

module _ (hash : Bytes → ℕ) where
  pub send_one-IsOrdered :
      (c : Channel) (now : ℕ) (p : Bytes) (pri : Priority)
      → suc c.next_seq < u32_mod
      → IsOrdered c
      → IsOrdered (send_one hash c now p pri).0
  unfolding send_one
  send_one-IsOrdered c now p pri small v =
      let step : (k : ℕ) × Numbered k (send_one hash c now p pri).0.send_buffer (suc c.next_seq) =
        evict-Numbered c.config.max_send_buffer c.last_ack_received v.first (suc c.next_seq) _
          (Numbered-snoc v.first c.next_seq c.send_buffer _ v.numbered refl) in
      let e : succ32 c.next_seq ≡ suc c.next_seq = omega arith in
      record { first = step.0; numbered = rw e step.1; ahead = omega (arith, v.ahead) }

  -- one frame: what is to be sent again grows by the frame exactly when it is critical
  flush_unacked-send_one :
      (c : Channel) (now : ℕ) (p : Bytes) (pri : Priority)
      → c.last_ack_received < c.next_seq
      → flush_unacked (send_one hash c now p pri).0
        ≡ flush_unacked c ++ (if is_critical pri then (send_one hash c now p pri).1 ∷ [] else [])
  unfolding flush_unacked send_one
  flush_unacked-send_one c now p pri ahead =
      ap encodings (
        evict_keeps c.config.max_send_buffer c.last_ack_received _
        ∙ filterb-append (resendable c.last_ack_received) c.send_buffer _)
      ∙ (map-append _ _ _ ∙ ap (λ r. flush_unacked c ++ r) (last pri))
    where
      last :
          (q : Priority)
          → encodings (
              filterb (resendable c.last_ack_received) (
                record {
                  seq = c.next_seq;
                  priority = q;
                  encoded = encode_data hash c.next_seq (now % u32_mod) q p;
                }
                ∷ []))
            ≡ (if is_critical q then encode_data hash c.next_seq (now % u32_mod) q p ∷ [] else [])
      last critical = ground arith
      last best_effort = ground arith

  pub length-send_each :
      (c : Channel) (clock : ℕ → ℕ) (i : ℕ) (ps : List (Bytes × Priority))
      → length (send_each hash c clock i ps).1 ≡ length ps
  unfolding send_each
  length-send_each c clock i [] = refl
  length-send_each c clock i ((p, pri) ∷ ps) =
      omega (arith, length-send_each (send_one hash c (clock i) p pri).0 clock (i + 1) ps)

  next_seq-send_one :
      (c : Channel) (now : ℕ) (p : Bytes) (pri : Priority)
      → (send_one hash c now p pri).0.next_seq ≡ succ32 c.next_seq
  unfolding send_one
  next_seq-send_one c now p pri = refl

  append-if :
      (b : Bool) (xs ys zs : List Bytes)
      → (xs ++ (if b then ys else [])) ++ (if b then zs else [])
        ≡ xs ++ (if b then ys ++ zs else [])
  append-if true xs ys zs = append_assoc xs ys zs
  append-if false xs ys zs = append-nil (xs ++ [])

  pub send_each-Sent :
      (c : Channel) (clock : ℕ → ℕ) (i : ℕ) (pri : Priority) (ps : List Bytes)
      → c.next_seq + length ps < u32_mod
      → IsOrdered c
      → let r = send_each hash c clock i (map (λ p. (p, pri)) ps) in Sent c pri r.0 r.1
  unfolding send_each
  send_each-Sent c clock i pri [] small v = record {
    ordered = v;
    next = omega arith;
    kept = sym (nothing pri);
  }
    where
      nothing :
          (q : Priority) → flush_unacked c ++ (if is_critical q then [] else []) ≡ flush_unacked c
      nothing critical = append-nil (flush_unacked c)
      nothing best_effort = append-nil (flush_unacked c)
  send_each-Sent c clock i pri (p ∷ ps) small v =
      let r = send_one hash c (clock i) p pri in
      let e : r.0.next_seq ≡ suc c.next_seq = omega (arith, next_seq-send_one c (clock i) p pri) in
      let w = send_one-IsOrdered c (clock i) p pri (omega arith) v in
      let rest = send_each-Sent r.0 clock (i + 1) pri ps (omega arith) w in
      record {
        ordered = rest.ordered;
        next = omega (arith, rest.next);
        kept =
            rest.kept
            ∙ (ap
                  (λ f.
                    f
                    ++ (if is_critical pri
                        then (send_each hash r.0 clock (i + 1) (map (λ p. (p, pri)) ps)).1
                        else []))
                  (flush_unacked-send_one c (clock i) p pri v.ahead)
                ∙ append-if (is_critical pri) (flush_unacked c) (r.1 ∷ []) _);
      }

  -- A call of `send` that does not panic is a run of `send_one` over the framed payload.
  pub send-send_each :
      (c : Channel) (clock : ℕ → ℕ) (payload : Bytes) (pri : Priority) (r : Channel × List Bytes)
      → send hash c clock payload pri ≡ some r
      → (ps : List Bytes) × (framed c.config.max_frame_payload payload ≡ some ps)
        × (send_each hash c clock 0 (map (λ p. (p, pri)) ps) ≡ r)
  unfolding send
  send-send_each c clock payload pri r e = go (framed c.config.max_frame_payload payload) refl
    where
      go :
          (o : Option (List Bytes))
          → framed c.config.max_frame_payload payload ≡ o
          → (ps : List Bytes) × (framed c.config.max_frame_payload payload ≡ some ps)
            × (send_each hash c clock 0 (map (λ p. (p, pri)) ps) ≡ r)
      go none f = let h : none ≡ some r = rw (f, send) at e in cc
      go (some ps) f =
          let h : some (send_each hash c clock 0 (map (λ p. (p, pri)) ps)) ≡ some r =
            rw (f, send) at e in
          (ps, f, some_inj h)

  -- The buffer is numbered up to the next number, this number lies above every ACK received, `send` does not
  -- panic, and the numbers stay below 2^32. Then `send` keeps the first two, adds each frame that it transmits,
  -- in order, to what a retransmission sends again if the message is critical, and nothing if it is best
  -- effort, however small the buffer limit, and uses one number for each frame.
  pub send-Sent :
      (c : Channel) (clock : ℕ → ℕ) (payload : Bytes) (pri : Priority) (c' : Channel)
      (sent : List Bytes)
      → IsOrdered c
      → send hash c clock payload pri ≡ some (c', sent)
      → c.next_seq + length sent < u32_mod
      → Sent c pri c' sent
  send-Sent c clock payload pri c' sent v e small =
      let (ps, f, h) = send-send_each c clock payload pri (c', sent) e in
      let n : length sent ≡ length ps =
        ap (λ r. length r.1) (sym h) ∙ (length-send_each c clock 0 _ ∙ length-map _ ps) in
      subst (λ r. Sent c pri r.0 r.1) h (send_each-Sent c clock 0 pri ps (omega arith) v)

-- A new ACK drops exactly the messages that it covers, sends nothing, and keeps the buffer numbered;
-- what is sent again afterwards is exactly what is critical and above it. The buffer is numbered
-- before, and the ACK is of a number that was used.
pub receive_ack-new :
    (c : Channel) (ack : ℕ)
    → IsOrdered c
    → c.last_ack_received < ack
    → ack < c.next_seq
    → IsOrdered (receive_ack c ack).0
      × ((receive_ack c ack).0.send_buffer ≡ filterb (λ m. ltb ack m.seq) c.send_buffer)
      × (flush_unacked (receive_ack c ack).0 ≡ encodings (filterb (resendable ack) c.send_buffer))
      × ((receive_ack c ack).1 ≡ [])
unfolding receive_ack flush_unacked
receive_ack-new c ack v newer below =
    rw (lt→ltb c.last_ack_received ack newer, receive_ack)
      (
        record {
          first = (drop_acked-Numbered ack v.first c.next_seq c.send_buffer v.numbered).0;
          numbered = (drop_acked-Numbered ack v.first c.next_seq c.send_buffer v.numbered).1;
          ahead = below;
        },
        drop_acked-filterb ack v.first c.next_seq c.send_buffer v.numbered,
        ap encodings (
            ap (filterb (resendable ack))
              (drop_acked-filterb ack v.first c.next_seq c.send_buffer v.numbered)
            ∙ filterb_twice ack c.send_buffer),
        refl,
      )

-- Three ACKs in a row that repeat the last one, with messages in the buffer and the counter at
-- zero: the first two send nothing, the third sends every critical message above the ACK once, in
-- order, and the counter is at zero again. The buffer stays as it is.
pub receive_ack_thrice :
    (c : Channel)
    → c.duplicate_ack_count ≡ 0
    → is_empty c.send_buffer ≡ false
    → let r1 = receive_ack c c.last_ack_received in
      let r2 = receive_ack r1.0 c.last_ack_received in
      let r3 = receive_ack r2.0 c.last_ack_received in
      (r1.1 ≡ []) × (r2.1 ≡ []) × (r3.1 ≡ flush_unacked c) × (r3.0 ≡ c)
unfolding receive_ack flush_unacked
receive_ack_thrice c zeroed busy = ground arith
