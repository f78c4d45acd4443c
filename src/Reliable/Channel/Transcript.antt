-- ===== src/Reliable/Channel/Transcript.antt =====
-- What a run of `send` calls of channel.rs transmits: the frames, their numbers and their payloads.
use b.Prelude.{
  ℕ, suc, ◌+◌, ◌-◌, ◌<◌, ◌≡◌, refl, sym, ◌∙◌, ap, List, [], ◌∷◌, ◌++◌, Option, none, some, map,
  length, Bytes, u32_mod, arith, length-append, length-map, subst, some_inj,
}
use b.Reliable.Frame.{Priority}
use b.Reliable.Channel.State.{Config, Channel, ReceivedMessage}
use b.Reliable.Channel.Sender.{send}
use b.Reliable.Channel.Critical.{IsOrdered}
use b.Reliable.Channel.Chunking.{message}
use b.Reliable.Channel.Framing.{
  send_all, process, at_priority, Carries, process-append, Carries-append, Carries-length,
  send-Framing,
}

-- A run of `send` transmits frames that carry its messages.
pub record Transcript (hash : Bytes → ℕ) (seq : ℕ) (ms : List (Bytes × Priority))
    (sent : List Bytes) : Type 0 where
  pub frames : List (Bytes × Priority)
  pub out : List ReceivedMessage
  pub carries : Carries hash seq frames sent
  pub assembled : process [] seq frames ≡ ([], out)
  pub payloads : map (λ m. m.payload) out ≡ map (λ m. m.0) ms

send_all-cons :
    (hash : Bytes → ℕ) (c : Channel) (clocks : ℕ → ℕ → ℕ) (j : ℕ) (p : Bytes) (pri : Priority)
    (ms : List (Bytes × Priority)) (r : Channel × List Bytes)
    → send_all hash c clocks j ((p, pri) ∷ ms) ≡ some r
    → (r1 : Channel × List Bytes) × (r2 : Channel × List Bytes) × (send hash c (clocks j) p pri
        ≡ some r1)
      × (send_all hash r1.0 clocks (j + 1) ms ≡ some r2)
      × (r1.1 ++ r2.1 ≡ r.1)
unfolding send_all
send_all-cons hash c clocks j p pri ms r e = go (send hash c (clocks j) p pri) refl
  where
    again :
        (r1 : Channel × List Bytes) (o : Option (Channel × List Bytes))
        → send hash c (clocks j) p pri ≡ some r1
        → send_all hash r1.0 clocks (j + 1) ms ≡ o
        → (r1 : Channel × List Bytes) × (r2 : Channel × List Bytes) × (send hash c (clocks j) p pri
            ≡ some r1)
          × (send_all hash r1.0 clocks (j + 1) ms ≡ some r2)
          × (r1.1 ++ r2.1 ≡ r.1)
    again r1 none f g = let h : none ≡ some r = rw (f, g, send_all) at e in cc
    again r1 (some r2) f g =
        let h : some (r2.0, r1.1 ++ r2.1) ≡ some r = rw (f, g, send_all) at e in
        (r1, r2, f, g, ap (λ x. x.1) (some_inj h))

    go :
        (o : Option (Channel × List Bytes))
        → send hash c (clocks j) p pri ≡ o
        → (r1 : Channel × List Bytes) × (r2 : Channel × List Bytes) × (send hash c (clocks j) p pri
            ≡ some r1)
          × (send_all hash r1.0 clocks (j + 1) ms ≡ some r2)
          × (r1.1 ++ r2.1 ≡ r.1)
    go none f = let h : none ≡ some r = rw (f, send_all) at e in cc
    go (some r1) f = again r1 (send_all hash r1.0 clocks (j + 1) ms) f refl

Transcript-nil : (hash : Bytes → ℕ) (seq : ℕ) → Transcript hash seq [] []
unfolding process
Transcript-nil hash seq = record {
  frames = [];
  out = [];
  carries = tt;
  assembled = refl;
  payloads = refl;
}

Transcript-cons :
    (hash : Bytes → ℕ) (seq n : ℕ) (p : Bytes) (pri : Priority) (ps : List Bytes)
    (ms : List (Bytes × Priority)) (s1 s2 : List Bytes)
    → n ≡ seq + length ps
    → Carries hash seq (at_priority pri ps) s1
    → process [] seq (at_priority pri ps) ≡ ([], message p (seq + length ps - 1) pri ∷ [])
    → Transcript hash n ms s2
    → Transcript hash seq ((p, pri) ∷ ms) (s1 ++ s2)
Transcript-cons hash seq n p pri ps ms s1 s2 e k a w =
    let e' : n ≡ seq + length (at_priority pri ps) =
      omega (arith, length-map {B = Bytes × Priority} (λ q. (q, pri)) ps) in
    record {
      frames = at_priority pri ps ++ w.frames;
      out = message p (seq + length ps - 1) pri ∷ w.out;
      carries = Carries-append hash seq n (at_priority pri ps) w.frames s1 s2 e' k w.carries;
      assembled =
          process-append [] seq n (at_priority pri ps) w.frames e' ∙ rw (a, w.assembled) refl;
      payloads = ap (λ r. p ∷ r) w.payloads;
    }

-- The frames that a run of `send` transmits carry its messages: numbered in order, they are
-- assembled to the payloads of the messages, one after the other. The buffer is numbered before, no
-- `send` panics, and the sizes and numbers of the frames are below 2^32.
pub send_all-Transcript :
    (hash : Bytes → ℕ) (c : Channel) (clocks : ℕ → ℕ → ℕ) (j : ℕ) (ms : List (Bytes × Priority))
    (c' : Channel) (sent : List Bytes)
    → IsOrdered c
    → suc c.config.max_frame_payload < u32_mod
    → send_all hash c clocks j ms ≡ some (c', sent)
    → c.next_seq + length sent < u32_mod
    → Transcript hash c.next_seq ms sent
unfolding send_all
send_all-Transcript hash c clocks j [] c' sent v small e room =
    subst (Transcript hash c.next_seq []) (ap (λ r. r.1) (some_inj e))
      (Transcript-nil hash c.next_seq)
send_all-Transcript hash c clocks j ((p, pri) ∷ ms) c' sent v small e room =
    let (r1, r2, f, g, h) = send_all-cons hash c clocks j p pri ms (c', sent) e in
    let len : length r1.1 + length r2.1 ≡ length sent =
      sym (length-append r1.1 r2.1) ∙ ap length h in
    let t = send-Framing hash c (clocks j) p pri r1.0 r1.1 v small f (omega arith) in
    let n : length r1.1 ≡ length t.ps =
      Carries-length hash c.next_seq (at_priority pri t.ps) r1.1 t.carries ∙ length-map _ t.ps in
    let w =
      send_all-Transcript hash r1.0 clocks (j + 1) ms r2.0 r2.1 t.ordered
        (subst (λ (k : Config). suc k.max_frame_payload < u32_mod) (sym t.config) small) g
        (omega (arith, t.next)) in
    subst (Transcript hash c.next_seq ((p, pri) ∷ ms)) h (
      Transcript-cons hash c.next_seq r1.0.next_seq p pri t.ps ms r1.1 r2.1 t.next t.carries
        t.assembled w)
