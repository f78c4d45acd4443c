-- ===== src/Reliable/Channel/Framing.antt =====
-- What one call of `send` in channel.rs transmits, and what its frames are assembled to.
use b.Prelude.{
  ℕ, suc, ◌+◌, ◌-◌, ◌%◌, ◌≤◌, ◌<◌, ◌≡◌, refl, sym, ◌∙◌, ap, List, [], ◌∷◌, ◌++◌, Option, none, some,
  map, length, Bytes, u32_mod, All, arith, append_assoc, length-map,
}
use b.Reliable.Frame.{Priority, encode_data}
use b.Reliable.Channel.State.{Channel, ReceivedMessage}
use b.Reliable.Channel.Sender.{send_one, send_each, send}
use b.Reliable.Channel.Receiver.{assemble}
use b.Reliable.Channel.Critical.{IsOrdered, length-send_each, send-Sent, send-send_each}
use b.Reliable.Channel.Resume.{wire, send_each-wire}
use b.Reliable.Channel.Chunking.{assemble_run, assemble_run-framed, framed_bounded, message}

-- Consecutive calls of `send`, and all the frames that they transmit; call `j` has its own clock.
unfoldable pub send_all :
    (Bytes → ℕ)
    → Channel
    → (ℕ → ℕ → ℕ)
    → ℕ
    → List (Bytes × Priority)
    → Option (Channel × List Bytes)
send_all hash c clocks j [] = some (c, [])
send_all hash c clocks j ((p, pri) ∷ ms) = elim (send hash c (clocks j) p pri) [
  | none ↦ none
  | some (c1, sent) ↦ elim (send_all hash c1 clocks (j + 1) ms) [
    | none ↦ none
    | some (c2, more) ↦ some (c2, sent ++ more)
  ]
]

-- Frames of any priority, from number `seq` on, as the receiver assembles them.
unfoldable pub process : Bytes → ℕ → List (Bytes × Priority) → Bytes × List ReceivedMessage
process asm seq [] = (asm, [])
process asm seq ((p, pri) ∷ fs) =
    let (asm1, out) = assemble asm p seq pri in
    let (asm2, more) = process asm1 (suc seq) fs in (asm2, out ++ more)

abbrev pub at_priority : Priority → List Bytes → List (Bytes × Priority)
at_priority pri ps = map (λ p. (p, pri)) ps

-- The byte strings are the encodings of these frames, numbered from `seq` on.
abbrev pub Carries : (Bytes → ℕ) → ℕ → List (Bytes × Priority) → List Bytes → Type 0
Carries hash seq [] [] = Unit
Carries hash seq [] (d ∷ ds) = ⊥
Carries hash seq (f ∷ fs) [] = ⊥
Carries hash seq ((p, pri) ∷ fs) (d ∷ ds) =
    ((ts : ℕ) × (ts < u32_mod) × (length p < u32_mod) × (d ≡ encode_data hash seq ts pri p))
    × Carries hash (suc seq) fs ds

pub process-append :
    (asm : Bytes) (seq n : ℕ) (xs ys : List (Bytes × Priority))
    → n ≡ seq + length xs
    → process asm seq (xs ++ ys)
      ≡ (let r = process asm seq xs in let t = process r.0 n ys in (t.0, r.1 ++ t.1))
unfolding process
process-append asm seq n [] ys e = let z : n ≡ seq = omega arith in rw z refl
process-append asm seq n ((p, pri) ∷ xs) ys e =
    let a = assemble asm p seq pri in
    rw
      (
        process-append a.0 (suc seq) n xs ys (omega arith),
        append_assoc a.1 (process a.0 (suc seq) xs).1 _,
      )
      refl

process-at_priority :
    (asm : Bytes) (seq : ℕ) (pri : Priority) (ps : List Bytes)
    → process asm seq (at_priority pri ps) ≡ assemble_run asm seq pri ps
unfolding process assemble_run
process-at_priority asm seq pri [] = refl
process-at_priority asm seq pri (p ∷ ps) =
    rw (process-at_priority (assemble asm p seq pri).0 (suc seq) pri ps) refl

pub Carries-append :
    (hash : Bytes → ℕ) (seq n : ℕ) (xs ys : List (Bytes × Priority)) (s t : List Bytes)
    → n ≡ seq + length xs
    → Carries hash seq xs s
    → Carries hash n ys t
    → Carries hash seq (xs ++ ys) (s ++ t)
Carries-append hash seq n [] ys [] t e h k = let z : n ≡ seq = omega arith in rw z at k
Carries-append hash seq n [] ys (d ∷ s) t e h k = absurd h
Carries-append hash seq n (x ∷ xs) ys [] t e h k = absurd h
Carries-append hash seq n ((p, pri) ∷ xs) ys (d ∷ s) t e h k =
    (h.0, Carries-append hash (suc seq) n xs ys s t (omega arith) h.1 k)

pub Carries-length :
    (hash : Bytes → ℕ) (seq : ℕ) (fs : List (Bytes × Priority)) (s : List Bytes)
    → Carries hash seq fs s
    → length s ≡ length fs
Carries-length hash seq [] [] h = refl
Carries-length hash seq [] (d ∷ s) h = absurd h
Carries-length hash seq (f ∷ fs) [] h = absurd h
Carries-length hash seq ((p, pri) ∷ fs) (d ∷ s) h = ap suc (Carries-length hash (suc seq) fs s h.1)

Carries-wire :
    (hash : Bytes → ℕ) (clock : ℕ → ℕ) (pri : Priority) (seq i max : ℕ) (ps : List Bytes)
    → suc max < u32_mod
    → All (λ p. length p ≤ suc max) ps
    → Carries hash seq (at_priority pri ps) (wire hash clock pri seq i ps)
Carries-wire hash clock pri seq i max [] small h = tt
Carries-wire hash clock pri seq i max (p ∷ ps) small h = (
  (clock i % u32_mod, omega arith, omega (arith, h.0), refl),
  Carries-wire hash clock pri (suc seq) (i + 1) max ps small h.1,
)

config-send_each :
    (hash : Bytes → ℕ) (c : Channel) (clock : ℕ → ℕ) (i : ℕ) (ps : List (Bytes × Priority))
    → (send_each hash c clock i ps).0.config ≡ c.config
unfolding send_each send_one
config-send_each hash c clock i [] = refl
config-send_each hash c clock i ((p, pri) ∷ ps) =
    config-send_each hash (send_one hash c (clock i) p pri).0 clock (i + 1) ps

-- What the frames of one `send` are, and what the receiver makes of them.
pub record Framing (hash : Bytes → ℕ) (c : Channel) (p : Bytes) (pri : Priority) (c1 : Channel)
    (sent : List Bytes) : Type 0 where
  pub ps : List Bytes
  pub carries : Carries hash c.next_seq (at_priority pri ps) sent
  pub assembled :
      process [] c.next_seq (at_priority pri ps)
      ≡ ([], message p (c.next_seq + length ps - 1) pri ∷ [])
  pub ordered : IsOrdered c1
  pub next : c1.next_seq ≡ c.next_seq + length ps
  pub config : c1.config ≡ c.config

pub send-Framing :
    (hash : Bytes → ℕ) (c : Channel) (clock : ℕ → ℕ) (p : Bytes) (pri : Priority) (c1 : Channel)
    (sent : List Bytes)
    → IsOrdered c
    → suc c.config.max_frame_payload < u32_mod
    → send hash c clock p pri ≡ some (c1, sent)
    → c.next_seq + length sent < u32_mod
    → Framing hash c p pri c1 sent
send-Framing hash c clock p pri c1 sent v small e room =
    let (ps, f, h) = send-send_each hash c clock p pri (c1, sent) e in
    let s = send-Sent hash c clock p pri c1 sent v e room in
    let n : c.next_seq + length ps < u32_mod = omega (
      arith,
      room,
      ap (λ r. length r.1) h,
      length-send_each hash c clock 0 (at_priority pri ps),
      length-map {B = Bytes × Priority} (λ q. (q, pri)) ps,
    ) in
    let w : wire hash clock pri c.next_seq 0 ps ≡ sent =
      sym (send_each-wire hash c clock 0 c.next_seq pri ps refl n) ∙ ap (λ r. r.1) h in
    let k : Carries hash c.next_seq (at_priority pri ps) sent = rw w at (
      Carries-wire hash clock pri c.next_seq 0 c.config.max_frame_payload ps small
        (framed_bounded c.config.max_frame_payload p ps f)) in
    record {
      ps = ps;
      carries = k;
      assembled =
          process-at_priority [] c.next_seq pri ps
          ∙ assemble_run-framed c.config.max_frame_payload c.next_seq pri p ps f;
      ordered = s.ordered;
      next =
          s.next
          ∙ ap (λ m. c.next_seq + m)
              (Carries-length hash c.next_seq (at_priority pri ps) sent k ∙ length-map _ ps);
      config = sym (ap (λ r. r.0.config) h) ∙ config-send_each hash c clock 0 (at_priority pri ps);
    }
