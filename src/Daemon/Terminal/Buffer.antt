-- ===== src/Daemon/Terminal/Buffer.antt =====
-- What the pusher of web.rs holds and the store shows, against all the output that it received.
use b.Prelude.{
  ℕ, ◌+◌, ◌-◌, ◌%◌, ◌≤◌, ◌<◌, ◌≡◌, refl, sym, ◌∙◌, ap, subst, true, false, List, [], ◌∷◌, ◌++◌,
  none, some, length, is_empty, drop, ltb, Bytes, u64_mod, arith, append-nil, append_assoc,
  length-append, length-drop, drop-drop, drop-append, Bool-cases, inl, inr,
}
use b.Common.Limits.{max_buffer_bytes}
use b.Daemon.Terminal.{
  Store, update, Pusher, Recv, received, lagged, append, gather, cap, publish, push,
}

-- the newest bytes of the output, as many as the buffer holds
abbrev pub newest : Bytes → Bytes
newest out = drop (length out - max_buffer_bytes) out

-- The bytes that a round takes from the channel. Messages that were missed are not among them.
abbrev pub joined : List Recv → Bytes
joined [] = []
joined (received c ∷ cs) = c ++ joined cs
joined (lagged n ∷ cs) = []

abbrev pub taken : Recv → List Recv → Bytes
taken (received c) cs = c ++ joined cs
taken (lagged n) cs = []

-- The pusher has read `out`: it holds a part at the end of it, and has counted its bytes.
pub record HasRead (p : Pusher) (out : Bytes) : Type 0 where
  pub lost : ℕ
  pub holds : p.accumulated ≡ drop lost out
  pub inside : lost ≤ length out
  pub below : lost ≤ length out - max_buffer_bytes
  pub counted : p.write_offset ≡ length out

append-HasRead :
    (p : Pusher) (out bytes : Bytes)
    → HasRead p out
    → length (out ++ bytes) < u64_mod
    → HasRead (append p bytes) (out ++ bytes)
unfolding append
append-HasRead p out bytes h small = record {
  lost = h.lost;
  holds = ap (λ a. a ++ bytes) h.holds ∙ sym (drop-append h.lost out bytes h.inside);
  inside = omega (arith, h.inside, length-append out bytes);
  below = omega (arith, h.below, length-append out bytes);
  counted =
      ap (λ n. (n + length bytes) % u64_mod) h.counted
      ∙ omega (arith, small, length-append out bytes);
}

gather-HasRead :
    (p : Pusher) (out : Bytes) (cs : List Recv)
    → HasRead p out
    → length (out ++ joined cs) < u64_mod
    → HasRead (gather p cs) (out ++ joined cs)
unfolding gather
gather-HasRead p out [] h small = rw (append-nil out) h
gather-HasRead p out (lagged n ∷ cs) h small = rw (append-nil out) h
gather-HasRead p out (received c ∷ cs) h small =
    let e : (out ++ c) ++ joined cs ≡ out ++ (c ++ joined cs) = append_assoc out c (joined cs) in
    subst (HasRead (gather (append p c) cs)) e (
      gather-HasRead (append p c) (out ++ c) cs
        (append-HasRead p out c h (
          omega (
            arith,
            small,
            length-append out (c ++ joined cs),
            length-append c (joined cs),
            length-append out c,
          )))
        (omega (arith, small, ap length e)))

-- Between two rounds the pusher holds the newest bytes.
pub record Holds (p : Pusher) (out : Bytes) : Type 0 where
  pub holds : p.accumulated ≡ newest out
  pub counted : p.write_offset ≡ length out

Holds-HasRead : (p : Pusher) (out : Bytes) → Holds p out → HasRead p out
Holds-HasRead p out h = record {
  lost = length out - max_buffer_bytes;
  holds = h.holds;
  inside = omega arith;
  below = omega arith;
  counted = h.counted;
}

cap-newest :
    (lost : ℕ) (out : Bytes)
    → lost ≤ length out
    → lost ≤ length out - max_buffer_bytes
    → cap (drop lost out) ≡ newest out
unfolding cap
cap-newest lost out inside below =
    elim (Bool-cases (ltb max_buffer_bytes (length (drop lost out)))) [
      | inl over ↦
          rw (over, cap)
            (drop-drop (length (drop lost out) - max_buffer_bytes) lost out
              ∙ ap (λ n. drop n out) (omega (arith, length-drop lost out)))
      | inr room ↦ rw (room, cap) (ap (λ n. drop n out) (lost_all room))
    ]
  where
    lost_all :
        ltb max_buffer_bytes (length (drop lost out)) ≡ false → lost ≡ length out - max_buffer_bytes
    lost_all room = ground (arith, length-drop lost out)

-- The store shows the newest output, and its offset counts all of it; before any output it is empty.
abbrev pub Shows : Store → Bytes → Type 0
Shows none out = out ≡ []
Shows (some buf) out = (buf.terminal_data ≡ newest out) × (buf.write_offset ≡ length out)

pub length-empty : (xs : Bytes) → length xs ≡ 0 → xs ≡ []
length-empty [] h = refl
length-empty (x ∷ xs) h = absurd (omega (arith, h))

is_empty-length : (xs : Bytes) → is_empty xs ≡ true → length xs ≡ 0
is_empty-length [] h = refl
is_empty-length (x ∷ xs) h = absurd (cc h)

publish-Shows :
    (p : Pusher) (store : Store) (rows cols : ℕ) (before out : Bytes)
    → HasRead p out
    → Shows store before
    → length before ≤ length out
    → let r = publish p store rows cols in Holds r.0 out × Shows r.1 out
unfolding publish update
publish-Shows p store rows cols before out h shows grows =
    elim (Bool-cases (is_empty p.accumulated)) [
      | inl nothing ↦
          let zero_left : length (drop h.lost out) ≡ 0 =
            ap length (sym h.holds) ∙ is_empty-length p.accumulated nothing in
          let none_out : length out ≡ 0 =
            omega (arith, zero_left, length-drop h.lost out, h.inside, h.below) in
          let same : before ≡ out =
            length-empty before (omega (arith, grows, none_out))
            ∙ sym (length-empty out none_out) in
          let first : h.lost ≡ length out - max_buffer_bytes = omega (arith, none_out, h.inside) in
          rw (nothing, publish)
            (
              record { holds = h.holds ∙ ap (λ n. drop n out) first; counted = h.counted },
              subst (Shows store) same shows,
            )
      | inr more ↦
          let newer : cap p.accumulated ≡ newest out =
            ap cap h.holds ∙ cap-newest h.lost out h.inside h.below in
          rw (more, publish) (record { holds = newer; counted = h.counted }, (newer, h.counted))
    ]

-- A round of the pusher: it holds, and the store shows, the newest of all the output so far.
pub push-Shows :
    (p : Pusher) (store : Store) (first : Recv) (cs : List Recv) (rows cols : ℕ) (out : Bytes)
    → Holds p out
    → Shows store out
    → length (out ++ taken first cs) < u64_mod
    → let r = push p store first cs rows cols in
      Holds r.0 (out ++ taken first cs) × Shows r.1 (out ++ taken first cs)
unfolding push gather
push-Shows p store (lagged n) cs rows cols out h shows small = rw (append-nil out) (h, shows)
push-Shows p store (received c) cs rows cols out h shows small =
    publish-Shows (gather p (received c ∷ cs)) store rows cols out (out ++ (c ++ joined cs))
      (gather-HasRead p out (received c ∷ cs) (Holds-HasRead p out h) small) shows
      (omega (arith, length-append out (c ++ joined cs)))
