-- ===== src/Daemon/Terminal/Follow.antt =====
-- A viewer that follows the terminal of web.rs against all the output that the pusher received.
use b.Prelude.{
  ℕ, ◌+◌, ◌-◌, ◌≤◌, ◌<◌, ◌≡◌, refl, sym, ◌∙◌, ap, subst, min, List, [], ◌∷◌, ◌++◌, none, some,
  length, take, drop, leb, Bytes, arith, append-nil, append_assoc, length-append, length-drop,
  drop-drop, take-append-drop, Bool-cases, inl, inr, leb→le,
}
use b.Common.Limits.{max_buffer_bytes}
use b.Daemon.Terminal.{
  SessionBuffer, Store, Pusher, Recv, started, push, Msg, delta, full, max_delta_cap, tail_text,
  message, delta_msg, init_frame,
}
use b.Daemon.Terminal.Buffer.{newest, taken, Shows}

-- what a viewer has drawn, and the offset of its next `delta_msg`
pub record Viewer : Type 0 where
  pub screen : Bytes
  pub offset : ℕ

abbrev pub blank : Viewer
blank = record { screen = []; offset = 0 }

pub data Event : Type 0 where
  wrote : (first : Recv) → (more : List Recv) → (rows cols : ℕ) → Event
  looked joined_in : Event

pub record World : Type 0 where
  pub pusher : Pusher
  pub store : Store
  pub viewer : Viewer

abbrev pub fresh : World
fresh = record { pusher = started; store = none; viewer = blank }

-- all the output of the PTY that the pusher receives
unfoldable pub output : List Event → Bytes
output [] = []
output (wrote first cs rows cols ∷ es) = taken first cs ++ output es
output (looked ∷ es) = output es
output (joined_in ∷ es) = output es

-- The screen is a part of the output that ends at the offset, and lacks nothing of what the store kept.
pub record Sees (v : Viewer) (out : Bytes) : Type 0 where
  pub before : Bytes
  pub after : Bytes
  pub split : before ++ (v.screen ++ after) ≡ out
  pub at_offset : length before + length v.screen ≡ v.offset
  pub enough : min v.offset max_buffer_bytes ≤ length v.screen

-- A screen that goes to the end of the output.
Sees-end :
    (screen before out : Bytes)
    → before ++ screen ≡ out
    → min (length out) max_buffer_bytes ≤ length screen
    → Sees (record { screen = screen; offset = length out }) out
Sees-end screen before out e h = record {
  before = before;
  after = [];
  split = ap (λ s. before ++ s) (append-nil screen) ∙ e;
  at_offset = sym (length-append before screen) ∙ ap length e;
  enough = h;
}

-- A screen that shows the buffer alone.
Sees-newest :
    (screen out : Bytes)
    → screen ≡ newest out
    → Sees (record { screen = screen; offset = length out }) out
Sees-newest screen out e =
    let lost = length out - max_buffer_bytes in
    Sees-end screen (take lost out) out (ap (λ a. take lost out ++ a) e ∙ take-append-drop lost out)
      (omega (arith, ap length e, length-drop lost out))

-- The offset counts the output up to what is still to come.
pub Sees-offset :
    (v : Viewer) (out : Bytes) (h : Sees v out) → v.offset + length h.after ≡ length out
Sees-offset v out h = omega (
  arith,
  ap length h.split,
  h.at_offset,
  length-append h.before (v.screen ++ h.after),
  length-append v.screen h.after,
)

drop-length_append : (xs ys : Bytes) → drop (length xs) (xs ++ ys) ≡ ys
drop-length_append [] ys = refl
drop-length_append (x ∷ xs) ys = drop-length_append xs ys

module _ {Text : Type 0} (encode : Bytes → Text) (decode : Text → Bytes) where
  -- A viewer appends a delta, and starts again with a full text.
  unfoldable pub draw : Viewer → Msg Text × ℕ → Viewer
  draw v (delta t, offset) = record { screen = v.screen ++ decode t; offset = offset }
  draw v (full t rows cols, offset) = record { screen = decode t; offset = offset }

  unfoldable pub look : Viewer → Store → Viewer
  look v store = elim (delta_msg encode store v.offset) [ none ↦ v | some m ↦ draw v m ]

  unfoldable pub join : Viewer → Store → Viewer
  join v store = elim (init_frame encode store) [
    | none ↦ v
    | some (t, rows, cols, offset) ↦ record { screen = decode t; offset = offset }
  ]

  unfoldable pub step : World → Event → World
  step w (wrote first cs rows cols) =
      let (p, store) = push w.pusher w.store first cs rows cols in
      record w { pusher = p; store = store }
  step w looked = record w { viewer = look w.viewer w.store }
  step w joined_in = record w { viewer = join w.viewer w.store }

  unfoldable pub run : World → List Event → World
  run w [] = w
  run w (e ∷ es) = run (step w e) es

  module _ (decode-encode : (bytes : Bytes) → decode (encode bytes) ≡ bytes) where
    -- The tail of the buffer behind an offset that the buffer still reaches.
    tail-after :
        (v : Viewer) (out data_ : Bytes) (m : ℕ)
        → (h : Sees v out) → data_ ≡ newest out
        → m ≡ length out - v.offset
        → m ≤ length data_
        → v.offset ≤ length out
        → drop (length data_ - m) data_ ≡ h.after
    tail-after v out data_ m h d e fits inside =
        let l : length data_ ≡ length out - (length out - max_buffer_bytes) =
          ap length d ∙ length-drop (length out - max_buffer_bytes) out in
        ap (drop (length data_ - m)) d
        ∙ drop-drop (length data_ - m) (length out - max_buffer_bytes) out
        ∙ ap (λ n. drop n out)
            (omega (arith, l, e, fits, inside, h.at_offset, length-append h.before v.screen))
        ∙ ap (drop (length (h.before ++ v.screen)))
            (sym (append_assoc h.before v.screen h.after ∙ h.split))
        ∙ drop-length_append (h.before ++ v.screen) h.after

    draw-delta :
        (v : Viewer) (buf : SessionBuffer) (out : Bytes) (m : ℕ)
        → (h : Sees v out) → drop (length buf.terminal_data - m) buf.terminal_data ≡ h.after
        → let w = draw v (delta (tail_text encode m buf.terminal_data), length out) in
          Sees w out × (w.offset ≡ length out)
    unfolding draw
    draw-delta v buf out m h tail =
        let new = decode (tail_text encode m buf.terminal_data) in
        let e : new ≡ h.after = decode-encode _ ∙ tail in
        let whole : h.before ++ (v.screen ++ new) ≡ out =
          ap (λ a. h.before ++ (v.screen ++ a)) e ∙ h.split in
        (
          Sees-end (v.screen ++ new) h.before out whole (
              omega (
                arith,
                h.enough,
                h.at_offset,
                ap length whole,
                length-append h.before (v.screen ++ new),
                length-append v.screen new,
              )),
          refl,
        )

    draw-full :
        (v : Viewer) (buf : SessionBuffer) (out : Bytes) (m : ℕ)
        → buf.terminal_data ≡ newest out
        → m ≡ length buf.terminal_data
        → let w =
            draw v (full (tail_text encode m buf.terminal_data) buf.rows buf.cols, length out) in
          Sees w out × (w.offset ≡ length out)
    unfolding draw
    draw-full v buf out m d e =
        let whole : length buf.terminal_data - m ≡ 0 = omega arith in
        (
          Sees-newest (decode (tail_text encode m buf.terminal_data)) out
              (decode-encode _ ∙ ap (λ n. drop n buf.terminal_data) whole ∙ d),
          refl,
        )

    message-Sees :
        (v : Viewer) (buf : SessionBuffer) (out : Bytes)
        → Sees v out
        → buf.terminal_data ≡ newest out
        → buf.write_offset ≡ length out
        → v.offset < length out
        → let w = draw v (message encode buf (length out - v.offset), length out) in
          Sees w out × (w.offset ≡ length out)
    unfolding message
    message-Sees v buf out h d o behind =
        let new = length out - v.offset in
        let l : length buf.terminal_data ≡ length out - (length out - max_buffer_bytes) =
          ap length d ∙ length-drop (length out - max_buffer_bytes) out in
        elim (Bool-cases (leb new (length buf.terminal_data))) [
          | inl near ↦
              let m : min new max_delta_cap ≡ new =
                omega (arith, l, leb→le new (length buf.terminal_data) near) in
              rw (near, message)
                (draw-delta v buf out (min new max_delta_cap) h (
                  tail-after v out buf.terminal_data (min new max_delta_cap) h d m
                    (omega (arith, m, leb→le new (length buf.terminal_data) near)) (omega arith)))
          | inr far ↦
              rw (far, message)
                (draw-full v buf out (min max_delta_cap (length buf.terminal_data)) d
                  (omega (arith, l)))
        ]

    -- A look brings the viewer to the end of the output.
    pub look-Sees :
        (v : Viewer) (store : Store) (out : Bytes)
        → Sees v out
        → Shows store out
        → Sees (look v store) out × ((look v store).offset ≡ length out)
    unfolding look delta_msg
    look-Sees v none out h shows = (h, omega (arith, Sees-offset v out h, ap length shows))
    look-Sees v (some buf) out h shows = elim (Bool-cases (leb buf.write_offset v.offset)) [
      | inl current ↦
          rw (current, look, delta_msg)
            (
              h,
              omega (arith, Sees-offset v out h, shows.1, leb→le buf.write_offset v.offset current),
            )
      | inr behind ↦
          rw (behind, look, delta_msg)
            (subst
              (λ n.
                let w = draw v (message encode buf (n - v.offset), n) in
                Sees w out × (w.offset ≡ length out))
              (sym shows.1) (message-Sees v buf out h shows.0 shows.1 (ground (arith, shows.1))))
    ]

    pub join-Sees :
        (v : Viewer) (store : Store) (out : Bytes)
        → Sees v out
        → Shows store out
        → Sees (join v store) out
    unfolding join init_frame
    join-Sees v none out h shows = h
    join-Sees v (some buf) out h shows =
        subst (λ n. Sees (record { screen = decode (encode buf.terminal_data); offset = n }) out)
          (sym shows.1)
          (Sees-newest (decode (encode buf.terminal_data)) out (decode-encode _ ∙ shows.0))
