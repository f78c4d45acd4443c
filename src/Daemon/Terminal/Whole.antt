-- ===== src/Daemon/Terminal/Whole.antt =====
-- The output of the PTY on a viewer's screen, through the pusher and the store of web.rs.
use b.Prelude.{
  ◌≤◌, ◌<◌, ◌≡◌, refl, sym, ◌∙◌, ap, subst, min, List, [], ◌∷◌, ◌++◌, length, Bytes, u64_mod, arith,
  append-nil, append_assoc, length-append,
}
use b.Common.Limits.{max_buffer_bytes}
use b.Daemon.Terminal.Buffer.{taken, Holds, Shows, push-Shows}
use b.Daemon.Terminal.Buffer.{length-empty}
use b.Daemon.Terminal.Follow.{
  Viewer, Event, wrote, looked, joined_in, World, fresh, output, Sees, Sees-offset, look, step, run,
  look-Sees, join-Sees,
}

module _ {Text : Type 0} (encode : Bytes → Text) (decode : Text → Bytes)
    (decode-encode : (bytes : Bytes) → decode (encode bytes) ≡ bytes) where
  -- What holds of the daemon and the viewer after some output.
  record Follows (w : World) (out : Bytes) : Type 0 where
    pub holding : Holds w.pusher out
    pub showing : Shows w.store out
    pub seeing : Sees w.viewer out

  Sees-append : (v : Viewer) (out more : Bytes) → Sees v out → Sees v (out ++ more)
  Sees-append v out more h = record {
    before = h.before;
    after = h.after ++ more;
    split =
        ap (λ a. h.before ++ a) (sym (append_assoc v.screen h.after more))
        ∙ sym (append_assoc h.before (v.screen ++ h.after) more)
        ∙ ap (λ a. a ++ more) h.split;
    at_offset = h.at_offset;
    enough = h.enough;
  }

  run-Follows :
      (w : World) (out : Bytes) (es : List Event)
      → Follows w out
      → length (out ++ output es) < u64_mod
      → Follows (run encode decode w es) (out ++ output es)
  unfolding run step output
  run-Follows w out [] f small = rw (append-nil out) f
  run-Follows w out (wrote first cs rows cols ∷ es) f small =
      let e : (out ++ taken first cs) ++ output es ≡ out ++ (taken first cs ++ output es) =
        append_assoc out (taken first cs) (output es) in
      let (held, shown) =
        push-Shows w.pusher w.store first cs rows cols out f.holding f.showing
          (omega (arith, small, ap length e, length-append (out ++ taken first cs) (output es))) in
      subst (Follows (run encode decode (step encode decode w (wrote first cs rows cols)) es)) e (
        run-Follows (step encode decode w (wrote first cs rows cols)) (out ++ taken first cs) es
          (record {
            holding = held;
            showing = shown;
            seeing = Sees-append w.viewer out (taken first cs) f.seeing;
          })
          (omega (arith, small, ap length e)))
  run-Follows w out (looked ∷ es) f small =
      run-Follows (step encode decode w looked) out es
        (record {
          holding = f.holding;
          showing = f.showing;
          seeing =
              (look-Sees encode decode decode-encode w.viewer w.store out f.seeing f.showing).0;
        })
        small
  run-Follows w out (joined_in ∷ es) f small =
      run-Follows (step encode decode w joined_in) out es
        (record {
          holding = f.holding;
          showing = f.showing;
          seeing = join-Sees encode decode decode-encode w.viewer w.store out f.seeing f.showing;
        })
        small

  fresh-Follows : Follows fresh []
  fresh-Follows = record {
    holding = record { holds = refl; counted = refl };
    showing = refl;
    seeing = record {
      before = [];
      after = [];
      split = refl;
      at_offset = refl;
      enough = omega arith;
    };
  }

  -- Over any rounds of the pusher, looks and new starts of a viewer, after one more look the screen is the
  -- end of all the output that the pusher has received, without a gap, and it has at least the newest 256 KiB
  -- of it. The output that the pusher missed because it lagged is no part of what it has received. What it
  -- received is shorter than 2^64 bytes, and base64 decodes what it encoded.
  pub run-output :
      (es : List Event)
      → length (output es) < u64_mod
      → let w = run encode decode fresh es in
        let v = look encode decode w.viewer w.store in
        (before : Bytes) × (before ++ v.screen ≡ output es)
        × (min (length (output es)) max_buffer_bytes ≤ length v.screen)
  run-output es small =
      let f = run-Follows fresh [] es fresh-Follows small in
      let w = run encode decode fresh es in
      let (s, end) =
        look-Sees encode decode decode-encode w.viewer w.store (output es) f.seeing f.showing in
      let v = look encode decode w.viewer w.store in
      let done : s.after ≡ [] =
        length-empty s.after (omega (arith, end, Sees-offset v (output es) s)) in
      (
        s.before,
        ap (λ a. s.before ++ a) (sym (ap (λ a. v.screen ++ a) done ∙ append-nil v.screen))
            ∙ s.split,
        omega (arith, s.enough, end),
      )
