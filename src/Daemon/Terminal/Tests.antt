-- ===== src/Daemon/Terminal/Tests.antt =====
-- Tests of the terminal of web.rs, with texts that are the bytes.
use b.Prelude.{◌≤◌, ◌≡◌, refl, min, List, [], ◌∷◌, ◌++◌, length, Bytes, arith}
use b.Common.Limits.{max_buffer_bytes}
use b.Daemon.Terminal.{received, lagged}
use b.Daemon.Terminal.Follow.{Event, wrote, looked, joined_in, fresh, output, look, run}
use b.Daemon.Terminal.Whole.{run-output}

abbrev id : Bytes → Bytes
id bytes = bytes

abbrev session : List Event
session =
    wrote (received (1 ∷ 2 ∷ [])) (received (3 ∷ []) ∷ lagged 2 ∷ []) 24 80
    ∷ looked
    ∷ wrote (lagged 5) [] 24 80
    ∷ joined_in
    ∷ wrote (received (4 ∷ [])) [] 24 80
    ∷ []

run-output_example :
    let w = run id id fresh session in
    let v = look id id w.viewer w.store in
    (before : Bytes) × (before ++ v.screen ≡ output session)
    × (min (length (output session)) max_buffer_bytes ≤ length v.screen)
unfolding output
run-output_example = run-output id id (λ bytes. refl) session (omega arith)
