-- ===== src/Relay/Session.antt =====
-- `run_gpu_session` and `handle_session_frame`: an encrypted session with one browser around a second
-- reliable channel, and the worker's socket. A socket and a task are numbers. `connect` is the outcome of
-- a connection that is tried, a socket and its reader's task; `sent i` tells whether the send of the
-- `i`-th delivered message succeeds. Each arm of the loop sends on all frames of the outer channel.
use b.Prelude.{
  ℕ, ◌+◌, Bool, List, [], ◌∷◌, ◌++◌, Option, none, some, ◌>>=◌, map, if◌then◌else◌, Bytes, is_utf8,
}
use b.Reliable.Frame.{critical}
use b.Reliable.Channel.State.{Channel, ReceivedMessage}
use b.Reliable.Channel.Receiver as Receiver
use b.Reliable.Channel.Sender as Sender
use b.Reliable.Encrypted.Channel.{Crates, EncryptedChannel, is_ready}
use b.Reliable.Encrypted.Channel as Encrypted
use b.Relay.Routing.{Message, text, binary}

pub record GpuSession : Type 0 where
  pub enc : EncryptedChannel
  pub outer_rc : Channel
  pub gpu_writer : Option ℕ
  pub gpu_reader : Option ℕ

pub record Effects : Type 0 where
  pub to_browser : List Bytes
  pub to_gpu : List (ℕ × Message)
  pub aborted : List ℕ

abbrev pub no_effects : Effects
no_effects = record { to_browser = []; to_gpu = []; aborted = [] }

abbrev pub taken : Option ℕ → List ℕ
taken none = []
taken (some task) = task ∷ []

abbrev pub connected : GpuSession → ℕ × ℕ → GpuSession
connected s (writer, reader) = record s { gpu_writer = some writer; gpu_reader = some reader }

-- A payload that is UTF-8 goes as a text.
unfoldable pub msg_out : Bytes → Message
msg_out payload = if is_utf8 payload then text payload else binary payload

-- A delivered message: without a socket it is dropped, and a failed send clears the socket.
unfoldable pub forward_one : Bool → GpuSession → Bytes → GpuSession × Effects
forward_one success s payload = elim s.gpu_writer [
  | none ↦ (s, no_effects)
  | some w ↦ if success then (s, record no_effects { to_gpu = (w, msg_out payload) ∷ [] }) else (
    record s { gpu_writer = none; gpu_reader = none },
    record no_effects { aborted = taken s.gpu_reader },
  )
]

abbrev pub both : Effects → Effects → Effects
both e f = record {
  to_browser = e.to_browser ++ f.to_browser;
  to_gpu = e.to_gpu ++ f.to_gpu;
  aborted = e.aborted ++ f.aborted;
}

unfoldable pub forward_all :
    (sent : ℕ → Bool) (i : ℕ) → GpuSession → List Bytes → GpuSession × Effects
forward_all sent i s [] = (s, no_effects)
forward_all sent i s (m ∷ ms) =
    let (s1, e) = forward_one (sent i) s m in
    let (s2, f) = forward_all sent (i + 1) s1 ms in (s2, both e f)

module _ {Value : Type 0} (x : Crates Value) where
  -- The payloads through the outer channel: its frames, and what it delivers. A send to the worker leaves
  -- the channel alone, so all are received before any is sent on.
  unfoldable pub receive_all :
      Channel → (ℕ → ℕ) → List ReceivedMessage → Channel × List Bytes × List Bytes
  receive_all c clock [] = (c, [], [])
  receive_all c clock (m ∷ ms) =
      let (c1, frames, out) = Receiver.receive x.hash c clock m.payload in
      let (c2, more, rest) = receive_all c1 clock ms in
      (c2, frames ++ more, map (λ r. r.payload) out ++ rest)

  -- `none` is a panic of `send`.
  unfoldable pub send_all :
      EncryptedChannel → (ℕ → ℕ) → List Bytes → Option (EncryptedChannel × List Bytes)
  send_all enc clock [] = some (enc, [])
  send_all enc clock (f ∷ fs) =
      Encrypted.send x enc clock f critical
      >>= (λ r. send_all r.0 clock fs >>= (λ rest. some (rest.0, r.1 ++ rest.1)))

  unfoldable pub flush : GpuSession → Effects → (ℕ → ℕ) → List Bytes → Option (GpuSession × Effects)
  flush s e clock frames =
      send_all s.enc clock frames
      >>= (λ r. some (record s { enc = r.0 }, record e { to_browser = e.to_browser ++ r.1 }))

  -- The path of a session that is not ready, with the worker connected.
  unfoldable pub shake : GpuSession → (ℕ → ℕ) → Bytes → GpuSession × Effects
  shake s clock bytes =
      let (enc, wires, out) = Encrypted.receive x s.enc clock bytes in
      (record s { enc = enc }, record no_effects { to_browser = wires })

  -- The path of a session that is ready, with the worker connected.
  unfoldable pub relay : GpuSession → (ℕ → ℕ) → (ℕ → Bool) → Bytes → Option (GpuSession × Effects)
  relay s clock sent bytes =
      let (enc, wires, msgs) = Encrypted.receive x s.enc clock bytes in
      let (outer, frames, out) = receive_all s.outer_rc clock msgs in
      let (s1, e) = forward_all sent 0 (record s { enc = enc; outer_rc = outer }) out in
      flush s1 (record e { to_browser = wires }) clock frames

  abbrev pub also_aborted : List ℕ → GpuSession × Effects → Option (GpuSession × Effects)
  also_aborted tasks (s, e) = some (s, record e { aborted = tasks ++ e.aborted })

  unfoldable pub handle_session_frame :
      GpuSession
      → (ℕ → ℕ)
      → (connect : Option (ℕ × ℕ)) → (sent : ℕ → Bool) → Bytes
      → Option (GpuSession × Effects)
  handle_session_frame s clock connect sent bytes =
      if is_ready s.enc
      then elim s.gpu_writer [
        | some w ↦ relay s clock sent bytes
        | none ↦ elim connect [
          | none ↦ some (s, no_effects)
          | some c ↦ relay (connected s c) clock sent bytes >>= also_aborted (taken s.gpu_reader)
        ]
      ]
      else elim s.gpu_writer [
        | some w ↦ some (shake s clock bytes)
        | none ↦ elim connect [
          | none ↦ some (s, no_effects)
          | some c ↦ some (shake (connected s c) clock bytes)
        ]
      ]

  -- The arm for what the worker sends.
  unfoldable pub handle_gpu : GpuSession → (ℕ → ℕ) → Bytes → Option (GpuSession × Effects)
  handle_gpu s clock bytes =
      if is_ready s.enc
      then (Sender.send x.hash s.outer_rc clock bytes critical
          >>= (λ r. flush (record s { outer_rc = r.0 }) no_effects clock r.1))
      else some (s, no_effects)

  -- The arm of the timer.
  unfoldable pub handle_tick : GpuSession → (ℕ → ℕ) → Option (GpuSession × Effects)
  handle_tick s clock =
      if is_ready s.enc
      then (let (enc, wires) = Encrypted.tick x s.enc in
          let (outer, frames) = Receiver.tick s.outer_rc in
          flush (record s { enc = enc; outer_rc = outer })
            (record no_effects { to_browser = wires }) clock frames)
      else some (s, no_effects)
