-- ===== src/Reliable/Sessions/Bridge.antt =====
-- `backend_to_browser` of crates/b3-reliable/src/bridge.rs: the loop over the events that its
-- `select!` takes, with the clock's value at each message.
use b.Prelude.{ℕ, ◌+◌, ◌%◌, List, [], ◌∷◌, ◌++◌, Option, none, some, Bytes, u64_mod}
use b.Reliable.Frame.{Priority}
use b.Reliable.Multi.State.{Multi, Output, tick, keepalive_all}
use b.Reliable.Multi.State as Transport

-- `OutboundMessage`
pub record OutboundMessage : Type 0 where
  pub payload : Bytes
  pub priority : Priority

-- `BridgeCounters`
pub record Counters : Type 0 where
  pub bridge_recvs : ℕ
  pub bridge_sends : ℕ

pub data Event : Type 0 where
  tick_due : Event
  keepalive_due : Event
  received : (ℕ → ℕ) → OutboundMessage → Event
  closed : Event

-- How the loop stands: waiting for events, left by `break`, or stopped by a panic of `send`.
pub data Status : Type 0 where
  waiting : Status
  finished : Status
  panicked : Status

pub record Bridge : Type 0 where
  pub multi : Multi
  pub counters : Option Counters
  pub msg_count : ℕ
  pub status : Status

abbrev pub count_recv : Option Counters → Option Counters
count_recv none = none
count_recv (some c) = some (record c { bridge_recvs = (c.bridge_recvs + 1) % u64_mod })

abbrev pub count_send : Option Counters → Option Counters
count_send none = none
count_send (some c) = some (record c { bridge_sends = (c.bridge_sends + 1) % u64_mod })

unfoldable pub start : Multi → Option Counters → Bridge
start multi counters = record {
  multi = multi;
  counters = counters;
  msg_count = 0;
  status = Status.waiting;
}

module _ (hash : Bytes → ℕ) where
  -- the arm of a received message
  unfoldable pub forward : Bridge → (ℕ → ℕ) → OutboundMessage → Bridge × List Output
  forward b clock m =
      let counted = record b {
        msg_count = (b.msg_count + 1) % u64_mod;
        counters = count_recv b.counters;
      } in
      elim (Transport.send hash b.multi clock m.payload m.priority) [
        | none ↦ (record counted { status = Status.panicked }, [])
        | some (multi, out) ↦
            (record counted { multi = multi; counters = count_send counted.counters }, out)
      ]

  unfoldable pub step : Bridge → Event → Bridge × List Output
  step b Event.tick_due = let (multi, out) = tick b.multi in (record b { multi = multi }, out)
  step b Event.keepalive_due = (b, keepalive_all b.multi)
  step b (Event.received clock m) = forward b clock m
  step b Event.closed = (record b { status = Status.finished }, [])

  -- The loop, until it is left or the events end.
  unfoldable pub backend_to_browser : Bridge → List Event → Bridge × List Output
  backend_to_browser b [] = (b, [])
  backend_to_browser b (e ∷ es) = elim b.status [
    | Status.waiting ↦
        (let (next, out) = step b e in
          let (last, rest) = backend_to_browser next es in (last, out ++ rest))
    | Status.finished ↦ (b, [])
    | Status.panicked ↦ (b, [])
  ]
