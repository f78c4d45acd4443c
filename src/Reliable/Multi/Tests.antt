-- ===== src/Reliable/Multi/Tests.antt =====
-- Tests of multi.rs: a web socket and a data channel.
use Prim.Native.String.{String}
use text.Mathlib.TextEquality.{eq_iff}
use b.Prelude.{List, All, ◌≤◌, ℕ, ◌≡◌, ◌≢◌, refl, [], ◌∷◌, ◌++◌, some, map, Bytes, arith}
use b.Reliable.Frame.{critical}
use b.Reliable.Frame.Tests.{digest}
use b.Reliable.Channel.State.{default_config, Channel}
use b.Reliable.Channel.State
use b.Reliable.Channel.Sender
use b.Reliable.Channel.Receiver.{flush_unacked}
use b.Reliable.Multi.State.{Output, Sink, Multi, route, without, send, remove_transport}
use b.Reliable.Multi.Routing.{IsRouted, remove_transport-failover}

abbrev rtc : Sink
rtc = record { name = "rtc"; priority = 0; handle = 2 }

abbrev ws : Sink
ws = record { name = "ws"; priority = 1; handle = 1 }

abbrev both : Multi
both = record { sinks = rtc ∷ ws ∷ []; reliable = State.new default_config }

both-IsRouted : IsRouted both
both-IsRouted = record { sorted = ((omega arith, tt), (tt, tt)); unique = (refl, (refl, tt)) }

different : ◌≢◌ {A = String} "gpu" "ws"
different e = ground (arith, eq_iff "gpu" "ws")

abbrev clock : ℕ → ℕ
clock i = 5

abbrev started : Channel
started = State.new default_config

abbrev first : Channel × Bytes
first = Sender.send_one digest started 5 (0 ∷ 7 ∷ []) critical

abbrev after : Multi
after = record { sinks = rtc ∷ ws ∷ []; reliable = first.0 }

send-first : Sender.send digest started clock (7 ∷ []) critical ≡ some (first.0, first.1 ∷ [])
unfolding Sender.send Sender.send_each Sender.framed State.new
send-first = refl

send-both : send digest both clock (7 ∷ []) critical ≡ some (after, (2, first.1) ∷ [])
unfolding send Sender.send Sender.send_each Sender.framed State.new route
send-both = refl

remove_transport-failover_example :
    (◌≡◌ {A = List Output} ((2, first.1) ∷ []) (map (λ d. (rtc.handle, d)) (first.1 ∷ [])))
    × All (λ t. rtc.priority ≤ t.priority) both.sinks
    × ((remove_transport after "rtc").1
        ≡ map (λ d. (1, d)) (flush_unacked started ++ (first.1 ∷ [])))
    × All (λ t. ws.priority ≤ t.priority) (without "rtc" both.sinks)
unfolding State.new without
remove_transport-failover_example =
    remove_transport-failover digest both after clock (7 ∷ []) ((2, first.1) ∷ []) first.0
      (first.1 ∷ []) "rtc" rtc ws (ws ∷ []) [] both-IsRouted
      (record { first = 1; numbered = refl; ahead = omega arith }) send-first (omega arith)
      send-both refl refl
