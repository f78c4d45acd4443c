-- ===== src/Reliable/Multi/State.antt =====
-- The structs and operations of crates/b3-reliable/src/multi.rs.
use Prim.Native.String.{String}
use text.Mathlib.Text.{◌==◌ as str_eq}
use b.Prelude.{
  ℕ, Bool, false, not, ◌||◌, List, [], ◌∷◌, ◌++◌, Option, none, some, map, length, filterb, leb,
  if◌then◌else◌, Bytes,
}
use b.Reliable.Frame.{Priority, encode_ack}
use b.Reliable.Channel.State.{Config, ReceivedMessage, Channel}
use b.Reliable.Channel.State
use b.Reliable.Channel.Sender
use b.Reliable.Channel.Receiver

-- `TransportSink`
pub record Sink : Type 0 where
  pub name : String
  pub priority : ℕ
  pub handle : ℕ

-- `MultiTransport`
pub record Multi : Type 0 where
  pub sinks : List Sink
  pub reliable : Channel

-- what a transport gets
abbrev pub Output : Type 0
Output = ℕ × Bytes

-- The closure that `MultiTransport::new` gives the channel: the first sink gets the bytes, and
-- with no sink they are dropped.
unfoldable pub route : List Sink → List Bytes → List Output
route [] out = []
route (s ∷ ss) out = map (λ d. (s.handle, d)) out

unfoldable pub new : Config → Multi
new config = record { sinks = []; reliable = State.new config }

unfoldable pub set_session_id : Multi → ℕ → Multi
set_session_id m id = record m { reliable = State.set_session_id m.reliable id }

-- `Vec::sort_by_key` of the standard library, which keeps the order of equal keys.
unfoldable pub insert_by_priority : Sink → List Sink → List Sink
insert_by_priority s [] = s ∷ []
insert_by_priority s (t ∷ ts) =
    if leb s.priority t.priority then s ∷ t ∷ ts else t ∷ insert_by_priority s ts

unfoldable pub sort_by_priority : List Sink → List Sink
sort_by_priority [] = []
sort_by_priority (s ∷ ss) = insert_by_priority s (sort_by_priority ss)

-- `guard.retain(|s| s.name != name)`
unfoldable pub without : String → List Sink → List Sink
without name sinks = filterb (λ s. not (str_eq s.name name)) sinks

unfoldable pub add_transport : Multi → String → ℕ → ℕ → Multi × List Output
add_transport m name priority handle =
    let s : Sink = record { name = name; priority = priority; handle = handle } in
    let sinks = sort_by_priority (without name m.sinks ++ (s ∷ [])) in
    (record m { sinks = sinks }, route sinks (Receiver.flush_unacked m.reliable))

unfoldable pub remove_transport : Multi → String → Multi × List Output
remove_transport m name =
    let sinks = without name m.sinks in
    (record m { sinks = sinks }, route sinks (Receiver.flush_unacked m.reliable))

unfoldable pub sink_count : Multi → ℕ
sink_count m = length m.sinks

unfoldable pub sink_names : Multi → List String
sink_names m = map (λ s. s.name) m.sinks

abbrev pub any_named : String → List Sink → Bool
any_named name [] = false
any_named name (s ∷ ss) = str_eq s.name name || any_named name ss

unfoldable pub has_transport : Multi → String → Bool
has_transport m name = any_named name m.sinks

unfoldable pub send_resume : Multi → List Output
send_resume m = route m.sinks (Receiver.send_resume m.reliable)

unfoldable pub reset : Multi → Multi
reset m = record m { reliable = Receiver.reset m.reliable }

unfoldable pub active_transport : Multi → Option String
active_transport m = elim m.sinks [ [] ↦ none | s ∷ ss ↦ some s.name ]

unfoldable pub transport_names : Multi → List (String × ℕ)
transport_names m = map (λ s. (s.name, s.priority)) m.sinks

unfoldable pub transport_count : Multi → ℕ
transport_count m = length m.sinks

unfoldable pub unacked_count : Multi → ℕ
unacked_count m = Receiver.unacked_count m.reliable

unfoldable pub reorder_count : Multi → ℕ
reorder_count m = Receiver.reorder_count m.reliable

unfoldable pub last_contiguous_received : Multi → ℕ
last_contiguous_received m = Receiver.last_contiguous_received m.reliable

-- An ACK with window 0 to every sink.
unfoldable pub keepalive_all : Multi → List Output
keepalive_all m =
    map (λ s. (s.handle, encode_ack (Receiver.last_contiguous_received m.reliable) 0)) m.sinks

unfoldable pub tick : Multi → Multi × List Output
tick m = let (c, out) = Receiver.tick m.reliable in (record m { reliable = c }, route m.sinks out)

module _ (hash : Bytes → ℕ) where
  -- `none` is the panic of the channel's `send`.
  unfoldable pub send : Multi → (ℕ → ℕ) → Bytes → Priority → Option (Multi × List Output)
  send m clock payload priority = elim (Sender.send hash m.reliable clock payload priority) [
    | none ↦ none
    | some (c, out) ↦ some (record m { reliable = c }, route m.sinks out)
  ]

  unfoldable pub receive : Multi → (ℕ → ℕ) → Bytes → Multi × List Output × List ReceivedMessage
  receive m clock bytes =
      let (c, out, delivered) = Receiver.receive hash m.reliable clock bytes in
      (record m { reliable = c }, route m.sinks out, delivered)
