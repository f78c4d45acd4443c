-- ===== src/Reliable/Multi/Routing.antt =====
-- Which transport of multi.rs gets what: the preferred one, also after one has gone.
use Prim.Native.String.{String}
use text.Mathlib.Text.{◌==◌ as str_eq}
use text.Mathlib.TextEquality.{eq_iff}
use text.Mathlib.TextPositions.{eq_refl}
use b.Prelude.{
  ℕ, ◌+◌, ◌≤◌, ◌<◌, ◌≡◌, ◌≢◌, sym, ap, ◌∙◌, true, false, ◌||◌, List, ◌∷◌, ◌++◌, some, map, length,
  Bytes, All, arith, u32_mod, subst, some_inj,
}
use b.Reliable.Frame.{critical}
use b.Reliable.Channel.State.{Channel}
use b.Reliable.Channel.Sender
use b.Reliable.Channel.Receiver.{flush_unacked}
use b.Reliable.Channel.Critical.{IsOrdered, send-Sent}
use b.Reliable.Multi.State.{
  Sink, Multi, Output, route, without, add_transport, remove_transport, send, any_named,
  has_transport, active_transport,
}
use b.Reliable.Multi.Sinks.{
  IsSorted, HasUniqueNames, sort-IsSorted, without-IsSorted, without-HasUniqueNames,
  added-HasUniqueNames, any_named-without, any_named-added, any_named-without_ne,
}

pub record IsRouted (m : Multi) : Type 0 where
  pub sorted : IsSorted m.sinks
  pub unique : HasUniqueNames m.sinks

-- Adding a transport keeps the sinks sorted and of unique names, whatever the new one is.
pub add_transport-IsRouted :
    (m : Multi) (name : String) (priority handle : ℕ)
    → IsRouted m
    → IsRouted (add_transport m name priority handle).0
unfolding add_transport
add_transport-IsRouted m name priority handle v = record {
  sorted = sort-IsSorted _;
  unique =
      added-HasUniqueNames (record { name = name; priority = priority; handle = handle }) m.sinks
        v.unique;
}

-- Removing a transport keeps the sinks sorted and of unique names.
pub remove_transport-IsRouted :
    (m : Multi) (name : String) → IsRouted m → IsRouted (remove_transport m name).0
unfolding remove_transport
remove_transport-IsRouted m name v = record {
  sorted = without-IsSorted name m.sinks v.sorted;
  unique = without-HasUniqueNames name m.sinks v.unique;
}

-- After a transport was added it is registered, and every other name is registered exactly if it
-- was before; after one was removed it is not registered, and every other name as before.
pub has_transport_lem :
    (m : Multi) (name other : String) (priority handle : ℕ)
    → name ≢ other
    → (has_transport (add_transport m name priority handle).0 name ≡ true)
      × (has_transport (add_transport m name priority handle).0 other ≡ has_transport m other)
      × (has_transport (remove_transport m name).0 name ≡ false)
      × (has_transport (remove_transport m name).0 other ≡ has_transport m other)
unfolding has_transport add_transport remove_transport
has_transport_lem m name other priority handle ne = (
  any_named-added name _ m.sinks
      ∙ ap (λ b. b || any_named name (without name m.sinks)) (eq_refl name),
  any_named-added other _ m.sinks
      ∙ (ap (λ b. b || any_named other (without name m.sinks)) different
          ∙ any_named-without_ne other name m.sinks different),
  any_named-without name m.sinks,
  any_named-without_ne other name m.sinks different,
)
  where
    different : str_eq name other ≡ false
    different = ground (arith, eq_iff name other)

-- Everything goes to a sink of the least priority number.
route_best :
    (m : Multi) (s : Sink) (ss : List Sink) (out : List Bytes)
    → IsRouted m
    → m.sinks ≡ s ∷ ss
    → (route m.sinks out ≡ map (λ d. (s.handle, d)) out)
      × (active_transport m ≡ some s.name)
      × All (λ t. s.priority ≤ t.priority) m.sinks
unfolding route active_transport
route_best m s ss out v e =
    let h : IsSorted (s ∷ ss) = subst IsSorted e v.sorted in
    (rw (e, route), rw (e, active_transport), rw e (omega arith, h.0))

-- Failover: the sinks are sorted and of unique names, a critical message is sent, and a transport is removed
-- before any ACK. Then the frames of the message have gone to a sink of the least priority number, and the
-- removal sends all of them again, in order and behind the older critical frames without an ACK, to a sink
-- of the least priority number among those that are left, if there is one. The buffer is numbered up to the
-- next number, which lies above every ACK received, `send` does not panic, and the numbers stay below 2^32.
pub remove_transport-failover :
    (hash : Bytes → ℕ) (m m' : Multi) (clock : ℕ → ℕ) (payload : Bytes) (out : List Output)
    (c : Channel) (sent : List Bytes) (name : String) (best s : Sink) (bests ss : List Sink)
    → IsRouted m
    → IsOrdered m.reliable
    → Sender.send hash m.reliable clock payload critical ≡ some (c, sent)
    → m.reliable.next_seq + length sent < u32_mod
    → send hash m clock payload critical ≡ some (m', out)
    → m.sinks ≡ best ∷ bests
    → without name m.sinks ≡ s ∷ ss
    → (out ≡ map (λ d. (best.handle, d)) sent)
      × All (λ t. best.priority ≤ t.priority) m.sinks
      × ((remove_transport m' name).1 ≡ map (λ d. (s.handle, d)) (flush_unacked m.reliable ++ sent))
      × All (λ t. s.priority ≤ t.priority) (without name m.sinks)
unfolding send remove_transport route
remove_transport-failover hash m m' clock payload out c sent name best s bests ss sinks v e room f
      top left =
    let preferred = route_best m best bests sent sinks top in
    let m2 : Multi = record m { sinks = without name m.sinks } in
    let next = route_best m2 s ss sent (remove_transport-IsRouted m name sinks) left in
    let g : some (record m { reliable = c }, route m.sinks sent) ≡ some (m', out) =
      rw (e, send) at f in
    let sm : record m { reliable = c } ≡ m' = ap (λ r. r.0) (some_inj g) in
    (
      sym (ap (λ r. r.1) (some_inj g)) ∙ preferred.0,
      preferred.2,
      subst
          (λ x.
            route (without name x.sinks) (flush_unacked x.reliable)
            ≡ map (λ d. (s.handle, d)) (flush_unacked m.reliable ++ sent))
          sm
          (rw (left, route)
            (ap (map (λ d. (s.handle, d)))
              (send-Sent hash m.reliable clock payload critical c sent v e room).kept)),
      next.2,
    )
