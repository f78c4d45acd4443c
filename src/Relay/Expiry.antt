-- ===== src/Relay/Expiry.antt =====
-- Which sessions the relay removes.
use b.Prelude.{
  length, ℕ, ◌≤◌, ◌+◌, ◌≡◌, refl, ◌∙◌, ap, true, false, List, [], ◌∷◌, ◌++◌, none, some, leb, ◌==◌,
  if◌then◌else◌, arith,
}
use b.Reliable.Channel.State.{default_config}
use b.Reliable.Multi.State.{
  Output, sink_count, without, sort_by_priority, insert_by_priority, add_transport,
  remove_transport, has_transport, any_named,
}
use b.Reliable.Sessions.Session.{Session}
use b.Reliable.Sessions.Manager.{Manager, get, reconnect_or_create}
use b.Reliable.Sessions.Reconnect.{IsMap, find-insert, insert-IsMap}
use b.Relay.Waking.{wake-keeps, wake-gone}
use b.Relay.Lifetime.{
  Lifetime, put, attach, enter, connect, detached, disconnect, elapse, wake, expire,
}

-- Whichever tasks wake, a session that has a sink is not removed, and is not changed.
pub expire-keeps :
    (l : Lifetime) (id : ℕ) (s : Session)
    → get l.manager id ≡ some s
    → (sink_count s.multi == 0) ≡ false
    → get (expire l).manager id ≡ some s
unfolding expire
expire-keeps l id s there busy = wake-keeps l.now l.manager l.timers id s there busy

-- A session in the map, under its own number.
abbrev pub IsSession : Manager → Session → Type 0
IsSession m s = IsMap m.sessions × (get m s.id ≡ some s)

put-IsSession : (m : Manager) (s : Session) → IsMap m.sessions → IsSession (put m s) s
unfolding get
put-IsSession m s v =
    let me : (s.id == s.id) ≡ true = ground arith in
    (insert-IsMap m.sessions s.id s v, find-insert m.sessions s.id s s.id ∙ rw (me) refl)

-- The sinks of a session that a browser has connected to, and those when it has left.
attach-sinks :
    (s : Session) (handle : ℕ)
    → s.multi.sinks ≡ []
    → (attach s handle).0.multi.sinks ≡ record { name = "ws"; priority = 1; handle = handle } ∷ []
unfolding attach add_transport remove_transport sort_by_priority insert_by_priority without
attach-sinks s handle idle =
    ap
      (λ sinks. sort_by_priority (
        without "ws" (without "ws" sinks)
        ++ (record { name = "ws"; priority = 1; handle = handle } ∷ [])))
      idle

abbrev left : Session → Session
left s = record s { multi = (remove_transport s.multi "ws").0 }

left-idle :
    (s : Session) (handle : ℕ)
    → s.multi.sinks ≡ []
    → (sink_count (left (attach s handle).0).multi == 0) ≡ true
unfolding remove_transport without sink_count
left-idle s handle idle =
    ap (λ sinks. length (without "ws" sinks) == 0) (attach-sinks s handle idle)

reconnect_found :
    (m : Manager) (id channel : ℕ) (s : Session)
    → get m id ≡ some s
    → reconnect_or_create m (some id) default_config channel ≡ (m, s, none)
unfolding reconnect_or_create
reconnect_found m id channel s e = rw (e, reconnect_or_create) refl

enter_idle :
    (l : Lifetime) (m : Manager) (s : Session) (task handle : ℕ)
    → has_transport s.multi "ws" ≡ false
    → (enter l task handle (m, s, none)).0 ≡ record l { manager = put m (attach s handle).0 }
unfolding enter
enter_idle l m s task handle idle =
    ap
      (λ b.
        let r : Lifetime × List Output =
          if b
          then (record l { manager = put m s }, [])
          else (record l { manager = put m (attach s handle).0 }, (attach s handle).1) in
        r.0)
      idle

connect_existing :
    (l : Lifetime) (s : Session) (channel task handle : ℕ)
    → get l.manager s.id ≡ some s
    → s.multi.sinks ≡ []
    → (connect l (some s.id) channel task handle).0
      ≡ record l { manager = put l.manager (attach s handle).0 }
unfolding connect has_transport
connect_existing l s channel task handle there idle =
    ap (λ r. (enter l task handle r).0) (reconnect_found l.manager s.id channel s there)
    ∙ enter_idle l l.manager s task handle (ap (any_named "ws") idle)

disconnect_found :
    (l : Lifetime) (id : ℕ) (s : Session)
    → get l.manager id ≡ some s
    → disconnect l id
      ≡ record l { manager = put l.manager (left s); timers = l.timers ++ ((id, l.now + 300) ∷ []) }
unfolding disconnect
disconnect_found l id s e =
    ap
      (λ o. record l {
        manager = detached l.manager o;
        timers = l.timers ++ ((id, l.now + 300) ∷ []);
      })
      e

expire-gone :
    (l : Lifetime) (id due : ℕ) (ts : List (ℕ × ℕ)) (s : Session)
    → IsMap l.manager.sessions
    → get l.manager id ≡ some s
    → (sink_count s.multi == 0) ≡ true
    → l.timers ≡ (id, due) ∷ ts
    → leb due l.now ≡ true
    → get (expire l).manager id ≡ none
unfolding expire
expire-gone l id due ts s v there idle first at =
    ap (λ t. get (wake l.now l.manager t).0 id) first
    ∙ wake-gone l.now l.manager [] id due ts s v there idle at

-- A session that a browser leaves and that has no other sink is gone when five minutes have passed without
-- a connection, whatever other tasks wake before.
pub expire-idle :
    (l : Lifetime) (s : Session) (seconds : ℕ)
    → IsSession l.manager s
    → (remove_transport s.multi "ws").0.sinks ≡ []
    → 300 ≤ seconds
    → get (expire (elapse (disconnect l s.id) seconds)).manager s.id ≡ none
unfolding expire sink_count
expire-idle l s seconds there idle passed =
    let m1 = put l.manager (left s) in
    let one : IsSession m1 (left s) = put-IsSession l.manager (left s) there.0 in
    ap (λ x. get (expire (elapse x seconds)).manager s.id) (disconnect_found l s.id s there.1)
    ∙ wake-gone (l.now + seconds) m1 l.timers s.id (l.now + 300) [] (left s) one.0 one.1
        (ap (λ sinks. length sinks == 0) idle) (ground arith)

-- A session without sinks that a browser connects to and leaves again is removed by the first task that
-- waits for it, whatever time is left of the five minutes since the browser left.
pub expire-early :
    (l : Lifetime) (s : Session) (due d1 d2 channel task handle : ℕ) (ts : List (ℕ × ℕ))
    → IsSession l.manager s
    → s.multi.sinks ≡ []
    → l.timers ≡ (s.id, due) ∷ ts
    → due ≡ l.now + d1 + d2
    → get
        (expire (
          elapse
            (disconnect (elapse (connect l (some s.id) channel task handle).0 d1) s.id)
            d2)).manager
        s.id
      ≡ none
unfolding attach
expire-early l s due d1 d2 channel task handle ts there idle first at =
    let s1 = (attach s handle).0 in
    let m1 = put l.manager s1 in
    let one : IsSession m1 s1 = put-IsSession l.manager s1 there.0 in
    let m2 = put m1 (left s1) in
    let two : IsSession m2 (left s1) = put-IsSession m1 (left s1) one.0 in
    let l1 = elapse (record l { manager = m1 }) d1 in
    let l2 = record l1 { manager = m2; timers = l.timers ++ ((s.id, l1.now + 300) ∷ []) } in
    ap (λ x. get (expire (elapse (disconnect (elapse x d1) s.id) d2)).manager s.id)
      (connect_existing l s channel task handle there.1 idle)
    ∙ ap (λ x. get (expire (elapse x d2)).manager s.id) (disconnect_found l1 s.id s1 one.1)
    ∙ expire-gone (elapse l2 d2) s.id due (ts ++ ((s.id, l1.now + 300) ∷ [])) (left s1) two.0 two.1
        (left-idle s handle idle) (ap (λ t. t ++ ((s.id, l1.now + 300) ∷ [])) first) (ground arith)
