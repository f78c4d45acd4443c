-- ===== src/Relay/Pending.antt =====
-- Where the relay's answers go.
use b.Prelude.{
  ℕ, ◌≡◌, refl, sym, ◌∙◌, ap, true, false, List, [], ◌∷◌, Option, none, some, All, Bool-cases, inl,
  inr, true-false, Bytes, Text, chars, same, same→≡, starts_with, starts_with-append, ◌++◌,
}
use b.Reliable.Frame.{Priority}
use b.Reliable.Sessions.Manager.{Manager, get}
use b.Reliable.Sessions.Session.{Session}
use b.Relay.Messages.{extract_from, keys, extract_msg_id, is_final_response, has_type}
use b.Relay.Requests.{
  lookup-insert_self, lookup-insert_other, lookup-remove_other, lookup-unknown,
  prefix_match-unknown, settled_absent,
}
use b.Relay.Routing.{
  Requests, lookup, prefix_match, insert, target, settled, deliver, route_response, Action, forward,
  tracked, read_framed, read_unframed,
}

-- What reaches the relay, from a browser's session or from the worker.
pub data Event : Type 0 where
  framed : ℕ → Text → Event
  unframed : ℕ → Text → Event
  response : Bytes → Event

unfoldable pub after_event : Requests → Event → Requests
after_event ps (framed c t) = (read_framed ps c t).0
after_event ps (unframed c t) = (read_unframed ps c t).0
after_event ps (response d) = settled ps (extract_msg_id d) d

unfoldable pub after_events : Requests → List Event → Requests
after_events ps [] = ps
after_events ps (e ∷ es) = after_events (after_event ps e) es

-- Events that leave the id to its session: no other session sends a message with it, and it has no final
-- response.
abbrev pub Leaves : Text → ℕ → Event → Type 0
Leaves id s (framed c t) = extract_from keys t ≡ some id → c ≡ s
Leaves id s (unframed c t) = extract_from keys t ≡ some id → c ≡ s
Leaves id s (response d) = extract_msg_id d ≡ some id → is_final_response d ≡ false

lookup-tracked :
    (ps : Requests) (o : Option Text) (c s : ℕ) (id : Text)
    → (o ≡ some id → c ≡ s)
    → lookup ps id ≡ some s
    → lookup (tracked ps o c) id ≡ some s
lookup-tracked ps none c s id own h = h
lookup-tracked ps (some k) c s id own h = elim (Bool-cases (same k id)) [
  | inl e ↦
      let mine : k ≡ id = same→≡ k id e in
      ap (λ j. lookup (insert ps j c) id) mine
      ∙ lookup-insert_self ps id c
      ∙ ap some (own (ap some mine))
  | inr n ↦ lookup-insert_other ps k id c n ∙ h
]

lookup-settled :
    (ps : Requests) (d : Bytes) (o : Option Text) (s : ℕ) (id : Text)
    → (o ≡ some id → is_final_response d ≡ false)
    → lookup ps id ≡ some s
    → lookup (settled ps o d) id ≡ some s
unfolding settled
lookup-settled ps d none s id own h = h
lookup-settled ps d (some k) s id own h = elim (Bool-cases (is_final_response d)) [
  | inr kept ↦ rw (kept, settled) h
  | inl final ↦ elim (Bool-cases (same k id)) [
    | inl e ↦ absurd (true-false (sym final ∙ own (ap some (same→≡ k id e))))
    | inr n ↦ rw (final, settled) (lookup-remove_other ps k id n ∙ h)
  ]
]

lookup-after_event :
    (ps : Requests) (e : Event) (s : ℕ) (id : Text)
    → Leaves id s e
    → lookup ps id ≡ some s
    → lookup (after_event ps e) id ≡ some s
unfolding after_event read_framed read_unframed
lookup-after_event ps (unframed c t) s id own h =
    lookup-tracked ps (extract_from keys t) c s id own h
lookup-after_event ps (response d) s id own h = lookup-settled ps d (extract_msg_id d) s id own h
lookup-after_event ps (framed c t) s id own h =
    let more = lookup-tracked ps (extract_from keys t) c s id own h in
    elim (Bool-cases (has_type t (chars "echo"))) [
      | inl a ↦ rw (a, after_event, read_framed) h
      | inr a ↦ elim (Bool-cases (has_type t (chars "pong"))) [
        | inl b ↦ rw (a, b, after_event, read_framed) h
        | inr b ↦ elim (Bool-cases (has_type t (chars "rtc_inactive"))) [
          | inl c ↦ rw (a, b, c, after_event, read_framed) more
          | inr c ↦ rw (a, b, c, after_event, read_framed) more
        ]
      ]
    ]

lookup-after_events :
    (ps : Requests) (es : List Event) (s : ℕ) (id : Text)
    → All (Leaves id s) es
    → lookup ps id ≡ some s
    → lookup (after_events ps es) id ≡ some s
unfolding after_events
lookup-after_events ps [] s id own h = h
lookup-after_events ps (e ∷ es) s id own h =
    lookup-after_events (after_event ps e) es s id own.1 (lookup-after_event ps e s id own.0 h)

echo_sent : Action.echo ≡ forward → ⊥
echo_sent h = absurd (cc h)

discard_sent : Action.discard ≡ forward → ⊥
discard_sent h = absurd (cc h)

read_framed-forward :
    (ps : Requests) (c : ℕ) (t : Text)
    → (read_framed ps c t).1 ≡ forward
    → (read_framed ps c t).0 ≡ tracked ps (extract_from keys t) c
unfolding read_framed
read_framed-forward ps c t h = elim (Bool-cases (has_type t (chars "echo"))) [
  | inl a ↦
      let is : (read_framed ps c t).1 ≡ Action.echo = rw (a, read_framed) refl in
      absurd (echo_sent (sym is ∙ h))
  | inr a ↦ elim (Bool-cases (has_type t (chars "pong"))) [
    | inl b ↦
        let is : (read_framed ps c t).1 ≡ Action.discard = rw (a, b, read_framed) refl in
        absurd (discard_sent (sym is ∙ h))
    | inr b ↦ elim (Bool-cases (has_type t (chars "rtc_inactive"))) [
      | inl r ↦ rw (a, b, r, read_framed) refl
      | inr r ↦ rw (a, b, r, read_framed) refl
    ]
  ]
]

lookup-read_framed :
    (ps : Requests) (c : ℕ) (t id : Text)
    → extract_from keys t ≡ some id
    → (read_framed ps c t).1 ≡ forward
    → lookup (read_framed ps c t).0 id ≡ some c
unfolding read_framed
lookup-read_framed ps c t id e sent =
    ap (λ r. lookup r id) (read_framed-forward ps c t sent)
    ∙ ap (λ o. lookup (tracked ps o c) id) e
    ∙ lookup-insert_self ps id c

prefix_match-first :
    (before after : Requests) (id k : Text) (c : ℕ)
    → All (λ p. starts_with id p.0 ≡ false) before
    → starts_with id k ≡ true
    → prefix_match (before ++ ((k, c) ∷ after)) id ≡ some c
unfolding prefix_match
prefix_match-first [] after id k c others begins = rw (begins, prefix_match) refl
prefix_match-first ((j, s) ∷ before) after id k c others begins =
    rw (others.0, prefix_match) (prefix_match-first before after id k c others.1 begins)

module _ (m : Manager) (priority : Priority) (d : Bytes) (id : Text)
    (named : extract_msg_id d ≡ some id) where
  -- A message of a browser's session that is forwarded to the worker under an id is answered to that
  -- session: after any further events that leave the id to the session, a response with the id goes to the
  -- session's queue and to no other, if the session is still there.
  pub read_framed-route_response :
      (ps : Requests) (c : ℕ) (t : Text) (events : List Event) (s : Session)
      → extract_from keys t ≡ some id
      → (read_framed ps c t).1 ≡ forward
      → All (Leaves id c) events
      → get m c ≡ some s
      → (route_response m (after_events (read_framed ps c t).0 events) d priority).1
        ≡ record { queue = s.backend_tx; payload = d; priority = priority } ∷ []
  unfolding route_response deliver target
  read_framed-route_response ps c t events s e sent own there =
      let known =
        lookup-after_events (read_framed ps c t).0 events c id own
          (lookup-read_framed ps c t id e sent) in
      rw (named, known, target, deliver, there) refl

  -- A response goes to no session if no id that is pending is its id or a beginning of its id.
  pub route_response-unknown :
      (ps : Requests)
      → All (λ p. starts_with id p.0 ≡ false) ps
      → (route_response m ps d priority).1 ≡ []
  unfolding route_response deliver target
  route_response-unknown ps h =
      rw (named, lookup-unknown ps id h, prefix_match-unknown ps id h, target, deliver) refl

  -- A response whose own id is not pending goes to the first session, in the order of the map, that waits for
  -- a beginning of its id, whatever follows this beginning, and its being final does not end the wait of that
  -- session, if the session is still there.
  pub route_response-prefix :
      (before after : Requests) (k suffix : Text) (c : ℕ) (s : Session)
      → id ≡ k ++ suffix
      → lookup (before ++ ((k, c) ∷ after)) id ≡ none
      → All (λ p. starts_with id p.0 ≡ false) before
      → get m c ≡ some s
      → route_response m (before ++ ((k, c) ∷ after)) d priority ≡ (
        before ++ ((k, c) ∷ after),
        record { queue = s.backend_tx; payload = d; priority = priority } ∷ [],
      )
  unfolding route_response deliver target settled
  route_response-prefix before after k suffix c s begins absent others there =
      let ps = before ++ ((k, c) ∷ after) in
      let found =
        prefix_match-first before after id k c others
          (ap (λ t. starts_with t k) begins ∙ starts_with-append k suffix) in
      let kept : settled ps (some id) d ≡ ps = settled_absent ps id d absent in
      rw (named, kept, absent, found, target, deliver, there) refl
