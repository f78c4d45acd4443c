-- ===== src/Relay/Forwarding.antt =====
-- The order of handshake and worker, and what reaches the worker.
use b.Prelude.{
  ℕ, ◌+◌, ◌≡◌, ◌⊎◌, refl, ◌∙◌, ap, Bool, true, false, List, [], ◌∷◌, ◌++◌, Option, none, some, map,
  if◌then◌else◌, Bool-cases, some_inj, none-some, sym, ◌>>=◌, Option-cases, inl, inr, Bytes,
  append-nil,
}
use b.Reliable.Channel.State.{Channel}
use b.Reliable.Encrypted.Channel.{Crates, EncryptedChannel, is_ready}
use b.Reliable.Encrypted.Channel as Encrypted
use b.Relay.Session.{
  GpuSession, Effects, no_effects, taken, connected, msg_out, forward_one, forward_all, receive_all,
  send_all, flush, shake, relay, handle_session_frame,
}

-- Without a socket the messages are dropped.
forward_all-none :
    (sent : ℕ → Bool) (i : ℕ) (s : GpuSession) (ms : List Bytes)
    → s.gpu_writer ≡ none
    → forward_all sent i s ms ≡ (s, no_effects)
unfolding forward_all forward_one
forward_all-none sent i s [] at = refl
forward_all-none sent i s (m ∷ ms) at =
    let one : forward_one (sent i) s m ≡ (s, no_effects) = simp (at, forward_one) in
    rw (one, forward_all, forward_all-none sent (i + 1) s ms at) refl

-- The messages before the first one whose send fails, where the first has the number `i`.
unfoldable pub accepted : (sent : ℕ → Bool) (i : ℕ) → List Bytes → List Bytes
accepted sent i [] = []
accepted sent i (m ∷ ms) = let rest = accepted sent (i + 1) ms in if sent i then m ∷ rest else []

-- Whether every send succeeds.
unfoldable pub all_sent : (sent : ℕ → Bool) (i : ℕ) → List Bytes → Bool
all_sent sent i [] = true
all_sent sent i (m ∷ ms) = let rest = all_sent sent (i + 1) ms in if sent i then rest else false

-- What is left of the connection to the worker, and the tasks that are aborted.
unfoldable pub worker : Bool → GpuSession → GpuSession
worker true s = s
worker false s = record s { gpu_writer = none; gpu_reader = none }

unfoldable pub stopped : Bool → Option ℕ → List ℕ
stopped true reader = []
stopped false reader = taken reader

forward_all_lem :
    (sent : ℕ → Bool) (i w : ℕ) (s : GpuSession) (ms : List Bytes)
    → s.gpu_writer ≡ some w
    → forward_all sent i s ms ≡ (
      worker (all_sent sent i ms) s,
      record {
        to_browser = [];
        to_gpu = map (λ m. (w, msg_out m)) (accepted sent i ms);
        aborted = stopped (all_sent sent i ms) s.gpu_reader;
      },
    )
unfolding forward_all forward_one accepted all_sent worker stopped
forward_all_lem sent i w s [] at = refl
forward_all_lem sent i w s (m ∷ ms) at = elim (Bool-cases (sent i)) [
  | inl good ↦
      let one : forward_one (sent i) s m ≡ (s, record no_effects { to_gpu = (w, msg_out m) ∷ [] }) =
        simp (at, good, forward_one) in
      rw (one, forward_all, forward_all_lem sent (i + 1) w s ms at, good, accepted, all_sent) refl
  | inr bad ↦
      let one : forward_one (sent i) s m
          ≡ (worker false s, record no_effects { aborted = taken s.gpu_reader }) =
        simp (at, bad, forward_one) in
      rw
        (
          one,
          forward_all,
          forward_all-none sent (i + 1) (worker false s) ms refl,
          bad,
          accepted,
          all_sent,
        )
        (ap (λ a. (worker false s, record { to_browser = []; to_gpu = []; aborted = a }))
          (append-nil (taken s.gpu_reader)))
]

module _ {Value : Type 0} (x : Crates Value) (s : GpuSession) (clock : ℕ → ℕ) (sent : ℕ → Bool)
    (bytes : Bytes) where
  -- A session that is not ready handles every frame without a panic. Afterwards a worker is connected, or
  -- nothing has changed and nothing has been sent to the browser: a handshake is answered only to a browser
  -- whose worker is connected.
  pub handle_session_frame-unconnected :
      (connect : Option (ℕ × ℕ))
      → is_ready s.enc ≡ false
      → (s1 : GpuSession) × (e : Effects) × (handle_session_frame x s clock connect sent bytes
          ≡ some (s1, e))
        × (((w : ℕ) × (s1.gpu_writer ≡ some w)) ⊎ ((s1 ≡ s) × (e.to_browser ≡ [])))
  unfolding handle_session_frame shake
  handle_session_frame-unconnected connect shaking = elim (Option-cases s.gpu_writer) [
    | inr (w, at) ↦ let r = shake x s clock bytes in (r.0, r.1, simp (shaking, at), inl (w, at))
    | inl at ↦ elim (Option-cases connect) [
      | inl no_worker ↦ (s, no_effects, simp (shaking, at, no_worker), inr (refl, refl))
      | inr (c, worker) ↦
          let r = shake x (connected s c) clock bytes in
          (r.0, r.1, simp (shaking, at, worker), inl (c.0, refl))
    ]
  ]

  -- What the outer channel has to do with what the session's channel delivers.
  abbrev pub unwrapped : Channel × List Bytes × List Bytes
  unwrapped = receive_all x s.outer_rc clock (Encrypted.receive x s.enc clock bytes).2

  -- The session after a frame, before anything of it goes to the worker.
  abbrev pub passed : GpuSession
  passed = record s { enc = (Encrypted.receive x s.enc clock bytes).0; outer_rc = unwrapped.0 }

  -- What a frame does beside what goes to the browser.
  pub record Forwards (s1 : GpuSession) (e : Effects) (w : ℕ) : Type 0 where
    pub gets : e.to_gpu ≡ map (λ m. (w, msg_out m)) (accepted sent 0 unwrapped.2)
    pub keeps : s1.gpu_writer ≡ (if all_sent sent 0 unwrapped.2 then some w else none)
    pub aborts : e.aborted ≡ (if all_sent sent 0 unwrapped.2 then [] else taken s.gpu_reader)
    pub receives : s1.outer_rc ≡ unwrapped.0

  -- A flush changes the session's channel and adds to what goes to the browser.
  flush-some :
      (s0 s1 : GpuSession) (e0 e : Effects) (frames : List Bytes)
      → flush x s0 e0 clock frames ≡ some (s1, e)
      → (e.to_gpu ≡ e0.to_gpu)
        × (s1.gpu_writer ≡ s0.gpu_writer)
        × (e.aborted ≡ e0.aborted)
        × (s1.outer_rc ≡ s0.outer_rc)
  unfolding flush
  flush-some s0 s1 e0 e frames h =
      let more : EncryptedChannel × List Bytes → Option (GpuSession × Effects) =
        λ r. some (record s0 { enc = r.0 }, record e0 { to_browser = e0.to_browser ++ r.1 }) in
      elim (Option-cases (send_all x s0.enc clock frames)) [
        | inl panic ↦ absurd (none-some (sym (ap (λ o. o >>= more) panic) ∙ h))
        | inr (r, done) ↦
            let same = some_inj (sym (ap (λ o. o >>= more) done) ∙ h) in
            (
              sym (ap (λ p. p.1.to_gpu) same),
              sym (ap (λ p. p.0.gpu_writer) same),
              sym (ap (λ p. p.1.aborted) same),
              sym (ap (λ p. p.0.outer_rc) same),
            )
      ]

  worker-gpu_writer :
      (b : Bool) (s0 : GpuSession) (w : ℕ)
      → s0.gpu_writer ≡ some w
      → (worker b s0).gpu_writer ≡ (if b then some w else none)
  unfolding worker
  worker-gpu_writer true s0 w at = at
  worker-gpu_writer false s0 w at = refl

  worker-outer_rc : (b : Bool) (s0 : GpuSession) → (worker b s0).outer_rc ≡ s0.outer_rc
  unfolding worker
  worker-outer_rc true s0 = refl
  worker-outer_rc false s0 = refl

  stopped_lem : (b : Bool) (r : Option ℕ) → stopped b r ≡ (if b then [] else taken r)
  unfolding stopped
  stopped_lem true r = refl
  stopped_lem false r = refl

  -- A ready session with a connected worker handles a frame, and no `send` panics. Then, whichever sends to
  -- the worker fail, the worker gets, in order, the delivered messages before the first failure, as a text where they
  -- are UTF-8, and none behind it; it stays connected if no send fails, and is given up with its reader's
  -- task otherwise. The outer channel has received all the messages all the same.
  pub handle_session_frame-Forwards :
      (connect : Option (ℕ × ℕ)) (w : ℕ) (s1 : GpuSession) (e : Effects)
      → is_ready s.enc ≡ true
      → s.gpu_writer ≡ some w
      → handle_session_frame x s clock connect sent bytes ≡ some (s1, e)
      → Forwards s1 e w
  unfolding handle_session_frame relay
  handle_session_frame-Forwards connect w s1 e ready at h =
      let b = all_sent sent 0 unwrapped.2 in
      let wires = (Encrypted.receive x s.enc clock bytes).1 in
      let direct : handle_session_frame x s clock connect sent bytes ≡ relay x s clock sent bytes =
        simp (ready, at) in
      let go : GpuSession × Effects → Option (GpuSession × Effects) =
        λ r. flush x r.0 (record r.1 { to_browser = wires }) clock unwrapped.1 in
      let (gets, keeps, aborts, receives) =
        flush-some (worker b passed) s1
          (record {
            to_browser = wires;
            to_gpu = map (λ m. (w, msg_out m)) (accepted sent 0 unwrapped.2);
            aborted = stopped b s.gpu_reader;
          })
          e unwrapped.1
          (sym (ap go (forward_all_lem sent 0 w passed unwrapped.2 at)) ∙ sym direct ∙ h) in
      record {
        gets = gets;
        keeps = keeps ∙ worker-gpu_writer b passed w at;
        aborts = aborts ∙ stopped_lem b s.gpu_reader;
        receives = receives ∙ worker-outer_rc b passed;
      }
