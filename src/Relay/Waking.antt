-- ===== src/Relay/Waking.antt =====
-- What the tasks do that wake after a browser has left a session of `handle_browser_ws`.
use b.Prelude.{
  ℕ, ◌≡◌, refl, sym, ◌∙◌, ap, subst, true, false, List, [], ◌∷◌, ◌++◌, none, some, leb, ◌==◌, arith,
  Bool-cases, Option-cases, inl, inr, ◌⊎◌, some_inj, true-false,
}
use b.Reliable.Multi.State.{sink_count}
use b.Reliable.Sessions.Session.{Session}
use b.Reliable.Sessions.Manager.{Manager, find, delete, get, remove}
use b.Reliable.Sessions.Reconnect.{IsMap, find-delete, find-delete_other}
use b.Reliable.Sessions.Reachable.{find-delete_absent, delete-IsMap}
use b.Relay.Lifetime.{clean_up, wake}

-- The three outcomes of a task that wakes.
clean_up_gone : (m : Manager) (i : ℕ) → get m i ≡ none → clean_up m i ≡ m
unfolding clean_up
clean_up_gone m i n = rw (n, clean_up) refl

clean_up_busy :
    (m : Manager) (i : ℕ) (t : Session)
    → get m i ≡ some t
    → (sink_count t.multi == 0) ≡ false
    → clean_up m i ≡ m
unfolding clean_up
clean_up_busy m i t e c = rw (e, clean_up, c) refl

remove_found :
    (m : Manager) (i : ℕ) (t : Session)
    → get m i ≡ some t
    → (remove m i).0 ≡ record m { sessions = delete m.sessions i }
unfolding remove get
remove_found m i t e = rw (e, remove) refl

clean_up_idle :
    (m : Manager) (i : ℕ) (t : Session)
    → get m i ≡ some t
    → (sink_count t.multi == 0) ≡ true
    → clean_up m i ≡ record m { sessions = delete m.sessions i }
unfolding clean_up
clean_up_idle m i t e z = rw (e, clean_up, z) (remove_found m i t e)

-- A task leaves the map as it is, or removes an entry of a session without sinks.
clean_up_cases :
    (m : Manager) (i : ℕ)
    → (clean_up m i ≡ m)
      ⊎ ((t : Session) × (get m i ≡ some t)
          × ((sink_count t.multi == 0) ≡ true)
          × (clean_up m i ≡ record m { sessions = delete m.sessions i }))
clean_up_cases m i = elim (Option-cases (get m i)) [
  | inl n ↦ inl (clean_up_gone m i n)
  | inr (t, e) ↦ elim (Bool-cases (sink_count t.multi == 0)) [
    | inl z ↦ inr (t, e, z, clean_up_idle m i t e z)
    | inr c ↦ inl (clean_up_busy m i t e c)
  ]
]

-- A session with a sink stays.
clean_up-keeps :
    (m : Manager) (i id : ℕ) (s : Session)
    → get m id ≡ some s
    → (sink_count s.multi == 0) ≡ false
    → get (clean_up m i) id ≡ some s
unfolding get
clean_up-keeps m i id s there busy = elim (clean_up_cases m i) [
  | inl same ↦ ap (λ n. get n id) same ∙ there
  | inr (t, e, z, cut) ↦ elim (Bool-cases (i == id)) [
    | inl mine ↦
        let one : i ≡ id = ground arith in
        let two : t ≡ s = some_inj (sym e ∙ ap (get m) one ∙ there) in
        absurd (true-false (sym z ∙ ap (λ u. sink_count u.multi == 0) two ∙ busy))
    | inr apart ↦ ap (λ n. get n id) cut ∙ find-delete_other m.sessions i id apart ∙ there
  ]
]

clean_up-absent : (m : Manager) (i id : ℕ) → get m id ≡ none → get (clean_up m i) id ≡ none
unfolding get
clean_up-absent m i id gone = elim (clean_up_cases m i) [
  | inl same ↦ ap (λ n. get n id) same ∙ gone
  | inr (t, e, z, cut) ↦ ap (λ n. get n id) cut ∙ find-delete_absent m.sessions i id gone
]

pub wake-keeps :
    (now : ℕ) (m : Manager) (ts : List (ℕ × ℕ)) (id : ℕ) (s : Session)
    → get m id ≡ some s
    → (sink_count s.multi == 0) ≡ false
    → get (wake now m ts).0 id ≡ some s
unfolding wake
wake-keeps now m [] id s there busy = there
wake-keeps now m ((i, due) ∷ ts) id s there busy = elim (Bool-cases (leb due now)) [
  | inl t ↦
      rw (t, wake) (wake-keeps now (clean_up m i) ts id s (clean_up-keeps m i id s there busy) busy)
  | inr f ↦ rw (f, wake) (wake-keeps now m ts id s there busy)
]

pub wake-absent :
    (now : ℕ) (m : Manager) (ts : List (ℕ × ℕ)) (id : ℕ)
    → get m id ≡ none
    → get (wake now m ts).0 id ≡ none
unfolding wake
wake-absent now m [] id gone = gone
wake-absent now m ((i, due) ∷ ts) id gone = elim (Bool-cases (leb due now)) [
  | inl t ↦ rw (t, wake) (wake-absent now (clean_up m i) ts id (clean_up-absent m i id gone))
  | inr f ↦ rw (f, wake) (wake-absent now m ts id gone)
]

wake_first :
    (now : ℕ) (m : Manager) (id due : ℕ) (ts : List (ℕ × ℕ))
    → leb due now ≡ true
    → (wake now m ((id, due) ∷ ts)).0 ≡ (wake now (clean_up m id) ts).0
unfolding wake
wake_first now m id due ts t = rw (t, wake) refl

-- A task of a session without sinks removes it when it wakes, whatever other tasks wake before it.
pub wake-gone :
    (now : ℕ) (m : Manager) (us : List (ℕ × ℕ)) (id due : ℕ) (ts : List (ℕ × ℕ)) (s : Session)
    → IsMap m.sessions
    → get m id ≡ some s
    → (sink_count s.multi == 0) ≡ true
    → leb due now ≡ true
    → get (wake now m (us ++ ((id, due) ∷ ts))).0 id ≡ none
unfolding wake get
wake-gone now m [] id due ts s v there idle at =
    ap (λ m. get m id) (wake_first now m id due ts at)
    ∙ wake-absent now (clean_up m id) ts id
        (ap (λ m. get m id) (clean_up_idle m id s there idle) ∙ find-delete m.sessions id v)
wake-gone now m ((i, d) ∷ us) id due ts s v there idle at = elim (Bool-cases (leb d now)) [
  | inr later ↦ rw (later, wake) (wake-gone now m us id due ts s v there idle at)
  | inl woken ↦
      rw (woken, wake)
        (elim (clean_up_cases m i) [
          | inl same ↦ rw (same) (wake-gone now m us id due ts s v there idle at)
          | inr (t, e, z, cut) ↦ rw (cut) (elim (Bool-cases (i == id)) [
            | inl mine ↦
                let one : i ≡ id = ground arith in
                wake-absent now (record m { sessions = delete m.sessions i })
                  (us ++ ((id, due) ∷ ts)) id
                  (subst (λ n. find (delete m.sessions i) n ≡ none) one
                    (find-delete m.sessions i v))
            | inr apart ↦
                wake-gone now (record m { sessions = delete m.sessions i }) us id due ts s
                  (delete-IsMap m.sessions i v) (find-delete_other m.sessions i id apart ∙ there)
                  idle at
          ])
        ])
]
