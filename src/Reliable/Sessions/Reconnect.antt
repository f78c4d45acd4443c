-- ===== src/Reliable/Sessions/Reconnect.antt =====
-- What a reconnecting browser gets from the session manager of session.rs, and what it leaves.
use b.Prelude.{
  ℕ, ◌≤◌, ◌≡◌, ◌≢◌, refl, sym, ap, false, List, [], ◌∷◌, Option, none, some, ◌==◌, leb,
  if◌then◌else◌, Bool-cases, Option-cases, inl, inr, ◌⊎◌, arith, subst, leb→le,
}
use b.Reliable.Channel.State.{Config}
use b.Reliable.Sessions.Session.{Session, destroy}
use b.Reliable.Sessions.Session
use b.Reliable.Sessions.Manager.{
  Manager, Entries, find, insert, delete, create_with_id, get, newest, most_recent, remove,
  existing, created, reconnect_or_create,
}

pub find-insert :
    (es : Entries) (i : ℕ) (s : Session) (j : ℕ)
    → find (insert es i s) j ≡ (if i == j then some s else find es j)
find-insert [] i s j = refl
find-insert ((k, t) ∷ es) i s j = grind (arith, find-insert es i s j)

pub find-delete_other :
    (es : Entries) (i j : ℕ) → (i == j) ≡ false → find (delete es i) j ≡ find es j
find-delete_other [] i j h = refl
find-delete_other ((k, t) ∷ es) i j h = grind (arith, find-delete_other es i j h)

-- No number is the key of two entries.
unfoldable pub IsMap : Entries → Type 0
IsMap [] = Unit
IsMap ((k, t) ∷ es) = (find es k ≡ none) × IsMap es

flip : (k i : ℕ) → (k == i) ≡ false → (i == k) ≡ false
flip k i h = ground arith

pub insert-IsMap : (es : Entries) (i : ℕ) (s : Session) → IsMap es → IsMap (insert es i s)
unfolding IsMap
insert-IsMap [] i s v = (refl, tt)
insert-IsMap ((k, t) ∷ es) i s v = elim (Bool-cases (k == i)) [
  | inl same ↦
      (let e : k ≡ i = ground arith in rw (same) (subst (λ n. find es n ≡ none) e v.0, v.1))
  | inr other ↦ rw (other) (rw (find-insert es i s k, flip k i other) v.0, insert-IsMap es i s v.1)
]

pub find-delete : (es : Entries) (i : ℕ) → IsMap es → find (delete es i) i ≡ none
unfolding IsMap
find-delete [] i v = refl
find-delete ((k, t) ∷ es) i v = elim (Bool-cases (k == i)) [
  | inl same ↦ (let e : k ≡ i = ground arith in rw (same) (subst (λ n. find es n ≡ none) e v.0))
  | inr other ↦ rw (other, other) (find-delete es i v.1)
]

-- the tasks that go with a session
abbrev pub tasks : Option Session → List ℕ
tasks none = []
tasks (some s) = (destroy s).1

-- In a manager with one entry for each number, removing a session takes the session of that number
-- and no other, and aborts the tasks of the session it takes, if there is one.
pub remove-get :
    (m : Manager) (i j : ℕ)
    → IsMap m.sessions
    → (get (remove m i).0 j ≡ (if i == j then none else get m j))
      × ((remove m i).1 ≡ tasks (get m i))
unfolding remove get
remove-get m i j v = elim (Option-cases (find m.sessions i)) [
  | inl absent ↦ (
    rw (remove, absent)
        (elim (Bool-cases (i == j)) [
          | inl same ↦
              (let e : i ≡ j = ground arith in
                rw (same) (subst (λ n. find m.sessions n ≡ none) e absent))
          | inr other ↦ rw (other) refl
        ]),
    rw (remove, absent) refl,
  )
  | inr (s, there) ↦ (
    rw (remove, there)
        (elim (Bool-cases (i == j)) [
          | inl same ↦
              (let e : i ≡ j = ground arith in
                rw (same)
                  (subst (λ n. find (delete m.sessions i) n ≡ none) e (find-delete m.sessions i v)))
          | inr other ↦ rw (other) (find-delete_other m.sessions i j other)
        ]),
    rw (remove, there) refl,
  )
]

-- no entry has a greater session number
abbrev pub Bounds : Entries → ℕ → Type 0
Bounds [] n = Unit
Bounds ((k, t) ∷ es) n = (t.id ≤ n) × Bounds es n

newest-le : (s : Session) (es : Entries) → s.id ≤ (newest s es).id
newest-le s [] = omega arith
newest-le s ((k, t) ∷ es) = elim (Bool-cases (leb s.id t.id)) [
  | inl le ↦ rw (newest, le) (omega (arith, leb→le s.id t.id le, newest-le t es))
  | inr gt ↦ rw (newest, gt) (newest-le s es)
]

pub newest-Bounds : (s : Session) (es : Entries) → Bounds es (newest s es).id
newest-Bounds s [] = tt
newest-Bounds s ((k, t) ∷ es) = elim (Bool-cases (leb s.id t.id)) [
  | inl le ↦ rw (newest, le) (newest-le t es, newest-Bounds t es)
  | inr gt ↦
      (let lt : t.id ≤ s.id = ground arith in
        rw (newest, gt) (omega (arith, lt, newest-le s es), newest-Bounds s es))
]

reconnect-existing :
    (m : Manager) (client_id : Option ℕ) (config : Config) (channel : ℕ) (s : Session)
    → existing m client_id ≡ some s
    → reconnect_or_create m client_id config channel ≡ (m, s, none)
unfolding reconnect_or_create
reconnect-existing m client_id config channel s h = rw (reconnect_or_create, h) refl

most_recent-cons :
    (m : Manager) (e : ℕ × Session) (es : Entries)
    → m.sessions ≡ e ∷ es
    → most_recent m ≡ some (newest e.1 es)
unfolding most_recent
most_recent-cons m e es h = rw (most_recent, h) refl

abbrev Newest : Manager → (Manager × Session × Option ℕ) → Type 0
Newest m r = (r.0 ≡ m) × (r.2 ≡ none) × Bounds m.sessions r.1.id

-- A browser that comes without a number gets, if there is any session, the one of the greatest
-- number, and the manager stays as it is.
pub reconnect_or_create-newest :
    (m : Manager) (config : Config) (channel : ℕ)
    → m.sessions ≢ []
    → let r = reconnect_or_create m none config channel in
      (r.0 ≡ m) × (r.2 ≡ none) × Bounds m.sessions r.1.id
reconnect_or_create-newest m config channel h = go m.sessions refl
  where
    go : (es : Entries) → m.sessions ≡ es → Newest m (reconnect_or_create m none config channel)
    go [] e = absurd (h e)
    go (x ∷ es) e =
        subst (Newest m)
          (sym
            (reconnect-existing m none config channel (newest x.1 es) (most_recent-cons m x es e)))
          (
            refl,
            refl,
            subst (λ l. Bounds l (newest x.1 es).id) (sym e)
                (newest-le x.1 es, newest-Bounds x.1 es),
          )

absent_found : {s : Session} (o : Option Session) → o ≡ none → o ≡ some s → ⊥
absent_found o a b = cc

other_key :
    (es : Entries) (j i : ℕ) (s : Session)
    → find es j ≡ none
    → find es i ≡ some s
    → (j == i) ≡ false
other_key es j i s absent found = elim (Bool-cases (j == i)) [
  | inl same ↦
      (let e : j ≡ i = ground arith in
        absurd (absent_found (find es i) (subst (λ n. find es n ≡ none) e absent) found))
  | inr other ↦ other
]

-- A reconnect takes no session away and changes none: whatever was found before is found after,
-- under whatever number the browser comes, if it has one.
pub reconnect_or_create-keeps :
    (m : Manager) (client_id : Option ℕ) (config : Config) (channel i : ℕ) (s : Session)
    → get m i ≡ some s
    → get (reconnect_or_create m client_id config channel).0 i ≡ some s
unfolding reconnect_or_create get create_with_id most_recent
reconnect_or_create-keeps m (some cid) config channel i s h =
    elim (Option-cases (find m.sessions cid)) [
      | inl absent ↦
          rw (reconnect_or_create, existing, absent)
            (rw (find-insert m.sessions cid (Session.new cid config channel).0 i)
              (rw (other_key m.sessions cid i s absent h) h))
      | inr (t, there) ↦ rw (reconnect_or_create, existing, there) h
    ]
reconnect_or_create-keeps m none config channel i s h = no_id m.sessions refl
  where
    no_id :
        (es : Entries)
        → m.sessions ≡ es
        → get (reconnect_or_create m none config channel).0 i ≡ some s
    no_id [] e = absurd (absent_found (find m.sessions i) (ap (λ es. find es i) e) h)
    no_id (x ∷ es) e = rw (e) (subst (λ l. find l i ≡ some s) e h)

abbrev Result : Manager → ℕ → Config → ℕ → (Manager × Session × Option ℕ) → Type 0
Result m cid config channel r =
    (get r.0 cid ≡ some r.1)
    × (((get m cid ≡ some r.1) × (r.2 ≡ none))
        ⊎ ((get m cid ≡ none) × (r.1 ≡ (Session.new cid config channel).0) × (r.2 ≡ some channel)))

reconnect-absent :
    (m : Manager) (cid : ℕ) (config : Config) (channel : ℕ)
    → find m.sessions cid ≡ none
    → reconnect_or_create m (some cid) config channel
      ≡ created (create_with_id m cid config channel)
unfolding reconnect_or_create get
reconnect-absent m cid config channel h = rw (reconnect_or_create, existing, h) refl

-- A browser that comes with its number has the session of that number afterwards. It is the one
-- that was there, with no new channel, or else a new one with the new channel.
pub reconnect_or_create-get :
    (m : Manager) (cid : ℕ) (config : Config) (channel : ℕ)
    → let r = reconnect_or_create m (some cid) config channel in
      (get r.0 cid ≡ some r.1)
      × (((get m cid ≡ some r.1) × (r.2 ≡ none))
          ⊎ ((get m cid ≡ none)
              × (r.1 ≡ (Session.new cid config channel).0)
              × (r.2 ≡ some channel)))
unfolding get create_with_id Session.new
reconnect_or_create-get m cid config channel = elim (Option-cases (find m.sessions cid)) [
  | inl absent ↦
      subst (λ r. Result m cid config channel r)
        (sym (reconnect-absent m cid config channel absent))
        (
          rw (find-insert m.sessions cid (Session.new cid config channel).0 cid) (ground arith),
          inr (absent, refl, refl),
        )
  | inr (s, there) ↦
      subst (λ r. Result m cid config channel r)
        (sym (reconnect-existing m (some cid) config channel s there)) (there, inl (there, refl))
]
