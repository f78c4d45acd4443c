-- ===== src/Reliable/Sessions/Reachable.antt =====
-- The managers of session.rs that its operations reach.
use b.Prelude.{
  ℕ, ◌≡◌, refl, true, false, List, [], ◌∷◌, Option, none, some, ◌==◌, if◌then◌else◌, Bool-cases,
  Option-cases, inl, inr, arith,
}
use b.Reliable.Channel.State.{Config}
use b.Reliable.Sessions.Session.{Session}
use b.Reliable.Sessions.Session
use b.Reliable.Sessions.Manager.{
  Manager, Entries, find, delete, new, next_id, create, create_with_id, remove, existing, fresh,
  reconnect_or_create,
}
use b.Reliable.Sessions.Reconnect.{IsMap, insert-IsMap}

pub data Op : Type 0 where
  allocate : Op
  make : Config → ℕ → Op
  make_with_id : ℕ → Config → ℕ → Op
  connect : Option ℕ → Config → ℕ → Op
  drop : ℕ → Op

abbrev pub apply : Manager → Op → Manager
apply m Op.allocate = (next_id m).0
apply m (Op.make config channel) = (create m config channel).0
apply m (Op.make_with_id id config channel) = (create_with_id m id config channel).0
apply m (Op.connect client_id config channel) = (reconnect_or_create m client_id config channel).0
apply m (Op.drop id) = (remove m id).0

-- the manager after the operations, the last one first
abbrev pub run : List Op → Manager
run [] = new
run (op ∷ ops) = apply (run ops) op

pub find-delete_absent : (es : Entries) (i k : ℕ) → find es k ≡ none → find (delete es i) k ≡ none
find-delete_absent [] i k h = refl
find-delete_absent ((j, t) ∷ es) i k h = elim (Bool-cases (j == k)) [
  | inl hit ↦ absurd (found h hit)
  | inr miss ↦ elim (Bool-cases (j == i)) [
    | inl gone ↦ rw (gone) (rest miss)
    | inr kept ↦ rw (kept, miss) (find-delete_absent es i k (rest miss))
  ]
]
  where
    found : (if j == k then some t else find es k) ≡ none → (j == k) ≡ true → ⊥
    found e hit = ground (arith, e, hit)

    rest : (j == k) ≡ false → find es k ≡ none
    rest miss = ground (arith, h, miss)

pub delete-IsMap : (es : Entries) (i : ℕ) → IsMap es → IsMap (delete es i)
unfolding IsMap
delete-IsMap [] i v = v
delete-IsMap ((k, t) ∷ es) i v = elim (Bool-cases (k == i)) [
  | inl gone ↦ rw (gone) v.1
  | inr kept ↦ rw (kept) (find-delete_absent es i k v.0, delete-IsMap es i v.1)
]

apply-IsMap : (m : Manager) (op : Op) → IsMap m.sessions → IsMap (apply m op).sessions
unfolding next_id create create_with_id remove reconnect_or_create
apply-IsMap m Op.allocate v = v
apply-IsMap m (Op.make config channel) v =
    insert-IsMap m.sessions m.next (Session.new m.next config channel).0 v
apply-IsMap m (Op.make_with_id id config channel) v =
    insert-IsMap m.sessions id (Session.new id config channel).0 v
apply-IsMap m (Op.connect client_id config channel) v = elim (Option-cases (existing m client_id)) [
  | inl absent ↦ rw (apply, reconnect_or_create, absent) (made client_id)
  | inr (s, there) ↦ rw (apply, reconnect_or_create, there) v
]
  where
    made : (cid : Option ℕ) → IsMap (fresh m cid config channel).0.sessions
    made none = insert-IsMap m.sessions m.next (Session.new m.next config channel).0 v
    made (some id) = insert-IsMap m.sessions id (Session.new id config channel).0 v
apply-IsMap m (Op.drop id) v = elim (Option-cases (find m.sessions id)) [
  | inl absent ↦ rw (apply, remove, absent) v
  | inr (s, there) ↦ rw (apply, remove, there) (delete-IsMap m.sessions id v)
]

-- Whatever operations a new manager goes through, it has at most one entry for each number.
run-IsMap : (ops : List Op) → IsMap (run ops).sessions
unfolding new IsMap
run-IsMap [] = tt
run-IsMap (op ∷ ops) = apply-IsMap (run ops) op (run-IsMap ops)
