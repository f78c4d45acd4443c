-- ===== src/Reliable/Sessions/Manager.antt =====
-- `SessionManager` of crates/b3-reliable/src/session.rs. The map is a list of its entries, and an
-- insertion replaces the entry of the same key.
use b.Prelude.{
  ℕ, ◌+◌, ◌%◌, List, [], ◌∷◌, Option, none, some, map, length, leb, ◌==◌, if◌then◌else◌, u64_mod,
}
use b.Reliable.Channel.State.{Config}
use b.Reliable.Sessions.Session.{Session, destroy}
use b.Reliable.Sessions.Session

abbrev pub Entries : Type 0
Entries = List (ℕ × Session)

pub record Manager : Type 0 where
  pub sessions : Entries
  pub next : ℕ

unfoldable pub new : Manager
new = record { sessions = []; next = 1 }

-- `fetch_add`, which wraps around.
unfoldable pub next_id : Manager → Manager × ℕ
next_id m = (record m { next = (m.next + 1) % u64_mod }, m.next)

abbrev pub find : Entries → ℕ → Option Session
find [] id = none
find ((k, s) ∷ es) id = if k == id then some s else find es id

abbrev pub insert : Entries → ℕ → Session → Entries
insert [] id s = (id, s) ∷ []
insert ((k, t) ∷ es) id s = if k == id then (id, s) ∷ es else (k, t) ∷ insert es id s

abbrev pub delete : Entries → ℕ → Entries
delete [] id = []
delete ((k, t) ∷ es) id = if k == id then es else (k, t) ∷ delete es id

-- A session of that number; the channel is fresh.
unfoldable pub create_with_id : Manager → ℕ → Config → ℕ → Manager × Session × ℕ
create_with_id m id config channel =
    let (s, rx) = Session.new id config channel in
    (record m { sessions = insert m.sessions id s }, s, rx)

unfoldable pub create : Manager → Config → ℕ → Manager × Session × ℕ
create m config channel = let (n, id) = next_id m in create_with_id n id config channel

unfoldable pub get : Manager → ℕ → Option Session
get m id = find m.sessions id

-- `max_by_key` of the standard library, which gives the last of equal maxima.
abbrev pub newest : Session → Entries → Session
newest s [] = s
newest s ((k, t) ∷ es) = newest (if leb s.id t.id then t else s) es

unfoldable pub most_recent : Manager → Option Session
most_recent m = elim m.sessions [ [] ↦ none | e ∷ es ↦ some (newest e.1 es) ]

unfoldable pub all_sessions : Manager → List Session
all_sessions m = map (λ e. e.1) m.sessions

-- The tasks that the removed session aborts are returned.
unfoldable pub remove : Manager → ℕ → Manager × List ℕ
remove m id = elim (find m.sessions id) [
  | none ↦ (m, [])
  | some s ↦ (record m { sessions = delete m.sessions id }, (destroy s).1)
]

abbrev pub existing : Manager → Option ℕ → Option Session
existing m (some cid) = get m cid
existing m none = most_recent m

-- A channel is returned exactly if the session is new.
abbrev pub created : Manager × Session × ℕ → Manager × Session × Option ℕ
created (m, s, rx) = (m, s, some rx)

abbrev pub fresh : Manager → Option ℕ → Config → ℕ → Manager × Session × ℕ
fresh m (some cid) config channel = create_with_id m cid config channel
fresh m none config channel = create m config channel

unfoldable pub reconnect_or_create : Manager → Option ℕ → Config → ℕ → Manager × Session × Option ℕ
reconnect_or_create m client_id config channel = elim (existing m client_id) [
  | some s ↦ (m, s, none)
  | none ↦ created (fresh m client_id config channel)
]

unfoldable pub count : Manager → ℕ
count m = length m.sessions

unfoldable pub ids : Manager → List ℕ
ids m = map (λ e. e.0) m.sessions
