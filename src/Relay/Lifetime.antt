-- ===== src/Relay/Lifetime.antt =====
-- How `handle_browser_ws` opens and leaves a session, and the task that removes it later. A session in the
-- map stands for all handles to it. Times are seconds; a task that waits is its session and the time at
-- which it wakes.
use b.Prelude.{ℕ, ◌+◌, List, [], ◌∷◌, ◌++◌, Option, none, some, leb, ◌==◌, if◌then◌else◌}
use b.Reliable.Channel.State.{default_config}
use b.Reliable.Multi.State.{
  Output, add_transport, remove_transport, has_transport, send_resume, sink_count,
}
use b.Reliable.Sessions.Session.{Session, start_bridge}
use b.Reliable.Sessions.Manager.{Manager, insert, get, remove, reconnect_or_create}

pub record Lifetime : Type 0 where
  pub manager : Manager
  pub timers : List (ℕ × ℕ)
  pub now : ℕ

-- Changes to the session, made through its handle.
abbrev pub put : Manager → Session → Manager
put m s = record m { sessions = insert m.sessions s.id s }

abbrev pub started : Option ℕ → ℕ → Session → Session
started none task s = s
started (some rx) task s = start_bridge s task

-- The socket's sink takes the place of the old one, and the browser is sent a resume frame.
unfoldable pub attach : Session → (handle : ℕ) → Session × List Output
attach s handle =
    let (without_old, out0) = remove_transport s.multi "ws" in
    let (multi, out1) = add_transport without_old "ws" 1 handle in
    (record s { multi = multi }, out0 ++ (out1 ++ send_resume multi))

-- What follows the choice of the session; `task` and `handle` are the fresh numbers that it may use.
unfoldable pub enter :
    Lifetime → (task handle : ℕ) → Manager × Session × Option ℕ → Lifetime × List Output
enter l task handle (m, found, rx) =
    let s = started rx task found in
    if has_transport s.multi "ws"
    then (record l { manager = put m s }, [])
    else (let (s1, out) = attach s handle in (record l { manager = put m s1 }, out))

unfoldable pub connect :
    Lifetime → (session_id : Option ℕ) → (channel task handle : ℕ) → Lifetime × List Output
connect l session_id channel task handle =
    enter l task handle (reconnect_or_create l.manager session_id default_config channel)

abbrev pub detached : Manager → Option Session → Manager
detached m none = m
detached m (some s) = put m (record s { multi = (remove_transport s.multi "ws").0 })

-- The end of the loop: the sink goes, and a task is left that wakes after five minutes.
unfoldable pub disconnect : Lifetime → ℕ → Lifetime
disconnect l client_id = record l {
  manager = detached l.manager (get l.manager client_id);
  timers = l.timers ++ ((client_id, l.now + 300) ∷ []);
}

abbrev pub elapse : Lifetime → ℕ → Lifetime
elapse l seconds = record l { now = l.now + seconds }

-- What the task does when it wakes.
unfoldable pub clean_up : Manager → ℕ → Manager
clean_up m client_id = elim (get m client_id) [
  | none ↦ m
  | some s ↦ if sink_count s.multi == 0 then (remove m client_id).0 else m
]

-- The tasks whose time has come wake, in their order.
unfoldable pub wake : (now : ℕ) → Manager → List (ℕ × ℕ) → Manager × List (ℕ × ℕ)
wake now m [] = (m, [])
wake now m ((id, due) ∷ ts) =
    let (m1, left) = wake now (if leb due now then clean_up m id else m) ts in
    (m1, if leb due now then left else (id, due) ∷ left)

unfoldable pub expire : Lifetime → Lifetime
expire l = let (m, left) = wake l.now l.manager l.timers in record l { manager = m; timers = left }
