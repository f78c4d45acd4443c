-- ===== src/Reliable/Sessions/Session.antt =====
-- `Session` of crates/b3-reliable/src/session.rs. A spawned task is its number, and so is a
-- backend channel, whose two ends are one. An operation that aborts tasks returns them.
use b.Prelude.{ℕ, Bool, false, List, [], ◌∷◌, ◌++◌, Option, none, some}
use b.Reliable.Channel.State.{Config}
use b.Reliable.Multi.State.{Multi}
use b.Reliable.Multi.State as Transport

pub record Session : Type 0 where
  pub id : ℕ
  pub multi : Multi
  pub sent_offset : ℕ
  pub rtc_active : Bool
  pub backend_tx : ℕ
  pub bridge_task : Option ℕ
  pub event_task : Option ℕ

-- `channel` is the fresh channel; its receiving end is returned with the session.
unfoldable pub new : ℕ → Config → ℕ → Session × ℕ
new id config channel = (
  record {
    id = id;
    multi = Transport.set_session_id (Transport.new config) id;
    sent_offset = 0;
    rtc_active = false;
    backend_tx = channel;
    bridge_task = none;
    event_task = none;
  },
  channel,
)

-- `take` of the task, if one is there, and its abort.
abbrev pub aborted : Option ℕ → List ℕ
aborted none = []
aborted (some t) = t ∷ []

-- The handle that was there is dropped, which leaves its task running.
unfoldable pub start_bridge : Session → ℕ → Session
start_bridge s task = record s { bridge_task = some task }

unfoldable pub restart_bridge : Session → ℕ → ℕ → Session × List ℕ
restart_bridge s channel task =
    (record s { bridge_task = some task; backend_tx = channel }, aborted s.bridge_task)

unfoldable pub set_event_task : Session → ℕ → Session × List ℕ
set_event_task s task = (record s { event_task = some task }, aborted s.event_task)

unfoldable pub destroy : Session → Session × List ℕ
destroy s = (
  record s { bridge_task = none; event_task = none },
  aborted s.bridge_task ++ aborted s.event_task,
)
