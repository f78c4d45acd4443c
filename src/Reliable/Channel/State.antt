-- ===== src/Reliable/Channel/State.antt =====
-- The structs of crates/b3-reliable/src/channel.rs and the `Config` of lib.rs.
use b.Prelude.{ℕ, ◌*◌, Bool, true, false, List, [], Bytes}
use b.Reliable.Frame.{Priority, critical, best_effort}

pub record Config : Type 0 where
  pub max_send_buffer : ℕ
  pub ack_interval_ms : ℕ
  pub max_frame_payload : ℕ

-- `Config::default`
abbrev pub default_config : Config
default_config = record {
  max_send_buffer = 1000;
  ack_interval_ms = 100;
  max_frame_payload = 32 * 1024;
}

pub record BufferedMessage : Type 0 where
  pub seq : ℕ
  pub priority : Priority
  pub encoded : Bytes

pub record ReceivedMessage : Type 0 where
  pub payload : Bytes
  pub seq : ℕ
  pub priority : Priority

-- The fields of `ReliableChannel` but `start`, which the clock replaces, and `transport_tx`.
pub record Channel : Type 0 where
  pub config : Config
  pub session_id : ℕ
  pub next_seq : ℕ
  pub send_buffer : List BufferedMessage
  pub last_ack_received : ℕ
  pub last_contiguous : ℕ
  pub reorder_buffer : List (ℕ × ReceivedMessage)
  pub ack_pending : Bool
  pub chunk_assembly : Bytes
  pub duplicate_ack_count : ℕ

abbrev pub is_critical : Priority → Bool
is_critical critical = true
is_critical best_effort = false

unfoldable pub new : Config → Channel
new config = record {
  config = config;
  session_id = 0;
  next_seq = 1;
  send_buffer = [];
  last_ack_received = 0;
  last_contiguous = 0;
  reorder_buffer = [];
  ack_pending = false;
  chunk_assembly = [];
  duplicate_ack_count = 0;
}

unfoldable pub set_session_id : Channel → ℕ → Channel
set_session_id c id = record c { session_id = id }
