-- ===== src/Daemon/Terminal.antt =====
-- The terminal of crates/b3-cli/src/daemon/web.rs: `spawn_local_pusher` keeps the newest output of the
-- PTY in a `SessionStore`, and each viewer asks it for what is new with `delta_msg`.
-- The encoder of base64 is a parameter. Locks, counters and the events that wake the viewers are left out;
-- when the PTY closes, there are no more rounds.
pub mod Buffer
pub mod Follow
pub mod Whole
mod Tests
use b.Prelude.{
  ℕ, ◌+◌, ◌-◌, ◌*◌, ◌%◌, min, List, [], ◌∷◌, ◌++◌, Option, none, some, length, is_empty, drop, ltb,
  leb, if◌then◌else◌, Bytes, u64_mod,
}
use b.Common.Limits.{max_buffer_bytes}

pub record SessionBuffer : Type 0 where
  pub terminal_data : Bytes
  pub rows : ℕ
  pub cols : ℕ
  pub write_offset : ℕ

-- `SessionStore`
abbrev pub Store : Type 0
Store = Option SessionBuffer

abbrev pub new : Store
new = none

unfoldable pub update : Store → Bytes → (rows cols write_offset : ℕ) → Store
update store raw_bytes rows cols write_offset =
    some
      (record { terminal_data = raw_bytes; rows = rows; cols = cols; write_offset = write_offset })

abbrev pub get : Store → Option SessionBuffer
get store = store

-- the local variables of the pusher
pub record Pusher : Type 0 where
  pub accumulated : Bytes
  pub write_offset : ℕ

abbrev pub started : Pusher
started = record { accumulated = []; write_offset = 0 }

unfoldable pub append : Pusher → Bytes → Pusher
append p bytes = record {
  accumulated = p.accumulated ++ bytes;
  write_offset = (p.write_offset + length bytes) % u64_mod;
}

-- What the receiver of the broadcast channel returns: a message, or the number of those that were missed.
pub data Recv : Type 0 where
  received : Bytes → Recv
  lagged : ℕ → Recv

-- The loop over what `try_recv` returns. It ends where the queue is empty or closed, which is the end of the
-- list, and also where messages were missed; `recv` gets what comes later in another round.
unfoldable pub gather : Pusher → List Recv → Pusher
gather p [] = p
gather p (received bytes ∷ more) = gather (append p bytes) more
gather p (lagged n ∷ more) = p

unfoldable pub cap : Bytes → Bytes
cap accumulated =
    if ltb max_buffer_bytes (length accumulated)
    then drop (length accumulated - max_buffer_bytes) accumulated
    else accumulated

-- The end of a round of the loop.
unfoldable pub publish : Pusher → Store → (rows cols : ℕ) → Pusher × Store
publish p store rows cols = if is_empty p.accumulated then (p, store) else (
  record p { accumulated = cap p.accumulated },
  update store (cap p.accumulated) rows cols p.write_offset,
)

-- A round of the loop, by what `recv` returns, and `try_recv` after it. Where messages were missed the round
-- ends at once.
unfoldable pub push : Pusher → Store → Recv → List Recv → (rows cols : ℕ) → Pusher × Store
push p store (received bytes) more rows cols =
    publish (gather (append p bytes) more) store rows cols
push p store (lagged n) more rows cols = (p, store)

-- The JSON of `delta_msg`.
pub data Msg (Text : Type 0) : Type 0 where
  delta : Text → Msg Text
  full : Text → (rows cols : ℕ) → Msg Text

abbrev pub max_delta_cap : ℕ
max_delta_cap = 256 * 1024

module _ {Text : Type 0} (encode : Bytes → Text) where
  -- The last `n` bytes, in base64.
  abbrev pub tail_text : ℕ → Bytes → Text
  tail_text n raw = encode (drop (length raw - n) raw)

  unfoldable pub message : SessionBuffer → (new_bytes : ℕ) → Msg Text
  message buf new_bytes =
      if leb new_bytes (length buf.terminal_data)
      then delta (tail_text (min new_bytes max_delta_cap) buf.terminal_data)
      else full (tail_text (min max_delta_cap (length buf.terminal_data)) buf.terminal_data)
          buf.rows buf.cols

  unfoldable pub delta_msg : Store → (prev_offset : ℕ) → Option (Msg Text × ℕ)
  delta_msg none prev_offset = none
  delta_msg (some buf) prev_offset =
      if leb buf.write_offset prev_offset
      then none
      else some (message buf (buf.write_offset - prev_offset), buf.write_offset)

  -- `send_init_frame` of ec2_proxy.rs: the text, the size and the offset from which deltas follow.
  unfoldable pub init_frame : Store → Option (Text × ℕ × ℕ × ℕ)
  init_frame none = none
  init_frame (some buf) = some (encode buf.terminal_data, buf.rows, buf.cols, buf.write_offset)
