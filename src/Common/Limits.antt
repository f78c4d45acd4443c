-- ===== src/Common/Limits.antt =====
-- The constants of crates/b3-common/src/limits.rs; durations are in nanoseconds.
use b.Prelude.{ℕ, ◌+◌, ◌*◌, ◌/◌, ◌≤◌, ◌<◌, arith}

abbrev pub max_buffer_bytes : ℕ
max_buffer_bytes = 262144

abbrev pub server_body_limit : ℕ
server_body_limit = 15728640

abbrev pub nanoseconds : ℕ
nanoseconds = 1000000000

abbrev pub sse_keepalive_interval : ℕ
sse_keepalive_interval = 15 * nanoseconds

abbrev pub sse_timeout : ℕ
sse_timeout = 60 * nanoseconds

abbrev pub min_push_interval : ℕ
min_push_interval = 100000000

abbrev pub failure_log_interval : ℕ
failure_log_interval = 50

abbrev pub max_delta_bytes : ℕ
max_delta_bytes = max_buffer_bytes

-- A terminal buffer of at most `max_buffer_bytes` bytes, in base64 with its padding and with 1024
-- bytes of JSON about it, is shorter than `server_body_limit`.
pub encoded_buffer_fits :
    (n : ℕ) → n ≤ max_buffer_bytes → (n + 2) / 3 * 4 + 1024 < server_body_limit
encoded_buffer_fits n h = omega arith
