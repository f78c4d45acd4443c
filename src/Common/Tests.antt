-- ===== src/Common/Tests.antt =====
-- Tests of the shared parts.
use b.Prelude.{◌+◌, ◌*◌, ◌/◌, ◌<◌, arith}
use b.Common.Limits.{server_body_limit, encoded_buffer_fits}

encoded_buffer_fits_example : (1000 + 2) / 3 * 4 + 1024 < server_body_limit
encoded_buffer_fits_example = encoded_buffer_fits 1000 (omega arith)
