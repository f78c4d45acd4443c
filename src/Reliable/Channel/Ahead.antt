-- ===== src/Reliable/Channel/Ahead.antt =====
-- What an ACK of a number that is not used yet does to channel.rs.
use b.Reliable.Channel.State.{Channel}
