-- ===== src/Relay/Tests.antt =====
-- Tests of the relay: two sessions, and a session with a worker whose ciphers leave a text as it is.
use text.Mathlib.Text.{◌==◌ as str_eq}
use b.Prelude.{
  ℕ, Bool, ◌≡◌, ◌⊎◌, refl, true, false, List, [], ◌∷◌, ◌++◌, none, some, replicate, arith, Bytes,
  Text, chars, is_whitespace, starts_with, contains, same, some_inj, true-false, sym, ap, is_utf8,
  from_utf8, trim_start, as_bytes, if◌then◌else◌,
}
use b.Reliable.Frame.{critical, encode_data, decode, decode_data, crc32}
use b.Reliable.Frame.Tests.{digest}
use b.Reliable.Channel.State.{new, default_config}
use b.Reliable.Channel.Receiver as Receiver
use b.Reliable.Encrypted.Channel.{
  Crates, EncryptedChannel, ready, handshaking, is_ready, disarmed, decrypt_frame, receive_in,
  receive_plain, around, transmit_all,
}
use b.Reliable.Encrypted.Channel as Encrypted
use b.Reliable.Sessions.Manager.{Manager, create}
use b.Reliable.Sessions.Manager as Sessions
use b.Reliable.Sessions.Session.{Session}
use b.Reliable.Sessions.Session as OneSession
use b.Relay.Messages.{
  extract_from, keys, after_key, strip, has_type, before, string_value, extract_msg_id,
  is_final_response,
}
use b.Relay.Extract.{absent_in, field_value, extract_from-string}
use b.Relay.Routing.{route_response, read_framed, lookup, prefix_match}
use b.Relay.Pending.{
  Event, response, framed, after_events, read_framed-route_response, route_response-unknown,
  route_response-prefix,
}
use b.Relay.Session.{
  GpuSession, Effects, receive_all, handle_session_frame, relay, flush, send_all, forward_all,
  forward_one,
}
use b.Relay.Lifetime.{Lifetime, put, attach, connect, disconnect, elapse, expire}
use b.Relay.Expiry.{IsSession, expire-keeps, expire-idle, expire-early}
use b.Reliable.Sessions.Reconnect.{IsMap}
use b.Reliable.Multi.State.{
  add_transport, remove_transport, sort_by_priority, insert_by_priority, without, sink_count,
  set_session_id,
}
use b.Reliable.Multi.State as Multi
use b.Relay.Forwarding.{
  passed, worker, Forwards, handle_session_frame-unconnected, handle_session_frame-Forwards,
}

extract_from-string_example :
    extract_from keys
      (chars "{" ++ (chars "\"job_id\"" ++ field_value [] (32 ∷ []) (chars "j1") (chars "}")))
    ≡ some (chars "j1")
unfolding is_whitespace absent_in starts_with
extract_from-string_example =
    extract_from-string [] (chars "\"stream_id\"" ∷ chars "\"msg_id\"" ∷ []) 34 (chars "job_id\"")
      (chars "{") [] (32 ∷ []) tt (refl, tt) (chars "j1") (chars "}") refl tt (refl, (refl, tt))

abbrev ask : Text
ask = chars "{\"msg_id\":\"ab\"}"

abbrev answer : Bytes
answer = as_bytes "{\"msg_id\":\"ab\",\"type\":\"chunk\"}"

-- the manager with a session of number 1, whose queue is 7
abbrev one : Manager × Session × ℕ
one = create Sessions.new default_config 7

abbrev others : List Event
others = framed 2 (chars "{\"msg_id\":\"xy\"}") ∷ response answer ∷ []

differ : some (chars "xy") ≡ some (chars "ab") → ⊥
unfolding same
differ h = true-false (ap (λ t. same t (chars "ab")) (sym (some_inj h)))

read_framed-route_response_example :
    (route_response one.0 (after_events (read_framed [] 1 ask).0 others) answer critical).1
    ≡ record { queue = 7; payload = answer; priority = critical } ∷ []
unfolding create Sessions.create_with_id Sessions.next_id Sessions.new Sessions.get OneSession.new
    extract_from after_key starts_with string_value strip trim_start before is_whitespace
    extract_msg_id is_utf8 from_utf8 has_type contains read_framed is_final_response
read_framed-route_response_example =
    read_framed-route_response one.0 critical answer (chars "ab") refl [] 1 ask others one.1 refl
      refl (λ h. absurd (differ h), (λ h. refl, tt)) refl

-- The worker's answer to a job that nobody waits for.
route_response-unknown_example : (route_response one.0 ((chars "b", 1) ∷ []) answer critical).1 ≡ []
unfolding extract_from after_key starts_with string_value strip trim_start before is_whitespace
    extract_msg_id is_utf8 from_utf8
route_response-unknown_example =
    route_response-unknown one.0 critical answer (chars "ab") refl ((chars "b", 1) ∷ []) (refl, tt)

-- An answer to the job `ab`, while the session 1 waits for the job `a`.
route_response-prefix_example :
    route_response one.0 ((chars "a", 1) ∷ []) answer critical
    ≡ ((chars "a", 1) ∷ [], record { queue = 7; payload = answer; priority = critical } ∷ [])
unfolding create Sessions.create_with_id Sessions.next_id Sessions.new Sessions.get OneSession.new
    extract_from after_key starts_with string_value strip trim_start before is_whitespace
    extract_msg_id is_utf8 from_utf8 lookup prefix_match same
route_response-prefix_example =
    route_response-prefix one.0 critical answer (chars "ab") refl [] [] (chars "a") (chars "b") 1
      one.1 refl refl tt refl

-- A session that is in the map, without sinks, and the task of its first disconnect, which wakes at 310.
abbrev asleep : Lifetime
asleep = record { manager = one.0; timers = (1, 310) ∷ []; now = 305 }

asleep-IsSession : IsSession asleep.manager one.1
unfolding create Sessions.create_with_id Sessions.next_id Sessions.new Sessions.get OneSession.new
    IsMap
asleep-IsSession = ((refl, tt), refl)

-- A browser comes at 305, leaves at 307, and at 310 its session is gone.
expire-early_example :
    Sessions.get
      (expire (
        elapse
          (disconnect (elapse (connect asleep (some (one.1).id) 8 20 30).0 2) (one.1).id)
          3)).manager
      (one.1).id
    ≡ none
unfolding create Sessions.create_with_id Sessions.next_id Sessions.new OneSession.new set_session_id
    Multi.new
expire-early_example = expire-early asleep one.1 310 2 3 8 20 30 [] asleep-IsSession refl refl refl

expire-idle_example :
    Sessions.get (expire (elapse (disconnect asleep (one.1).id) 301)).manager (one.1).id ≡ none
unfolding create Sessions.create_with_id Sessions.next_id Sessions.new OneSession.new
    remove_transport without set_session_id Multi.new
expire-idle_example = expire-idle asleep one.1 301 asleep-IsSession refl (omega arith)

-- The same session with the sink of a browser, when the task wakes.
abbrev awake : Lifetime
awake = record { manager = put one.0 (attach one.1 30).0; timers = (1, 310) ∷ []; now = 310 }

expire-keeps_example : Sessions.get (expire awake).manager 1 ≡ some (attach one.1 30).0
unfolding create Sessions.create_with_id Sessions.next_id Sessions.new Sessions.get OneSession.new
    attach add_transport remove_transport sink_count sort_by_priority without insert_by_priority
    set_session_id Multi.new
expire-keeps_example = expire-keeps awake 1 (attach one.1 30).0 refl refl

abbrev toy : Crates Bytes
toy = record {
  hash = digest;
  from_slice = λ b. some b;
  get_str = λ v field. if str_eq field "type" then some "handshake" else some "BQ==";
  base64_decode = λ t. some (5 ∷ replicate 31 0);
  base64_encode = λ b. "";
  public_key = λ s. replicate 32 0;
  diffie_hellman = λ s t. [];
  hkdf_expand = λ salt ikm info len. some (replicate len 0);
  encrypt = λ key nonce p. some p;
  decrypt = λ key nonce c. some c;
}

abbrev waiting : GpuSession
waiting = record {
  enc = record {
    state = handshaking;
    long_term_secret = [];
    long_term_pub = [];
    inner = new default_config;
    send_state = disarmed;
    recv_cipher = none;
    version = none;
  };
  outer_rc = new default_config;
  gpu_writer = none;
  gpu_reader = none;
}

abbrev clock : ℕ → ℕ
clock i = 0

-- A handshake, when no worker can be reached.
handle_session_frame-unconnected_example :
    (s1 : GpuSession) × (e : Effects) × (handle_session_frame toy waiting clock none (λ j. true) []
      ≡ some (s1, e))
    × (((w : ℕ) × (s1.gpu_writer ≡ some w)) ⊎ ((s1 ≡ waiting) × (e.to_browser ≡ [])))
unfolding is_ready
handle_session_frame-unconnected_example =
    handle_session_frame-unconnected toy waiting clock (λ j. true) [] none refl

abbrev talking : GpuSession
talking = record waiting {
  enc = record waiting.enc { state = ready; recv_cipher = some [] };
  gpu_writer = some 3;
  gpu_reader = some 4;
}

-- A sealed frame, in which there is a frame of the outer channel with the message 9.
abbrev sealed : Bytes
sealed =
    replicate 12 0
    ++ encode_data digest 1 0 critical (0 ∷ encode_data digest 1 0 critical (0 ∷ 9 ∷ []))

-- Its message is lost when the send fails, and the worker is given up.
abbrev lossy : ℕ → Bool
lossy j = false

abbrev after_loss : GpuSession
after_loss = worker false (passed toy talking clock lossy sealed)

abbrev loss : Effects
loss = record {
  to_browser = (Encrypted.receive toy talking.enc clock sealed).1;
  to_gpu = [];
  aborted = 4 ∷ [];
}

handle_session_frame-Forwards_example : Forwards toy talking clock lossy sealed after_loss loss 3
unfolding is_ready receive_all Encrypted.receive receive_in receive_plain decrypt_frame around
    transmit_all Receiver.receive Receiver.dispatch Receiver.receive_data Receiver.accept_next
    Receiver.process_chunk Receiver.assemble Receiver.drain decode decode_data encode_data crc32 new
    worker handle_session_frame relay flush send_all forward_all forward_one
handle_session_frame-Forwards_example =
    handle_session_frame-Forwards toy talking clock lossy sealed none 3 after_loss loss refl refl
      refl
