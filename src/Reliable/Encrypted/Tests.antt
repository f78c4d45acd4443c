-- ===== src/Reliable/Encrypted/Tests.antt =====
-- Tests of crypto.rs with a cipher that puts sixteen zeros before the plaintext.
use text.Mathlib.Text.{◌==◌ as str_eq}
use b.Prelude.{
  true, ◌+◌, ◌≡◌, refl, sym, ◌∙◌, ap, List, [], ◌∷◌, ◌++◌, none, some, map, length, drop, replicate,
  get_or, length-append, some_inj, Bytes, if◌then◌else◌, inl, inr, arith, ◌>>=◌,
}
use b.Reliable.Frame.{encode_data, decode, decode_data, crc32}
use b.Reliable.Frame.Tests.{digest, digest_u32}
use b.Reliable.Channel.State.{new as inner_new, ReceivedMessage}
use b.Reliable.Channel.Receiver as Receiver
use b.Reliable.Channel.Tests.{
  small, clock, clocks, messages, sent, send_all-messages, after, f1, f2, f3,
}
use b.Reliable.Encrypted.Channel.{
  Crates, ready, handshaking, EncryptedChannel, new, is_ready, around, transmit, transmit_all, wire,
  counter_nonce, browser_pub, pubkey_text, session_keys, derived, establish, handle_handshake,
  receive, receive_in, decrypt_frame, disarmed, reset_for_reconnect, receive_plain,
}
use b.Reliable.Encrypted.Sealing.{AeadLaws, Distinct}
use b.Reliable.Encrypted.Handshake.{
  Event, received, reconnected, live, step, receive-reset_for_reconnect,
}
use b.Reliable.Encrypted.Refinement.{
  run, inner_call, sealed_call, opened, sealed, run-refines, run-Distinct,
}
use b.Reliable.Encrypted.EndToEnd.{sends, receives, run-sends, sealed-delivered}

abbrev zeros : Bytes
zeros = replicate 16 0

-- A "handshake" names the key whose first byte is 5; Diffie-Hellman adds the first bytes.
abbrev toy : Crates Bytes
toy = record {
  hash = digest;
  from_slice = λ b. some b;
  get_str = λ v field. if str_eq field "type" then some "handshake" else some "BQ==";
  base64_decode = λ t. some (5 ∷ replicate 31 0);
  base64_encode = λ b. "";
  public_key = λ s. (get_or s 0 0) ∷ replicate 31 0;
  diffie_hellman = λ s t. (get_or s 0 0 + get_or t 0 0) ∷ [];
  hkdf_expand = λ salt ikm info len. some (replicate len (get_or ikm 0 0));
  encrypt = λ key nonce p. some (zeros ++ p);
  decrypt = λ key nonce c. some (drop 16 c);
}

toy_laws : AeadLaws toy
toy_laws = record {
  decrypts = λ key nonce p c e. ap (λ d. some (drop 16 d)) (sym (some_inj e));
  tagged = λ key nonce p c e. ap length (sym (some_inj e)) ∙ length-append zeros p ∙ omega arith;
  encrypts = λ key nonce p h. (zeros ++ p, refl);
}

abbrev key : Bytes
key = 7 ∷ []

-- a new channel
abbrev base : EncryptedChannel
base = record {
  state = handshaking;
  long_term_secret = 9 ∷ [];
  long_term_pub = 9 ∷ replicate 31 0;
  inner = inner_new small;
  send_state = disarmed;
  recv_cipher = none;
  version = none;
}

-- the two ends of a session, with the key of one direction
abbrev from : EncryptedChannel
from = record base { state = ready; send_state = record { cipher = some key; counter = 0 } }

abbrev to : EncryptedChannel
to = record base { state = ready; recv_cipher = some key }

abbrev w1 : Bytes
w1 = counter_nonce 1 ++ (zeros ++ f1)

abbrev w2 : Bytes
w2 = counter_nonce 2 ++ (zeros ++ f2)

abbrev w3 : Bytes
w3 = counter_nonce 3 ++ (zeros ++ f3)

abbrev wires : List Bytes
wires = w1 ∷ w2 ∷ w3 ∷ []

abbrev from1 : EncryptedChannel
from1 = record from { inner = after; send_state = record { cipher = some key; counter = 3 } }

inner-sends :
    run (inner_call toy) (inner_new small) (map (opened toy none) (sends clocks 0 messages))
    ≡ some (after, sent, [])
inner-sends =
    run-sends toy (inner_new small) none clocks 0 messages
    ∙ ap (λ r. r >>= (λ r. some (r.0, r.1, []))) send_all-messages

sealed-sends : run (sealed_call toy) from (sends clocks 0 messages) ≡ some (from1, wires, [])
unfolding sealed around transmit_all transmit wire
sealed-sends =
    run-refines toy from (sends clocks 0 messages) refl
    ∙ ap (λ r. r >>= sealed toy from) inner-sends

-- what arrives: bytes that are too short, and the frames in another order, one of them twice
abbrev arrived : List Bytes
arrived = (9 ∷ []) ∷ w3 ∷ w1 ∷ w3 ∷ w2 ∷ []

sealed-delivered_example :
    (to1 : EncryptedChannel) × (acks : List Bytes) × (out : List ReceivedMessage) × (run
        (sealed_call toy)
        to
        (receives clock arrived)
      ≡ some (to1, acks, out))
    × (map (λ m. m.payload) out ≡ map (λ m. m.0) messages)
unfolding decrypt_frame
sealed-delivered_example =
    sealed-delivered toy toy_laws digest_u32 from to from1 key small small clocks clock messages
      after sent wires arrived [] refl refl refl refl refl refl (omega arith) send_all-messages
      (omega arith) sealed-sends
      (
        inl tt,
        (
          inr (inr (inr (inl refl))),
          (inr (inl refl), (inr (inr (inr (inl refl))), (inr (inr (inl refl)), tt))),
        ),
      )
      (inr (inr (inl refl)), (inr (inr (inr (inr (inl refl)))), (inr (inl refl), tt)))

run-refines_example :
    run (sealed_call toy) from (sends clocks 0 messages)
    ≡ run (inner_call toy) (inner_new small) (map (opened toy none) (sends clocks 0 messages))
      >>= sealed toy from
run-refines_example = run-refines toy from (sends clocks 0 messages) refl

run-Distinct_example : Distinct wires
run-Distinct_example =
    run-Distinct toy from from1 after key (sends clocks 0 messages) sent wires [] [] refl refl
      inner-sends sealed-sends (omega arith)

-- A handshake, a message from the browser, and a reset.
abbrev events : List Event
events = received clock (1 ∷ []) ∷ received clock w1 ∷ reconnected ∷ received clock (2 ∷ []) ∷ []

abbrev okm : Bytes
okm = replicate 64 14

abbrev ended : EncryptedChannel
ended = record base {
  state = ready;
  recv_cipher = some (replicate 32 14);
  send_state = record { cipher = some (replicate 32 14); counter = 0 };
}

events-ended : live toy (new toy small (9 ∷ [])) events ≡ some ended
unfolding new live step receive receive_in handle_handshake derived browser_pub pubkey_text
    session_keys establish decrypt_frame reset_for_reconnect receive_plain inner_new Receiver.reset
    counter_nonce encode_data around Receiver.receive Receiver.dispatch decode decode_data crc32
    Receiver.receive_data Receiver.drain Receiver.accept_next Receiver.process_chunk
events-ended = refl

abbrev first : EncryptedChannel
first = (receive toy base clock (1 ∷ [])).0

receive-reset_for_reconnect_example :
    let again = (receive toy (reset_for_reconnect first) clock (1 ∷ [])).0 in
    (is_ready again ≡ true)
    × ((key : Bytes) × (again.send_state ≡ record { cipher = some key; counter = 0 })
        × (first.send_state ≡ record { cipher = some key; counter = 0 }))
    × (again.recv_cipher ≡ first.recv_cipher)
unfolding receive receive_in handle_handshake derived browser_pub pubkey_text session_keys establish
    is_ready
receive-reset_for_reconnect_example =
    receive-reset_for_reconnect toy base first clock clock (1 ∷ []) refl refl refl
