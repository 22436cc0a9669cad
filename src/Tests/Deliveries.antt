-- ===== src/Tests/Deliveries.antt =====
-- The theorems on the wire format and the NetworkManager at concrete inputs.
use adq.Common.{
  ℕ, ◌+◌, ◌<◌, ◌≤◌, ◌^◌, List, [], ◌∷◌, ◌++◌, map, true, false, none, some, ℤ, pos, length,
  length-append, replicate, length-replicate, ok, ◌≡◌, ◌≢◌, refl, arith,
}
use adq.Messages.{
  ValueContribution, SignedValue, MessageBody, enclosed, overlay_body, byte_body, signed_body,
}
use adq.Crypto.{rsa_encrypt, rsa_decrypt, encrypt_body}
use adq.Crypto.Openssl.{Openssl, crypto_library, encrypt_bytes}
use adq.Crypto.Sealing.{Opens, body_array, rsa_decrypt-rsa_encrypt}
use adq.Messages.{OverlayMessage}
use adq.Common.{undefined, Result, err}
use adq.Protocol.{OverlayTransportMessage}
use adq.Serialization.Bytes.{read_number}
use adq.Serialization.Bodies.{
  path_size, byte_body_size, aggregation_value_size, body_to_bytes, body_size, body_from_bytes,
}
use adq.Serialization.RoundTrip.{IsUnsigned}
use adq.Serialization.Sizes.{BodySized, overrun, length-body_to_bytes}
use adq.Serialization.Termination.{Finishes, body_from_bytes-Finishes}
use adq.Serialization.Envelopes.{
  Message, overlay_transport, aggregation, message_to_bytes, message_from_bytes, utility_node_id,
  message_size, transport_size, aggregation_size,
}
use adq.Serialization.Envelopes.RoundTrip.{TransportFits, message_from_bytes-message_to_bytes}
use adq.Network.Frames.{
  send_message, send_overlay_messages, receive_frame, messages_size, receive_message, receive_loop,
}
use adq.Network.Delivery.{receive_frame-send_overlay_messages, receive_frame-send}
use adq.Network.Utility.{receive_frame-send_to_utility}
use adq.Network.Connections.{
  size_read, no_connections, Event, accepted, size_arrived, body_arrived, written, sending,
  transferred, disconnected, run_events, run_event, handle_accept, accept_client, start_read,
  handle_size_read, handle_body_read, complete, handle_write_complete, initialize_socket, find_id,
  has_socket, emplace_socket, post_read, find_socket, erase_socket, take_read,
}
use adq.Network.Reads.{all_bodies, all_accepts, bodies_within_accepts}
use adq.Tests.Wires.{
  library, library-Finishes, reading_tuple, tuple-RoundTrips, record-RoundTrips, bytes-RoundTrips,
  path-RoundTrips,
}

-- An encrypted overlay message for 2 in one for 4 with the path 4, 2, on its way from 1 in round 6.
abbrev onion : OverlayTransportMessage ℕ
onion = record {
  sender_id = pos 1;
  sender_round = pos 6;
  is_final_message = true;
  body = record {
    query_num = pos 3;
    destination = pos 4;
    is_encrypted = false;
    flood = true;
    remaining_path = some (pos 4 ∷ pos 2 ∷ []);
    enclosed_body =
        enclosed (overlay_body (pos 3) (pos 2) true false none (enclosed (byte_body (9 ∷ 8 ∷ []))));
  };
}

onion_fits : TransportFits library onion
unfolding IsUnsigned
onion_fits = record {
  round = omega arith;
  sender = omega arith;
  unsigned =
      (omega arith, omega arith, path-RoundTrips, (omega arith, omega arith, _, bytes-RoundTrips));
}

message_from_bytes-message_to_bytes_example :
    message_from_bytes library (message_to_bytes library (overlay_transport onion) ++ 77 ∷ [])
    ≡ ok (some (overlay_transport onion))
message_from_bytes-message_to_bytes_example =
    message_from_bytes-message_to_bytes library (overlay_transport onion) onion_fits (77 ∷ [])

abbrev contribution : ValueContribution ℕ
contribution = record { value_tuple = reading_tuple; signature = replicate 256 7 }

abbrev front : List ℕ
front = replicate 252 1

abbrev back : List ℕ
back = replicate 4 2

-- A contribution signed by 5.
abbrev signed : SignedValue ℕ
signed = record { value = contribution; signatures = (pos 5, front ++ back) ∷ [] }

abbrev signed_message : MessageBody ℕ
signed_message = overlay_body (pos 3) (pos 2) false false none (enclosed (signed_body signed))

signature_whole : length (front ++ back) ≡ 256
signature_whole = simp (length-append, length-replicate)

signed_message_sized : BodySized library signed_message
unfolding BodySized
signed_message_sized = (_, (tuple-RoundTrips, (signature_whole, _)))

length-body_to_bytes_example :
    length (body_to_bytes library signed_message)
    ≡ body_size library signed_message + overrun library signed_message
length-body_to_bytes_example = length-body_to_bytes library signed_message signed_message_sized

body_from_bytes-Finishes_example : Finishes (body_from_bytes library 9 (0 ∷ 0 ∷ 3 ∷ 0 ∷ 0 ∷ []))
body_from_bytes-Finishes_example =
    body_from_bytes-Finishes library library-Finishes 9 (0 ∷ 0 ∷ 3 ∷ 0 ∷ 0 ∷ []) (omega arith)

onion_small : 8 + message_size library (overlay_transport onion) < 256 ^ 8
unfolding message_size transport_size body_size path_size byte_body_size
onion_small = omega arith

onions_small : 8 + messages_size library (map overlay_transport (onion ∷ onion ∷ [])) < 256 ^ 8
unfolding messages_size message_size transport_size body_size path_size byte_body_size
onions_small = omega arith

result_small : message_size library (aggregation (pos 7) (pos 3) (pos 0) 42) < 256 ^ 8
unfolding message_size aggregation_size aggregation_value_size
result_small = omega arith

receive_frame-send_overlay_messages_example :
    (frame : List ℕ) × (send_overlay_messages library (onion ∷ onion ∷ []) ≡ ok frame)
    × ((later : List ℕ)
        → receive_frame library (frame ++ later)
          ≡ ok (map overlay_transport (onion ∷ onion ∷ []), later))
receive_frame-send_overlay_messages_example =
    receive_frame-send_overlay_messages library (onion ∷ onion ∷ []) (onion_fits, (onion_fits, _))
      onions_small

receive_frame-send_example :
    (frame : List ℕ) × (send_message library (overlay_transport onion) (pos 4) ≡ ok frame)
    × ((later : List ℕ)
        → receive_frame library (frame ++ later) ≡ ok (overlay_transport onion ∷ [], later))
receive_frame-send_example =
    receive_frame-send library (overlay_transport onion) (pos 4) _ onion_fits refl onion_small

receive_frame-send_to_utility_example :
    (frame : List ℕ) × (send_message library
        (aggregation (pos 7) (pos 3) (pos 0) 42)
        utility_node_id
      ≡ ok frame)
    × ((later rest : List ℕ) (n q s : ℤ) (v : ℕ) (messages : List (Message ℕ))
        → receive_frame library (frame ++ later) ≢ ok (aggregation n q s v ∷ messages, rest))
receive_frame-send_to_utility_example =
    receive_frame-send_to_utility library (pos 7) (pos 0) 3 42
      (omega arith, omega arith, omega arith, record-RoundTrips) (omega arith) result_small

-- Meter 2 connects, and its first message is read, in the size of eight bytes that 8 is; the two
-- messages that follow it are not.
abbrev course : List Event
course =
    accepted (2, 80) 1
    ∷ size_arrived (pos 2) 1 (transferred (8 ∷ 0 ∷ 0 ∷ 0 ∷ 0 ∷ 0 ∷ 0 ∷ 0 ∷ []))
    ∷ body_arrived (pos 2) 1 (transferred (0 ∷ 0 ∷ 0 ∷ 0 ∷ 0 ∷ 0 ∷ 0 ∷ 0 ∷ []))
    ∷ sending (pos 2) 2
    ∷ written (pos 2) disconnected
    ∷ []

course_runs :
    run_events library (pos 2 ∷ []) (((2, 80), pos 2) ∷ []) course no_connections
    ≡ ok (record { sockets_by_id = []; reads = []; handed = [] })
unfolding run_events run_event handle_accept accept_client start_read post_read find_socket
    handle_size_read handle_body_read complete handle_write_complete initialize_socket find_id
    has_socket emplace_socket erase_socket take_read receive_message receive_loop read_number
course_runs = refl

-- A second connection of the same client: its socket is closed, and its read goes to the first.
abbrev again : List Event
again =
    accepted (2, 80) 1
    ∷ size_arrived (pos 2) 1 (transferred (8 ∷ 0 ∷ 0 ∷ 0 ∷ 0 ∷ 0 ∷ 0 ∷ 0 ∷ []))
    ∷ body_arrived (pos 2) 1 (transferred (0 ∷ 0 ∷ 0 ∷ 0 ∷ 0 ∷ 0 ∷ 0 ∷ 0 ∷ []))
    ∷ accepted (2, 80) 2
    ∷ []

again_runs :
    run_events library (pos 2 ∷ []) (((2, 80), pos 2) ∷ []) again no_connections
    ≡ ok
        (record { sockets_by_id = (pos 2, 1) ∷ []; reads = (pos 2, size_read 1) ∷ []; handed = [] })
unfolding run_events run_event handle_accept accept_client start_read post_read find_socket
    handle_size_read handle_body_read complete find_id has_socket emplace_socket take_read
    receive_message receive_loop read_number
again_runs = refl

bodies_within_accepts_example :
    all_bodies (pos 2) course ≤ all_accepts (((2, 80), pos 2) ∷ []) (pos 2) course
bodies_within_accepts_example =
    bodies_within_accepts library (pos 2 ∷ []) (((2, 80), pos 2) ∷ []) (pos 2) course no_connections
      course_runs

-- A cipher that puts a key in front.
abbrev locked : List ℕ → Result (List ℕ)
locked [] = err undefined
locked (key ∷ bytes) = ok bytes

abbrev openssl : Openssl
openssl = record {
  sign = λ bytes. bytes;
  verify = λ id bytes signature. ok true;
  encrypt = λ id bytes. ok (7 ∷ bytes);
  decrypt = locked;
  make_blind_message = λ bytes. bytes;
  unblind_signature = λ blinded bytes. blinded;
  verify_signature = λ bytes signature. true;
  sign_blinded = λ bytes. bytes;
}

openssl_opens : Opens library openssl openssl (pos 4)
openssl_opens bytes sealed e = let closed : 7 ∷ bytes ≡ sealed = cc e in rw (← closed) refl

abbrev inner : MessageBody ℕ
inner = overlay_body (pos 3) (pos 2) true false none (enclosed (byte_body (9 ∷ 8 ∷ [])))

inner-IsUnsigned : IsUnsigned library inner
unfolding IsUnsigned
inner-IsUnsigned = (omega arith, omega arith, _, bytes-RoundTrips)

abbrev sealed_onion : OverlayMessage ℕ
sealed_onion = record onion.body {
  is_encrypted = true;
  enclosed_body = enclosed (byte_body (7 ∷ body_to_bytes library inner));
}

onion_encrypted : rsa_encrypt (crypto_library library openssl) onion.body (pos 4) ≡ ok sealed_onion
unfolding rsa_encrypt encrypt_body crypto_library encrypt_bytes
onion_encrypted = rw (body_array library openssl openssl (pos 4) inner inner-IsUnsigned) refl

rsa_decrypt-rsa_encrypt_example :
    rsa_decrypt (crypto_library library openssl) sealed_onion
    ≡ ok (record onion.body { is_encrypted = false })
unfolding IsUnsigned
rsa_decrypt-rsa_encrypt_example =
    rsa_decrypt-rsa_encrypt library openssl openssl (pos 4) onion.body sealed_onion openssl_opens
      inner-IsUnsigned onion_encrypted
