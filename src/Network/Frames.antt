-- ===== src/Network/Frames.antt =====
-- The bytes that NetworkManager's send methods write, and receive_message.
use adq.Common.{
  ℕ, zero, suc, ◌+◌, ◌-◌, List, [], ◌∷◌, ◌++◌, map, Bool, Option, none, some, ℤ, ◌==ℤ◌, length,
  replicate, if◌then◌else◌, leb, Result, ok, err, undefined, ◌>>=◌,
}
use adq.Protocol.{OverlayTransportMessage}
use adq.Serialization.Bytes.{number_to_bytes, read_number, read_bytes, drop}
use adq.Serialization.Bodies.{Library}
use adq.Serialization.Envelopes.{
  utility_node_id, Message, overlay_transport, ping, aggregation, query_request, signature_request,
  signature_response, message_to_bytes, message_size, message_from_bytes, ping_to_bytes,
}

-- A send buffer: the size of what follows, as a std::size_t, and that many bytes, which are zero
-- where nothing is written. To write beyond the buffer is undefined.
unfoldable pub write_frame : ℕ → List ℕ → Result (List ℕ)
write_frame send_size content =
    if leb (length content) send_size
    then ok (number_to_bytes 8 send_size ++ (content ++ replicate (send_size - length content) 0))
    else err undefined

-- The buffer of a ping has the size of a std::size_t, which is also the size that is written.
unfoldable pub send_ping : ℤ → Bool → Result (List ℕ)
send_ping sender_id is_response =
    let content =
      number_to_bytes 8 8 ++ (number_to_bytes 8 1 ++ ping_to_bytes sender_id is_response) in
    if leb (length content) 8 then ok content else err undefined

module _ {R : Type 0} (lib : Library R) where
  unfoldable pub messages_size : List (Message R) → ℕ
  messages_size [] = 0
  messages_size (m ∷ messages) = message_size lib m + messages_size messages

  unfoldable pub messages_to_bytes : List (Message R) → List ℕ
  messages_to_bytes [] = []
  messages_to_bytes (m ∷ messages) = message_to_bytes lib m ++ messages_to_bytes messages

  -- The number of messages, and the messages.
  unfoldable pub send_counted : List (Message R) → Result (List ℕ)
  send_counted messages =
      write_frame (8 + messages_size messages)
        (number_to_bytes 8 (length messages) ++ messages_to_bytes messages)

  unfoldable pub send_overlay_messages : List (OverlayTransportMessage R) → Result (List ℕ)
  send_overlay_messages messages = send_counted (map overlay_transport messages)

  -- No number of messages for the utility.
  unfoldable pub send_to_utility : Message R → Result (List ℕ)
  send_to_utility m = write_frame (message_size lib m) (message_to_bytes lib m)

  unfoldable pub send_aggregation : Message R → ℤ → Result (List ℕ)
  send_aggregation m recipient_id =
      if recipient_id ==ℤ utility_node_id then send_to_utility m else send_counted (m ∷ [])

  -- The overloads of `send`.
  unfoldable pub send_message : Message R → ℤ → Result (List ℕ)
  send_message (overlay_transport m) recipient_id = send_overlay_messages (m ∷ [])
  send_message (ping sender_id is_response) recipient_id = send_ping sender_id is_response
  send_message (aggregation n query_num sender_id v) recipient_id =
      send_aggregation (aggregation n query_num sender_id v) recipient_id
  send_message (query_request q) recipient_id = send_counted (query_request q ∷ [])
  send_message (signature_request sender_id bytes) recipient_id =
      send_to_utility (signature_request sender_id bytes)
  send_message (signature_response sender_id bytes) recipient_id =
      send_counted (signature_response sender_id bytes ∷ [])

  -- A message goes to its handler, and the buffer moves past it; a message of an invalid type is
  -- dropped, and the buffer stays.
  unfoldable pub receive_next :
      (List ℕ → Result (List (Message R))) → List ℕ → Option (Message R) → Result (List (Message R))
  receive_next receive buffer none = receive buffer
  receive_next receive buffer (some m) = do
    messages ← receive (drop (message_size lib m) buffer)
    ok (m ∷ messages)

  unfoldable pub receive_loop : ℕ → List ℕ → Result (List (Message R))
  receive_loop zero buffer = ok []
  receive_loop (suc n) buffer = do
    m ← message_from_bytes lib buffer
    receive_next (receive_loop n) buffer m

  -- receive_message: the messages that are handed to handle_message, in order.
  unfoldable pub receive_message : List ℕ → Result (List (Message R))
  receive_message message_bytes = do
    (num_messages, buffer) ← read_number 8 message_bytes
    receive_loop num_messages buffer

  -- The reads of a size and of a body of that size from a stream of bytes.
  unfoldable pub receive_frame : List ℕ → Result (List (Message R) × List ℕ)
  receive_frame stream = do
    (message_size, after_size) ← read_number 8 stream
    (message_bytes, rest) ← read_bytes message_size after_size
    messages ← receive_message message_bytes
    ok (messages, rest)
