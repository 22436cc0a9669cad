-- ===== src/Network/Delivery.antt =====
-- What receive_message makes of the bytes that NetworkManager's send methods wrote.
use adq.Common.{
  ℕ, ◌+◌, ◌-◌, ◌<◌, ◌≤◌, ◌^◌, List, [], ◌∷◌, ◌++◌, map, false, ℤ, ◌==ℤ◌, length, length-append,
  replicate_zero, le→leb, ok, ◌≡◌, refl, arith,
}
use adq.Protocol.{OverlayTransportMessage}
use adq.Serialization.Bytes.{
  number_to_bytes, read_number-number_to_bytes, read_bytes-append, drop-append,
  length-number_to_bytes,
}
use adq.Serialization.Bodies.{Library}
use adq.Serialization.Envelopes.{
  utility_node_id, Message, overlay_transport, ping, aggregation, query_request, signature_request,
  signature_response, message_to_bytes, message_size, transport_size, aggregation_size,
  query_request_size, signature_size,
}
use adq.Serialization.Envelopes.RoundTrip.{
  MessageFits, TransportFits, message_from_bytes-message_to_bytes,
}
use adq.Serialization.Envelopes.Sizes.{length-message_to_bytes}
use adq.Network.Frames.{
  write_frame, messages_size, messages_to_bytes, send_counted, send_overlay_messages, receive_next,
  receive_loop, receive_message, receive_frame, send_message, send_aggregation,
}
use mathlib.Core.List.{append_assoc, append-nil}

module _ {R : Type 0} (lib : Library R) where
  -- Every message of a list fits.
  abbrev pub AllFit : List (Message R) → Type 0
  AllFit [] = Unit
  AllFit (m ∷ messages) = MessageFits lib m × AllFit messages

  length-messages_to_bytes :
      (messages : List (Message R))
      → AllFit messages
      → length (messages_to_bytes lib messages) ≡ messages_size lib messages
  unfolding messages_to_bytes messages_size
  length-messages_to_bytes [] h = refl
  length-messages_to_bytes (m ∷ messages) (hm, h) = omega (
    arith,
    length-append (message_to_bytes lib m) (messages_to_bytes lib messages),
    length-message_to_bytes lib m hm,
    length-messages_to_bytes messages h,
  )

  receive_loop-messages_to_bytes :
      (messages : List (Message R))
      → AllFit messages
      → (rest : List ℕ)
      → receive_loop lib (length messages) (messages_to_bytes lib messages ++ rest) ≡ ok messages
  unfolding receive_loop receive_next messages_to_bytes
  receive_loop-messages_to_bytes [] h rest = refl
  receive_loop-messages_to_bytes (m ∷ messages) (hm, h) rest = simp (
    append_assoc,
    message_from_bytes-message_to_bytes lib m hm,
    drop-append (message_size lib m) (message_to_bytes lib m) (length-message_to_bytes lib m hm),
    receive_loop-messages_to_bytes messages h rest,
  )

  -- A frame of the right size is read back whole, whatever follows it.
  pub receive_frame-frame :
      (size : ℕ) (content rest : List ℕ)
      → length content ≡ size
      → size < 256 ^ 8
      → (messages : List (Message R)) → receive_message lib content ≡ ok messages
      → receive_frame lib ((number_to_bytes 8 size ++ content) ++ rest) ≡ ok (messages, rest)
  unfolding receive_frame
  receive_frame-frame size content rest whole small messages received = simp (
    append_assoc,
    read_number-number_to_bytes 8 size small,
    read_bytes-append size content whole,
    received,
  )

  pub write_frame_whole :
      (size : ℕ) (content : List ℕ)
      → length content ≡ size
      → write_frame size content ≡ ok (number_to_bytes 8 size ++ content)
  unfolding write_frame
  write_frame_whole size content whole =
      let fits = le→leb (length content) size (omega arith) in
      let full : size - length content ≡ 0 = omega arith in
      rw (fits, full, replicate_zero {A = ℕ} 0, append-nil) refl

  message_size_positive : (m : Message R) → 0 < message_size lib m
  unfolding message_size transport_size aggregation_size query_request_size signature_size
  message_size_positive (overlay_transport m) = omega arith
  message_size_positive (ping sender_id is_response) = omega arith
  message_size_positive (aggregation n query_num sender_id v) = omega arith
  message_size_positive (query_request q) = omega arith
  message_size_positive (signature_request sender_id bytes) = omega arith
  message_size_positive (signature_response sender_id bytes) = omega arith

  length_messages : (messages : List (Message R)) → length messages ≤ messages_size lib messages
  unfolding messages_size
  length_messages [] = omega arith
  length_messages (m ∷ messages) = omega (arith, message_size_positive m, length_messages messages)

  -- Messages with their number in front are received in order, and nothing else is.
  send_counted_received :
      (messages : List (Message R))
      → AllFit messages
      → 8 + messages_size lib messages < 256 ^ 8
      → (frame : List ℕ) × (send_counted lib messages ≡ ok frame)
        × ((later : List ℕ) → receive_frame lib (frame ++ later) ≡ ok (messages, later))
  unfolding send_counted receive_message
  send_counted_received messages h small =
      let content = number_to_bytes 8 (length messages) ++ messages_to_bytes lib messages in
      let size = 8 + messages_size lib messages in
      let whole : length content ≡ size = omega (
        arith,
        length-append (number_to_bytes 8 (length messages)) (messages_to_bytes lib messages),
        length-number_to_bytes 8 (length messages),
        length-messages_to_bytes messages h,
      ) in
      let few : length messages < 256 ^ 8 = omega (arith, length_messages messages) in
      let received : receive_message lib content ≡ ok messages =
        rw (read_number-number_to_bytes 8 (length messages) few (messages_to_bytes lib messages))
          (rw append-nil at (receive_loop-messages_to_bytes messages h [])) in
      (
        number_to_bytes 8 size ++ content,
        write_frame_whole size content whole,
        λ later. receive_frame-frame size content later whole small messages received,
      )

  abbrev pub AllTransportsFit : List (OverlayTransportMessage R) → Type 0
  AllTransportsFit [] = Unit
  AllTransportsFit (m ∷ messages) = TransportFits lib m × AllTransportsFit messages

  one :
      (m : Message R) → 8 + message_size lib m < 256 ^ 8 → 8 + messages_size lib (m ∷ []) < 256 ^ 8
  unfolding messages_size
  one m small = omega arith

  all_transports :
      (messages : List (OverlayTransportMessage R))
      → AllTransportsFit messages
      → AllFit (map overlay_transport messages)
  all_transports [] h = h
  all_transports (m ∷ messages) (hm, h) = (hm, all_transports messages h)

  -- A batch of overlay messages, of any length, is received as it was sent: the frame that `send`
  -- writes is read back as the messages of the batch, in order, and the stream goes on where the
  -- frame ends. Every message fits the wire format, and the frame is smaller than 2^64 bytes.
  pub receive_frame-send_overlay_messages :
      (messages : List (OverlayTransportMessage R))
      → AllTransportsFit messages
      → 8 + messages_size lib (map overlay_transport messages) < 256 ^ 8
      → (frame : List ℕ) × (send_overlay_messages lib messages ≡ ok frame)
        × ((later : List ℕ)
            → receive_frame lib (frame ++ later) ≡ ok (map overlay_transport messages, later))
  unfolding send_overlay_messages
  receive_frame-send_overlay_messages messages h small =
      send_counted_received (map overlay_transport messages) (all_transports messages h) small

  -- What goes to a meter and is no ping.
  abbrev pub IsForMeter : Message R → Type 0
  IsForMeter (ping sender_id is_response) = ⊥
  IsForMeter (signature_request sender_id bytes) = ⊥
  IsForMeter _ = Unit

  -- Every message but a ping that is sent to a meter is received by it as it was sent, and nothing
  -- else is received. The message fits the wire format, and the frame is smaller than 2^64 bytes.
  pub receive_frame-send :
      (m : Message R) (recipient_id : ℤ)
      → IsForMeter m
      → MessageFits lib m
      → (recipient_id ==ℤ utility_node_id) ≡ false
      → 8 + message_size lib m < 256 ^ 8
      → (frame : List ℕ) × (send_message lib m recipient_id ≡ ok frame)
        × ((later : List ℕ) → receive_frame lib (frame ++ later) ≡ ok (m ∷ [], later))
  unfolding send_message send_aggregation send_overlay_messages
  receive_frame-send (overlay_transport m) recipient_id meter h other small =
      send_counted_received (overlay_transport m ∷ []) (h, _) (one (overlay_transport m) small)
  receive_frame-send (ping sender_id is_response) recipient_id meter h other small = elim meter [ ]
  receive_frame-send (aggregation n q sender_id v) recipient_id meter h other small = rw other (
      send_counted_received (aggregation n q sender_id v ∷ []) (h, _)
        (one (aggregation n q sender_id v) small))
  receive_frame-send (query_request q) recipient_id meter h other small =
      send_counted_received (query_request q ∷ []) (h, _) (one (query_request q) small)
  receive_frame-send (signature_request sender_id bytes) recipient_id meter h other small =
      elim meter [ ]
  receive_frame-send (signature_response sender_id bytes) recipient_id meter h other small =
      send_counted_received (signature_response sender_id bytes ∷ []) (h, _)
        (one (signature_response sender_id bytes) small)
