-- ===== src/Network/Utility.antt =====
-- What the utility's receive_message makes of a query result that NetworkManager sent it.
use adq.Common.{
  ℕ, zero, suc, ◌+◌, ◌*◌, ◌/◌, ◌%◌, ◌<◌, ◌^◌, List, [], ◌∷◌, ◌++◌, some, ℤ, pos, length, Result, ok,
  err, ◌>>=◌, >>=-eq-ok, ◌≡◌, ◌≢◌, refl, arith,
}
use adq.Protocol.{OverlayTransportMessage}
use adq.Serialization.Bytes.{
  number_to_bytes, int_to_bytes, read_number, drop, read_number-number_to_bytes, read_bytes-append,
}
use adq.Serialization.Values.{type_to_bytes}
use adq.Serialization.Bodies.{Library, aggregation_value_to_bytes}
use adq.Serialization.RoundTrip.{read_type-type_to_bytes, byte_lengths}
use adq.Serialization.Envelopes.{
  type_overlay_transport, type_aggregation, utility_node_id, Message, overlay_transport,
  aggregation, transport_from_bytes, aggregation_to_bytes, message_to_bytes, message_size,
  dispatch_message, message_from_bytes,
}
use adq.Serialization.Envelopes.RoundTrip.{MessageFits}
use adq.Serialization.Envelopes.Sizes.{length-message_to_bytes}
use adq.Network.Frames.{
  send_message, send_aggregation, send_to_utility, receive_next, receive_loop, receive_message,
  receive_frame,
}
use adq.Network.Delivery.{write_frame_whole}
use mathlib.Core.List.{append_assoc}

-- A number that starts with a byte is that byte and the rest.
read_number-append :
    (width : ℕ) (bytes rest : List ℕ)
    → length bytes ≡ width
    → (n : ℕ) × (read_number width (bytes ++ rest) ≡ ok (n, rest))
unfolding read_number
read_number-append zero [] rest h = (0, refl)
read_number-append zero (x ∷ bytes) rest h = absurd (omega arith)
read_number-append (suc width) [] rest h = absurd (omega arith)
read_number-append (suc width) (x ∷ bytes) rest h =
    let (n, e) = read_number-append width bytes rest (omega arith) in (x + 256 * n, rw e)

-- A small query number ends in two zero bytes, which are those of MessageType::OVERLAY.
query_bytes :
    (k : ℕ)
    → k < 65536
    → int_to_bytes (pos k) ≡ number_to_bytes 2 k ++ type_to_bytes type_overlay_transport
unfolding int_to_bytes number_to_bytes type_to_bytes
query_bytes k h =
    let high : k / 256 / 256 ≡ 0 = omega arith in
    let low : k % 0x100000000 ≡ k = omega arith in rw (low, high)

aggregation_type : type_to_bytes type_aggregation ≡ 2 ∷ 0 ∷ []
unfolding type_to_bytes number_to_bytes
aggregation_type = refl

module _ {R : Type 0} (lib : Library R) where
  next_after_transport :
      (n : ℕ) (buffer : List ℕ) (m : OverlayTransportMessage R) (k q s : ℤ) (v : R)
      (messages : List (Message R))
      → receive_next lib (receive_loop lib n) buffer (some (overlay_transport m))
        ≢ ok (aggregation k q s v ∷ messages)
  unfolding receive_next
  next_after_transport n buffer m k q s v messages e =
      let (rest, received, same) =
        >>=-eq-ok (receive_loop lib n (drop (message_size lib (overlay_transport m)) buffer))
          (λ ms. ok (overlay_transport m ∷ ms)) e in
      cc

  after_transport :
      (n : ℕ) (buffer : List ℕ) (r : Result (OverlayTransportMessage R)) (k q s : ℤ) (v : R)
      (messages : List (Message R))
      → ((r >>= (λ m. ok (some (overlay_transport m))))
          >>= receive_next lib (receive_loop lib n) buffer)
        ≢ ok (aggregation k q s v ∷ messages)
  after_transport n buffer (ok m) k q s v messages =
      next_after_transport n buffer m k q s v messages
  after_transport n buffer (err thrown) k q s v messages = λ e. cc

  -- What starts with the type of an overlay message is not received as an aggregation message.
  transport_first :
      (n : ℕ) (buffer : List ℕ) (k q s : ℤ) (v : R) (messages : List (Message R))
      → receive_loop lib (suc n) (type_to_bytes type_overlay_transport ++ buffer)
        ≢ ok (aggregation k q s v ∷ messages)
  unfolding receive_loop message_from_bytes dispatch_message
  transport_first n buffer k q s v messages e =
      let bytes = type_to_bytes type_overlay_transport ++ buffer in
      after_transport n bytes (transport_from_bytes lib bytes) k q s v messages
        (rw (read_type-type_to_bytes type_overlay_transport (omega arith) buffer) at e)

  -- What follows the query number of an aggregation message.
  abbrev rest_of : ℤ → R → List ℕ
  rest_of s v = int_to_bytes s ++ aggregation_value_to_bytes lib v

  -- The bytes of an aggregation message up to the middle of its query number are read as a count.
  result_bytes :
      (n s : ℤ) (k : ℕ) (v : R)
      → k < 65536
      → aggregation_to_bytes lib n (pos k) s v
        ≡ 2
          ∷ ((0 ∷ (int_to_bytes n ++ number_to_bytes 2 k))
              ++ (type_to_bytes type_overlay_transport ++ rest_of s v))
  unfolding aggregation_to_bytes
  result_bytes n s k v small = rw (query_bytes k small, aggregation_type) (simp append_assoc)

  result_count :
      (n s : ℤ) (k : ℕ) (v : R)
      → k < 65536
      → (count : ℕ) × (read_number 8 (aggregation_to_bytes lib n (pos k) s v)
          ≡ ok (suc count, type_to_bytes type_overlay_transport ++ rest_of s v))
  unfolding read_number
  result_count n s k v small =
      let (high, reads) =
        read_number-append 7 (0 ∷ (int_to_bytes n ++ number_to_bytes 2 k))
          (type_to_bytes type_overlay_transport ++ rest_of s v) (simp byte_lengths) in
      let count : 2 + 256 * high ≡ suc (1 + 256 * high) = omega arith in
      (1 + 256 * high, rw (result_bytes n s k v small) (rw (reads, count)))

  result_misread :
      (n s : ℤ) (k : ℕ) (v : R) (n' q' s' : ℤ) (v' : R) (messages : List (Message R))
      → k < 65536
      → receive_message lib (aggregation_to_bytes lib n (pos k) s v)
        ≢ ok (aggregation n' q' s' v' ∷ messages)
  unfolding receive_message
  result_misread n s k v n' q' s' v' messages small e =
      let (count, reads) = result_count n s k v small in
      transport_first count (rest_of s v) n' q' s' v' messages (rw reads at e)

  received_alone :
      (r : Result (List (Message R))) (later : List ℕ) (messages : List (Message R)) (rest : List ℕ)
      → ◌>>=◌ {W = List (Message R) × List ℕ} r (λ ms. ok (ms, later)) ≡ ok (messages, rest)
      → r ≡ ok messages
  received_alone (ok ms) later messages rest e = cc
  received_alone (err thrown) later messages rest e = cc

  frame_misread :
      (size : ℕ) (content later : List ℕ) (messages : List (Message R)) (rest : List ℕ)
      → length content ≡ size
      → size < 256 ^ 8
      → (receive_message lib content ≢ ok messages)
      → receive_frame lib ((number_to_bytes 8 size ++ content) ++ later) ≢ ok (messages, rest)
  unfolding receive_frame
  frame_misread size content later messages rest whole small misread e =
      let framed =
        rw (append_assoc, read_number-number_to_bytes 8 size small (content ++ later)) at e in
      misread (
        received_alone (receive_message lib content) later messages rest
          (rw (read_bytes-append size content whole later) at framed))

  -- A query result that a meter sends to the utility does not arrive: `send` leaves the number of
  -- messages out, which receive_message reads all the same, so that a number, the type of an overlay
  -- message and a rest are read from the middle of the message. Whatever follows on the stream, the
  -- first message received is no aggregation message, if any is received at all. The message fits the
  -- wire format, its query number is at least 0 and below 65536, and it is smaller than 2^64 bytes.
  pub receive_frame-send_to_utility :
      (n s : ℤ) (k : ℕ) (v : R)
      → MessageFits lib (aggregation n (pos k) s v)
      → k < 65536
      → message_size lib (aggregation n (pos k) s v) < 256 ^ 8
      → (frame : List ℕ) × (send_message lib (aggregation n (pos k) s v) utility_node_id ≡ ok frame)
        × ((later rest : List ℕ) (n' q' s' : ℤ) (v' : R) (messages : List (Message R))
            → receive_frame lib (frame ++ later) ≢ ok (aggregation n' q' s' v' ∷ messages, rest))
  unfolding send_message send_aggregation send_to_utility
  receive_frame-send_to_utility n s k v h small fits =
      let m = aggregation n (pos k) s v in
      let size = message_size lib m in
      let content = message_to_bytes lib m in
      let whole = length-message_to_bytes lib m h in
      (
        number_to_bytes 8 size ++ content,
        write_frame_whole lib size content whole,
        λ later rest n' q' s' v' messages.
            frame_misread size content later (aggregation n' q' s' v' ∷ messages) rest whole fits
              (unfold message_to_bytes in result_misread n s k v n' q' s' v' messages small),
      )
