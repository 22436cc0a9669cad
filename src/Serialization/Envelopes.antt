-- ===== src/Serialization/Envelopes.antt =====
-- to_bytes, bytes_size and from_bytes of whole messages: messaging/detail of Message, PingMessage,
-- AggregationMessage, OverlayTransportMessage, QueryRequest, SignatureRequest and SignatureResponse.
pub mod RoundTrip
pub mod Sizes
use adq.Common.{
  ℕ, suc, ◌+◌, List, [], ◌∷◌, ◌++◌, Bool, Option, none, some, ℤ, negsuc, length, if◌then◌else◌,
  ◌==◌, Result, ok, err, undefined, assertion_failed, ◌>>=◌,
}
use adq.Messages.{MessageBody, OverlayMessage, QueryRequest, overlay_body}
use adq.Protocol.{OverlayTransportMessage}
use adq.Serialization.Bytes.{
  int_to_bytes, bool_to_bytes, number_to_bytes, read_int, read_bool, read_number, read_value,
}
use adq.Serialization.Values.{type_overlay, type_path_overlay, type_to_bytes, read_type}
use adq.Serialization.Bodies.{
  Library, byte_body_to_bytes, byte_body_size, byte_body_from_bytes, aggregation_value_to_bytes,
  aggregation_value_size, aggregation_value_from_bytes, body_to_bytes, body_size, body_from_bytes,
  overlay_from_bytes, path_overlay_from_bytes,
}

-- MessageType.
abbrev pub type_overlay_transport : ℕ
type_overlay_transport = 0

abbrev pub type_ping : ℕ
type_ping = 1

abbrev pub type_aggregation : ℕ
type_aggregation = 2

abbrev pub type_query_request : ℕ
type_query_request = 3

abbrev pub type_signature_request : ℕ
type_signature_request = 4

abbrev pub type_signature_response : ℕ
type_signature_response = 5

-- UTILITY_NODE_ID
abbrev pub utility_node_id : ℤ
utility_node_id = negsuc 0

-- A ping has its sender and whether it is a response; an aggregation message the number of
-- contributors, the query's number, its sender and its value; the messages of a signature their
-- sender and the bytes of their body.
pub data Message (R : Type 0) : Type 0 where
  overlay_transport : OverlayTransportMessage R → Message R
  ping : ℤ → Bool → Message R
  aggregation : ℤ → ℤ → ℤ → R → Message R
  query_request : QueryRequest → Message R
  signature_request : ℤ → List ℕ → Message R
  signature_response : ℤ → List ℕ → Message R

-- An overlay message as a body, and the cast back.
abbrev pub overlay_as_body : {R : Type 0} → OverlayMessage R → MessageBody R
overlay_as_body m =
    overlay_body m.query_num m.destination m.is_encrypted m.flood m.remaining_path m.enclosed_body

abbrev pub as_overlay : {R : Type 0} → MessageBody R → Result (OverlayMessage R)
as_overlay (overlay_body q dest encrypted flood path b) = ok (record {
  query_num = q;
  destination = dest;
  is_encrypted = encrypted;
  flood = flood;
  remaining_path = path;
  enclosed_body = b;
})
as_overlay _ = err undefined

unfoldable pub ping_to_bytes : ℤ → Bool → List ℕ
ping_to_bytes sender_id is_response =
    type_to_bytes type_ping ++ (int_to_bytes sender_id ++ bool_to_bytes is_response)

abbrev pub ping_size : ℕ
ping_size = 2 + 4 + 1

unfoldable pub ping_from_bytes : {R : Type 0} → List ℕ → Result (Message R)
ping_from_bytes buffer = do
  (message_type, after_type) ← read_type buffer
  (sender_id, after_sender) ←
      if message_type == type_ping then read_int after_type else err assertion_failed
  (is_response, rest) ← read_bool after_sender
  ok (ping sender_id is_response)

module _ {R : Type 0} (lib : Library R) where
  unfoldable pub transport_to_bytes : OverlayTransportMessage R → List ℕ
  transport_to_bytes m =
      type_to_bytes type_overlay_transport
      ++ (int_to_bytes m.sender_round
          ++ (bool_to_bytes m.is_final_message
              ++ (int_to_bytes m.sender_id ++ body_to_bytes lib (overlay_as_body m.body))))

  unfoldable pub transport_size : OverlayTransportMessage R → ℕ
  transport_size m = 2 + 4 + 1 + (4 + body_size lib (overlay_as_body m.body))

  unfoldable pub transport_body_from_bytes :
      (List ℕ → Result (MessageBody R)) → List ℕ → Result (MessageBody R)
  transport_body_from_bytes from_bytes buffer = do
    (type, rest) ← read_type buffer
    if type == type_overlay
        then overlay_from_bytes from_bytes buffer
        else (if type == type_path_overlay
            then path_overlay_from_bytes lib from_bytes buffer
            else err assertion_failed)

  -- The bodies in a buffer are enclosed in one another less often than it has bytes.
  unfoldable pub transport_from_bytes : List ℕ → Result (OverlayTransportMessage R)
  transport_from_bytes buffer = do
    (message_type, after_type) ← read_type buffer
    (sender_round, after_round) ← read_int after_type
    (is_final_message, after_final) ← read_bool after_round
    (sender_id, rest) ← read_int after_final
    b ← transport_body_from_bytes (body_from_bytes lib (length rest)) rest
    message ← as_overlay b
    ok (record {
      sender_id = sender_id;
      sender_round = sender_round;
      is_final_message = is_final_message;
      body = message;
    })

  unfoldable pub aggregation_to_bytes : ℤ → ℤ → ℤ → R → List ℕ
  aggregation_to_bytes num_contributors query_num sender_id value =
      type_to_bytes type_aggregation
      ++ (int_to_bytes num_contributors
          ++ (int_to_bytes query_num
              ++ (int_to_bytes sender_id ++ aggregation_value_to_bytes lib value)))

  unfoldable pub aggregation_size : R → ℕ
  aggregation_size value = 2 + 4 + 4 + (4 + aggregation_value_size lib value)

  unfoldable pub aggregation_from_bytes : List ℕ → Result (Message R)
  aggregation_from_bytes buffer = do
    (message_type, after_type) ← read_type buffer
    (num_contributors, after_contributors) ← read_int after_type
    (query_num, after_query) ← read_int after_contributors
    (sender_id, rest) ← read_int after_query
    value ← aggregation_value_from_bytes lib rest
    ok (aggregation num_contributors query_num sender_id value)

  -- An Opcode is a uint32_t; the sender of a query request is the utility.
  unfoldable pub query_request_to_bytes : QueryRequest → List ℕ
  query_request_to_bytes q =
      type_to_bytes type_query_request
      ++ (int_to_bytes utility_node_id
          ++ (int_to_bytes q.query_number
              ++ (number_to_bytes 4 q.select_function_opcode
                  ++ (number_to_bytes 4 q.filter_function_opcode
                      ++ (number_to_bytes 4 q.aggregate_function_opcode
                          ++ (lib.byte_vectors.to_bytes q.select_serialized_args
                              ++ (lib.byte_vectors.to_bytes q.filter_serialized_args
                                  ++ lib.byte_vectors.to_bytes q.aggregate_serialized_args)))))))

  unfoldable pub query_request_size : QueryRequest → ℕ
  query_request_size q =
      2
      + 4
      + 4
      + 4
      + 4
      + 4
      + lib.byte_vectors.bytes_size q.select_serialized_args
      + lib.byte_vectors.bytes_size q.filter_serialized_args
      + lib.byte_vectors.bytes_size q.aggregate_serialized_args

  unfoldable pub query_request_from_bytes : List ℕ → Result QueryRequest
  query_request_from_bytes buffer = do
    (message_type, after_type) ← read_type buffer
    (sender_id, after_sender) ← read_int after_type
    (query_number, after_number) ← read_int after_sender
    (select_function_opcode, after_select) ← read_number 4 after_number
    (filter_function_opcode, after_filter) ← read_number 4 after_select
    (aggregate_function_opcode, after_aggregate) ← read_number 4 after_filter
    (select_serialized_args, after_select_args) ← read_value lib.byte_vectors after_aggregate
    (filter_serialized_args, after_filter_args) ← read_value lib.byte_vectors after_select_args
    (aggregate_serialized_args, rest) ← read_value lib.byte_vectors after_filter_args
    ok (record {
      query_number = query_number;
      select_function_opcode = select_function_opcode;
      filter_function_opcode = filter_function_opcode;
      aggregate_function_opcode = aggregate_function_opcode;
      select_serialized_args = select_serialized_args;
      filter_serialized_args = filter_serialized_args;
      aggregate_serialized_args = aggregate_serialized_args;
    })

  -- A message of a type whose body is a ByteBody: Message's own fields behind the type.
  unfoldable pub signature_to_bytes : ℕ → ℤ → List ℕ → List ℕ
  signature_to_bytes type sender_id bytes =
      type_to_bytes type ++ (int_to_bytes sender_id ++ byte_body_to_bytes lib bytes)

  unfoldable pub signature_size : List ℕ → ℕ
  signature_size bytes = 2 + (4 + byte_body_size lib bytes)

  abbrev pub signature_request_to_bytes : ℤ → List ℕ → List ℕ
  signature_request_to_bytes sender_id bytes =
      signature_to_bytes type_signature_request sender_id bytes

  abbrev pub signature_response_to_bytes : ℤ → List ℕ → List ℕ
  signature_response_to_bytes sender_id bytes =
      signature_to_bytes type_signature_response sender_id bytes

  unfoldable pub signature_request_from_bytes : List ℕ → Result (Message R)
  signature_request_from_bytes buffer = do
    (message_type, after_type) ← read_type buffer
    (sender_id, rest) ← read_int after_type
    bytes ← byte_body_from_bytes lib rest
    ok (signature_request sender_id bytes)

  unfoldable pub signature_response_from_bytes : List ℕ → Result (Message R)
  signature_response_from_bytes buffer = do
    (message_type, after_type) ← read_type buffer
    (sender_id, rest) ← read_int after_type
    bytes ← byte_body_from_bytes lib rest
    ok (signature_response sender_id bytes)

  unfoldable pub message_to_bytes : Message R → List ℕ
  message_to_bytes (overlay_transport m) = transport_to_bytes m
  message_to_bytes (ping sender_id is_response) = ping_to_bytes sender_id is_response
  message_to_bytes (aggregation n query_num sender_id v) =
      aggregation_to_bytes n query_num sender_id v
  message_to_bytes (query_request q) = query_request_to_bytes q
  message_to_bytes (signature_request sender_id bytes) = signature_request_to_bytes sender_id bytes
  message_to_bytes (signature_response sender_id bytes) =
      signature_response_to_bytes sender_id bytes

  unfoldable pub message_size : Message R → ℕ
  message_size (overlay_transport m) = transport_size m
  message_size (ping sender_id is_response) = ping_size
  message_size (aggregation n query_num sender_id v) = aggregation_size v
  message_size (query_request q) = query_request_size q
  message_size (signature_request sender_id bytes) = signature_size bytes
  message_size (signature_response sender_id bytes) = signature_size bytes

  -- The subclass's from_bytes for a MessageType; there is no message of another type.
  unfoldable pub dispatch_message : ℕ → List ℕ → Result (Option (Message R))
  dispatch_message type buffer =
      if type == type_overlay_transport
      then transport_from_bytes buffer >>= (λ m. ok (some (overlay_transport m)))
      else (if type == type_ping
          then ping_from_bytes buffer >>= (λ m. ok (some m))
          else (if type == type_aggregation
              then aggregation_from_bytes buffer >>= (λ m. ok (some m))
              else (if type == type_query_request
                  then query_request_from_bytes buffer >>= (λ q. ok (some (query_request q)))
                  else (if type == type_signature_request
                      then signature_request_from_bytes buffer >>= (λ m. ok (some m))
                      else (if type == type_signature_response
                          then signature_response_from_bytes buffer >>= (λ m. ok (some m))
                          else ok none)))))

  -- Message::from_bytes
  unfoldable pub message_from_bytes : List ℕ → Result (Option (Message R))
  message_from_bytes buffer = do (type, rest) ← read_type buffer; dispatch_message type buffer
