-- ===== src/Serialization/Envelopes/RoundTrip.antt =====
-- What Message::from_bytes makes of the bytes that to_bytes wrote for a message: messaging/detail.
use adq.Common.{
  ℕ, suc, ◌<◌, ◌^◌, List, ◌++◌, Bool, Option, none, some, ℤ, length, length-append, ok, ◌≡◌, ◌∙◌,
  arith,
}
use adq.Messages.{OverlayMessage, QueryRequest, Enclosed, overlay_body}
use adq.Protocol.{OverlayTransportMessage}
use adq.Serialization.Bytes.{
  RoundTrips, IsInt, read_int-int_to_bytes, read_bool-bool_to_bytes, read_number-number_to_bytes,
  read_value-to_bytes,
}
use adq.Serialization.Values.{type_overlay, type_path_overlay}
use adq.Serialization.Bodies.{Library, body_to_bytes, body_from_bytes, dispatch_body, path_to_bytes}
use adq.Serialization.RoundTrip.{
  IsUnsigned, read_type-type_to_bytes, body_from_bytes-body_to_bytes,
  byte_body_from_bytes-byte_body_to_bytes, aggregation_value_from_bytes-aggregation_value_to_bytes,
}
use adq.Serialization.Envelopes.{
  type_overlay_transport, type_ping, type_aggregation, type_query_request, type_signature_request,
  type_signature_response, utility_node_id, Message, overlay_transport, ping, aggregation,
  query_request, signature_request, signature_response, overlay_as_body, transport_to_bytes,
  transport_body_from_bytes, transport_from_bytes, ping_to_bytes, ping_from_bytes,
  aggregation_to_bytes, aggregation_from_bytes, query_request_to_bytes, query_request_from_bytes,
  signature_to_bytes, signature_request_from_bytes, signature_response_from_bytes, message_to_bytes,
  dispatch_message, message_from_bytes,
}
use mathlib.Core.List.{append_assoc}

module _ {R : Type 0} (lib : Library R) where
  -- The overlay messages in transport have a body that is read back.
  pub record TransportFits (m : OverlayTransportMessage R) : Type 0 where
    pub round : IsInt m.sender_round
    pub sender : IsInt m.sender_id
    pub unsigned : IsUnsigned lib (overlay_as_body m.body)

  pub record QueryFits (q : QueryRequest) : Type 0 where
    pub number : IsInt q.query_number
    pub select_opcode : q.select_function_opcode < 256 ^ 4
    pub filter_opcode : q.filter_function_opcode < 256 ^ 4
    pub aggregate_opcode : q.aggregate_function_opcode < 256 ^ 4
    pub select_args : RoundTrips lib.byte_vectors q.select_serialized_args
    pub filter_args : RoundTrips lib.byte_vectors q.filter_serialized_args
    pub aggregate_args : RoundTrips lib.byte_vectors q.aggregate_serialized_args

  -- The numbers of a message are values of their types, the library reads the parts of its body
  -- back, and there is no map of signatures in the body.
  abbrev pub MessageFits : Message R → Type 0
  MessageFits (overlay_transport m) = TransportFits m
  MessageFits (ping sender_id is_response) = IsInt sender_id
  MessageFits (aggregation n q sender_id v) =
      IsInt n × IsInt q × IsInt sender_id × RoundTrips lib.records v
  MessageFits (query_request q) = QueryFits q
  MessageFits (signature_request sender_id bytes) =
      IsInt sender_id × RoundTrips lib.byte_vectors bytes
  MessageFits (signature_response sender_id bytes) =
      IsInt sender_id × RoundTrips lib.byte_vectors bytes

  ping_reads :
      (sender_id : ℤ) (is_response : Bool)
      → IsInt sender_id
      → (rest : List ℕ)
      → message_from_bytes lib (ping_to_bytes sender_id is_response ++ rest)
        ≡ ok (some (ping sender_id is_response))
  unfolding message_from_bytes dispatch_message ping_from_bytes ping_to_bytes
  ping_reads sender_id is_response h rest = simp (
    append_assoc,
    read_type-type_to_bytes type_ping (omega arith),
    read_int-int_to_bytes sender_id h,
    read_bool-bool_to_bytes,
  )

  aggregation_reads :
      (n q sender_id : ℤ) (v : R)
      → MessageFits (aggregation n q sender_id v)
      → (rest : List ℕ)
      → message_from_bytes lib (aggregation_to_bytes lib n q sender_id v ++ rest)
        ≡ ok (some (aggregation n q sender_id v))
  unfolding message_from_bytes dispatch_message aggregation_from_bytes aggregation_to_bytes
  aggregation_reads n q sender_id v (hn, hq, hs, hv) rest = simp (
    append_assoc,
    read_type-type_to_bytes type_aggregation (omega arith),
    read_int-int_to_bytes n hn,
    read_int-int_to_bytes q hq,
    read_int-int_to_bytes sender_id hs,
    aggregation_value_from_bytes-aggregation_value_to_bytes lib v hv,
  )

  query_request_reads :
      (q : QueryRequest)
      → QueryFits q
      → (rest : List ℕ)
      → message_from_bytes lib (query_request_to_bytes lib q ++ rest) ≡ ok (some (query_request q))
  unfolding message_from_bytes dispatch_message query_request_from_bytes query_request_to_bytes
  query_request_reads q h rest = simp (
    append_assoc,
    read_type-type_to_bytes type_query_request (omega arith),
    read_int-int_to_bytes utility_node_id (omega arith),
    read_int-int_to_bytes q.query_number h.number,
    read_number-number_to_bytes 4 q.select_function_opcode h.select_opcode,
    read_number-number_to_bytes 4 q.filter_function_opcode h.filter_opcode,
    read_number-number_to_bytes 4 q.aggregate_function_opcode h.aggregate_opcode,
    read_value-to_bytes lib.byte_vectors q.select_serialized_args h.select_args,
    read_value-to_bytes lib.byte_vectors q.filter_serialized_args h.filter_args,
    read_value-to_bytes lib.byte_vectors q.aggregate_serialized_args h.aggregate_args,
  )

  -- The body of a message in transport is read as any body is.
  transport_body :
      (fuel : ℕ) (q dest : ℤ) (encrypted flood : Bool) (path : Option (List ℤ)) (b : Enclosed R)
      (rest : List ℕ)
      → transport_body_from_bytes lib
          (body_from_bytes lib fuel)
          (body_to_bytes lib (overlay_body q dest encrypted flood path b) ++ rest)
        ≡ body_from_bytes lib
            (suc fuel)
            (body_to_bytes lib (overlay_body q dest encrypted flood path b) ++ rest)
  unfolding transport_body_from_bytes body_from_bytes dispatch_body body_to_bytes path_to_bytes
  transport_body fuel q dest encrypted flood none b rest =
      simp (append_assoc, read_type-type_to_bytes type_overlay (omega arith))
  transport_body fuel q dest encrypted flood (some path) b rest =
      simp (append_assoc, read_type-type_to_bytes type_path_overlay (omega arith))

  transport_body_reads :
      (m : OverlayMessage R)
      → IsUnsigned lib (overlay_as_body m)
      → (rest : List ℕ)
      → transport_body_from_bytes lib
          (body_from_bytes lib (length (body_to_bytes lib (overlay_as_body m) ++ rest)))
          (body_to_bytes lib (overlay_as_body m) ++ rest)
        ≡ ok (overlay_as_body m)
  transport_body_reads m h rest =
      let bytes = body_to_bytes lib (overlay_as_body m) ++ rest in
      transport_body (length bytes) m.query_num m.destination m.is_encrypted m.flood
        m.remaining_path m.enclosed_body rest
      ∙ body_from_bytes-body_to_bytes lib (suc (length bytes)) (overlay_as_body m) h
          (omega (arith, length-append (body_to_bytes lib (overlay_as_body m)) rest)) rest

  transport_reads :
      (m : OverlayTransportMessage R)
      → TransportFits m
      → (rest : List ℕ)
      → message_from_bytes lib (transport_to_bytes lib m ++ rest) ≡ ok (some (overlay_transport m))
  unfolding message_from_bytes dispatch_message transport_from_bytes transport_to_bytes
  transport_reads m h rest = simp (
    append_assoc,
    read_type-type_to_bytes type_overlay_transport (omega arith),
    read_int-int_to_bytes m.sender_round h.round,
    read_int-int_to_bytes m.sender_id h.sender,
    read_bool-bool_to_bytes,
    transport_body_reads m.body h.unsigned,
  )

  request_reads :
      (sender_id : ℤ) (bytes : List ℕ)
      → MessageFits (signature_request sender_id bytes)
      → (rest : List ℕ)
      → message_from_bytes lib
          (signature_to_bytes lib type_signature_request sender_id bytes ++ rest)
        ≡ ok (some (signature_request sender_id bytes))
  unfolding message_from_bytes dispatch_message signature_request_from_bytes signature_to_bytes
  request_reads sender_id bytes (hs, hb) rest = simp (
    append_assoc,
    read_type-type_to_bytes type_signature_request (omega arith),
    read_int-int_to_bytes sender_id hs,
    byte_body_from_bytes-byte_body_to_bytes lib bytes hb,
  )

  response_reads :
      (sender_id : ℤ) (bytes : List ℕ)
      → MessageFits (signature_response sender_id bytes)
      → (rest : List ℕ)
      → message_from_bytes lib
          (signature_to_bytes lib type_signature_response sender_id bytes ++ rest)
        ≡ ok (some (signature_response sender_id bytes))
  unfolding message_from_bytes dispatch_message signature_response_from_bytes signature_to_bytes
  response_reads sender_id bytes (hs, hb) rest = simp (
    append_assoc,
    read_type-type_to_bytes type_signature_response (omega arith),
    read_int-int_to_bytes sender_id hs,
    byte_body_from_bytes-byte_body_to_bytes lib bytes hb,
  )

  -- Message::from_bytes reads every kind of message back from the bytes that its to_bytes wrote,
  -- whatever follows them: overlay messages of any nesting, pings, aggregation messages, query
  -- requests, and the messages of a signature. The numbers are values of their types, the library
  -- reads back the parts that it wrote, and no body in the message has a map of signatures.
  pub message_from_bytes-message_to_bytes :
      (m : Message R)
      → MessageFits m
      → (rest : List ℕ) → message_from_bytes lib (message_to_bytes lib m ++ rest) ≡ ok (some m)
  unfolding message_to_bytes
  message_from_bytes-message_to_bytes (overlay_transport m) h rest = transport_reads m h rest
  message_from_bytes-message_to_bytes (ping sender_id is_response) h rest =
      ping_reads sender_id is_response h rest
  message_from_bytes-message_to_bytes (aggregation n q sender_id v) h rest =
      aggregation_reads n q sender_id v h rest
  message_from_bytes-message_to_bytes (query_request q) h rest = query_request_reads q h rest
  message_from_bytes-message_to_bytes (signature_request sender_id bytes) h rest =
      request_reads sender_id bytes h rest
  message_from_bytes-message_to_bytes (signature_response sender_id bytes) h rest =
      response_reads sender_id bytes h rest
