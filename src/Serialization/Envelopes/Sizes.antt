-- ===== src/Serialization/Envelopes/Sizes.antt =====
-- bytes_size of a message against what its to_bytes writes: messaging/detail.
use adq.Common.{ℕ, List, Bool, ℤ, length, ◌≡◌, refl, arith}
use adq.Messages.{
  MessageBody, Enclosed, null, enclosed, overlay_body, agreement_body, signed_body,
  contribution_body, aggregation_body, byte_body, QueryRequest,
}
use adq.Protocol.{OverlayTransportMessage}
use adq.Serialization.Bytes.{RoundTrips}
use adq.Serialization.Bodies.{body_to_bytes, body_size, Library}
use adq.Serialization.RoundTrip.{byte_lengths, IsUnsigned, IsUnsignedEnclosed}
use adq.Serialization.Sizes.{
  BodySized, EnclosedSized, overrun, enclosed_overrun, length-body_to_bytes,
  length-byte_body_to_bytes, length-aggregation_value_to_bytes,
}
use adq.Serialization.Envelopes.{
  Message, overlay_transport, ping, aggregation, query_request, signature_request,
  signature_response, overlay_as_body, transport_to_bytes, transport_size, ping_to_bytes,
  aggregation_to_bytes, aggregation_size, query_request_to_bytes, query_request_size,
  signature_to_bytes, signature_size, message_to_bytes, message_size, type_signature_request,
  type_signature_response, ping_size,
}
use adq.Serialization.Envelopes.RoundTrip.{MessageFits, TransportFits, QueryFits}

module _ {R : Type 0} (lib : Library R) where
  mutual
    unfolding IsUnsigned BodySized overrun

    unsigned-BodySized :
        (b : MessageBody R) → IsUnsigned lib b → BodySized lib b × (overrun lib b ≡ 0)
    unsigned-BodySized (overlay_body q dest encrypted flood path b) (hq, hd, hp, hb) =
        let (sized, none_over) = unsigned-EnclosedSized b hb in ((hp, sized), none_over)
    unsigned-BodySized (agreement_body v) h = elim h [ ]
    unsigned-BodySized (signed_body v) h = elim h [ ]
    unsigned-BodySized (contribution_body v) h = (h.tuple, refl)
    unsigned-BodySized (aggregation_body v) h = (h, refl)
    unsigned-BodySized (byte_body bytes) h = (h, refl)

    unsigned-EnclosedSized :
        (b : Enclosed R)
        → IsUnsignedEnclosed lib b
        → EnclosedSized lib b × (enclosed_overrun lib b ≡ 0)
    unsigned-EnclosedSized null h = (h, refl)
    unsigned-EnclosedSized (enclosed b) h = unsigned-BodySized b h

  -- A body without maps of signatures is written in bytes_size bytes.
  pub length-unsigned :
      (b : MessageBody R) → IsUnsigned lib b → length (body_to_bytes lib b) ≡ body_size lib b
  length-unsigned b h =
      let (sized, none_over) = unsigned-BodySized b h in
      omega (arith, length-body_to_bytes lib b sized, none_over)

  length-transport_to_bytes :
      (m : OverlayTransportMessage R)
      → TransportFits lib m
      → length (transport_to_bytes lib m) ≡ transport_size lib m
  unfolding transport_to_bytes transport_size
  length-transport_to_bytes m h =
      let (sized, none_over) = unsigned-BodySized (overlay_as_body m.body) h.unsigned in
      simp (byte_lengths, length-body_to_bytes lib (overlay_as_body m.body) sized, none_over)
        (omega arith)

  length-aggregation_to_bytes :
      (n q sender_id : ℤ) (v : R)
      → RoundTrips lib.records v
      → length (aggregation_to_bytes lib n q sender_id v) ≡ aggregation_size lib v
  unfolding aggregation_to_bytes aggregation_size
  length-aggregation_to_bytes n q sender_id v h =
      simp (byte_lengths, length-aggregation_value_to_bytes lib v h) (omega arith)

  length-query_request_to_bytes :
      (q : QueryRequest)
      → QueryFits lib q
      → length (query_request_to_bytes lib q) ≡ query_request_size lib q
  unfolding query_request_to_bytes query_request_size
  length-query_request_to_bytes q h =
      simp (byte_lengths, h.select_args.size, h.filter_args.size, h.aggregate_args.size)
        (omega arith)

  length-signature_to_bytes :
      (type : ℕ) (sender_id : ℤ) (bytes : List ℕ)
      → RoundTrips lib.byte_vectors bytes
      → length (signature_to_bytes lib type sender_id bytes) ≡ signature_size lib bytes
  unfolding signature_to_bytes signature_size
  length-signature_to_bytes type sender_id bytes h =
      simp (byte_lengths, length-byte_body_to_bytes lib bytes h) (omega arith)

  length-ping_to_bytes :
      (sender_id : ℤ) (is_response : Bool)
      → length (ping_to_bytes sender_id is_response) ≡ ping_size
  unfolding ping_to_bytes
  length-ping_to_bytes sender_id is_response = simp byte_lengths

  pub length-message_to_bytes :
      (m : Message R) → MessageFits lib m → length (message_to_bytes lib m) ≡ message_size lib m
  unfolding message_to_bytes message_size
  length-message_to_bytes (overlay_transport m) h = length-transport_to_bytes m h
  length-message_to_bytes (ping sender_id is_response) h =
      length-ping_to_bytes sender_id is_response
  length-message_to_bytes (aggregation n q sender_id v) (hn, hq, hs, hv) =
      length-aggregation_to_bytes n q sender_id v hv
  length-message_to_bytes (query_request q) h = length-query_request_to_bytes q h
  length-message_to_bytes (signature_request sender_id bytes) (hs, hb) =
      length-signature_to_bytes type_signature_request sender_id bytes hb
  length-message_to_bytes (signature_response sender_id bytes) (hs, hb) =
      length-signature_to_bytes type_signature_response sender_id bytes hb
