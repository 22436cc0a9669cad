-- ===== src/Serialization/Bodies.antt =====
-- to_bytes, bytes_size and from_bytes of message bodies: messaging/detail of MessageBody, ByteBody,
-- OverlayMessage and PathOverlayMessage, and messaging/AggregationMessageValue.hpp.
use adq.Common.{
  ℕ, zero, suc, ◌+◌, List, ◌++◌, Bool, true, false, Option, none, some, ℤ, if◌then◌else◌, ◌==◌,
  Result, ok, err, out_of_fuel, assertion_failed, ◌>>=◌,
}
use adq.Messages.{
  ValueTuple, MessageBody, Enclosed, null, enclosed, overlay_body, agreement_body, signed_body,
  contribution_body, aggregation_body, byte_body,
}
use adq.Serialization.Bytes.{
  Codec, int_to_bytes, bool_to_bytes, read_int, read_bool, read_value, drop,
}
use adq.Serialization.Values.{
  type_overlay, type_path_overlay, type_agreement_value, type_signed_value, type_value_contribution,
  type_aggregation_value, type_bytes, type_to_bytes, read_type, contribution_size,
  contribution_to_bytes, contribution_from_bytes, signed_size, signed_to_bytes, signed_from_bytes,
  agreement_size, agreement_to_bytes, agreement_from_bytes,
}

-- The codecs of the serialization library that the messages use.
pub record Library (R : Type 0) : Type 0 where
  pub tuples : Codec (ValueTuple R)
  pub records : Codec R
  pub byte_vectors : Codec (List ℕ)
  pub int_lists : Codec (List ℤ)

-- The fields of an OverlayMessage before its body.
unfoldable pub fields_to_bytes : ℤ → ℤ → Bool → Bool → List ℕ
fields_to_bytes query_num destination is_encrypted flood =
    int_to_bytes query_num
    ++ (int_to_bytes destination ++ (bool_to_bytes is_encrypted ++ bool_to_bytes flood))

module _ {R : Type 0} where
  unfoldable pub read_enclosed :
      (List ℕ → Result (MessageBody R)) → Bool → List ℕ → Result (Enclosed R)
  read_enclosed from_bytes false buffer = ok null
  read_enclosed from_bytes true buffer = do b ← from_bytes buffer; ok (enclosed b)

  -- from_bytes_common; `from_bytes` is that of MessageBody.
  unfoldable pub from_bytes_common :
      (List ℕ → Result (MessageBody R)) → Option (List ℤ) → List ℕ → Result (MessageBody R)
  from_bytes_common from_bytes path buffer = do
    (query_num, after_query) ← read_int buffer
    (destination, after_destination) ← read_int after_query
    (is_encrypted, after_encrypted) ← read_bool after_destination
    (flood, after_flood) ← read_bool after_encrypted
    (remaining_body, rest) ← read_bool after_flood
    b ← read_enclosed from_bytes remaining_body rest
    ok (overlay_body query_num destination is_encrypted flood path b)

  unfoldable pub overlay_from_bytes :
      (List ℕ → Result (MessageBody R)) → List ℕ → Result (MessageBody R)
  overlay_from_bytes from_bytes buffer = do
    (type, rest) ← read_type buffer
    from_bytes_common from_bytes none rest

module _ {R : Type 0} (lib : Library R) where
  unfoldable pub byte_body_to_bytes : List ℕ → List ℕ
  byte_body_to_bytes bytes = type_to_bytes type_bytes ++ lib.byte_vectors.to_bytes bytes

  unfoldable pub byte_body_size : List ℕ → ℕ
  byte_body_size bytes = 2 + lib.byte_vectors.bytes_size bytes

  unfoldable pub byte_body_from_bytes : List ℕ → Result (List ℕ)
  byte_body_from_bytes buffer = lib.byte_vectors.from_bytes (drop 2 buffer)

  unfoldable pub aggregation_value_to_bytes : R → List ℕ
  aggregation_value_to_bytes value =
      type_to_bytes type_aggregation_value ++ lib.records.to_bytes value

  unfoldable pub aggregation_value_size : R → ℕ
  aggregation_value_size value = 2 + lib.records.bytes_size value

  unfoldable pub aggregation_value_from_bytes : List ℕ → Result R
  aggregation_value_from_bytes buffer = lib.records.from_bytes (drop 2 buffer)

  -- The type of an OverlayMessage, or of a PathOverlayMessage with the path that follows it.
  unfoldable pub path_to_bytes : Option (List ℤ) → List ℕ
  path_to_bytes none = type_to_bytes type_overlay
  path_to_bytes (some path) = type_to_bytes type_path_overlay ++ lib.int_lists.to_bytes path

  unfoldable pub path_size : Option (List ℤ) → ℕ
  path_size none = 0
  path_size (some path) = lib.int_lists.bytes_size path

  unfoldable mutual
    pub body_to_bytes : MessageBody R → List ℕ
    body_to_bytes (overlay_body q dest encrypted flood path b) =
        path_to_bytes path ++ (fields_to_bytes q dest encrypted flood ++ enclosed_to_bytes b)
    body_to_bytes (agreement_body v) = agreement_to_bytes lib.tuples v
    body_to_bytes (signed_body v) = signed_to_bytes lib.tuples v
    body_to_bytes (contribution_body v) = contribution_to_bytes lib.tuples v
    body_to_bytes (aggregation_body v) = aggregation_value_to_bytes v
    body_to_bytes (byte_body bytes) = byte_body_to_bytes bytes

    -- Whether there is an enclosed body, and the body.
    pub enclosed_to_bytes : Enclosed R → List ℕ
    enclosed_to_bytes null = bool_to_bytes false
    enclosed_to_bytes (enclosed b) = bool_to_bytes true ++ body_to_bytes b

  unfoldable mutual
    pub body_size : MessageBody R → ℕ
    body_size (overlay_body q dest encrypted flood path b) =
        (2 + 4 + 4 + 1 + 1 + 1 + enclosed_size b) + path_size path
    body_size (agreement_body v) = agreement_size lib.tuples v
    body_size (signed_body v) = signed_size lib.tuples v
    body_size (contribution_body v) = contribution_size lib.tuples v
    body_size (aggregation_body v) = aggregation_value_size v
    body_size (byte_body bytes) = byte_body_size bytes

    pub enclosed_size : Enclosed R → ℕ
    enclosed_size null = 0
    enclosed_size (enclosed b) = body_size b

  unfoldable pub path_overlay_from_bytes :
      (List ℕ → Result (MessageBody R)) → List ℕ → Result (MessageBody R)
  path_overlay_from_bytes from_bytes buffer = do
    (type, after_type) ← read_type buffer
    (path, rest) ←
        if type == type_path_overlay
        then read_value lib.int_lists after_type
        else err assertion_failed
    from_bytes_common from_bytes (some path) rest

  -- The subclass's from_bytes for a MessageBodyType.
  unfoldable pub dispatch_body :
      (List ℕ → Result (MessageBody R)) → ℕ → List ℕ → Result (MessageBody R)
  dispatch_body from_bytes type buffer =
      if type == type_overlay
      then overlay_from_bytes from_bytes buffer
      else (if type == type_path_overlay
          then path_overlay_from_bytes from_bytes buffer
          else (if type == type_aggregation_value
              then aggregation_value_from_bytes buffer >>= (λ v. ok (aggregation_body v))
              else (if type == type_value_contribution
                  then contribution_from_bytes lib.tuples buffer >>= (λ v. ok (contribution_body v))
                  else (if type == type_signed_value
                      then signed_from_bytes lib.tuples buffer >>= (λ v. ok (signed_body v))
                      else (if type == type_agreement_value
                          then agreement_from_bytes lib.tuples buffer
                            >>= (λ v. ok (agreement_body v))
                          else (if type == type_bytes
                              then byte_body_from_bytes buffer >>= (λ bytes. ok (byte_body bytes))
                              else err assertion_failed))))))

  -- MessageBody::from_bytes; the fuel bounds how deep bodies are enclosed in one another.
  unfoldable pub body_from_bytes : ℕ → List ℕ → Result (MessageBody R)
  body_from_bytes zero buffer = err out_of_fuel
  body_from_bytes (suc fuel) buffer = do
    (type, rest) ← read_type buffer
    dispatch_body (body_from_bytes fuel) type buffer
