-- ===== src/Serialization/Sizes.antt =====
-- bytes_size of a body against what its to_bytes writes: messaging/detail.
use adq.Common.{
  ℕ, ◌+◌, ◌*◌, List, [], ◌∷◌, ◌++◌, Bool, true, false, Option, none, some, ℤ, length, length-append,
  ◌≡◌, refl, arith,
}
use adq.Messages.{
  ValueTuple, ValueContribution, SignatureMap, SignedValue, AgreementValue, MessageBody, Enclosed,
  null, enclosed, overlay_body, agreement_body, signed_body, contribution_body, aggregation_body,
  byte_body,
}
use adq.Serialization.Bytes.{
  Codec, RoundTrips, int_to_bytes, bool_to_bytes, length-int_to_bytes, length-bool_to_bytes,
}
use adq.Serialization.Values.{
  type_overlay, type_value_contribution, type_signed_value, type_agreement_value, type_to_bytes,
  rsa_signature_size, rewrite_type, map_size, entries_to_bytes, map_to_bytes, contribution_size,
  contribution_to_bytes, signed_size, signed_to_bytes, agreement_size, agreement_to_bytes,
}
use adq.Serialization.Bodies.{
  Library, byte_body_to_bytes, byte_body_size, aggregation_value_to_bytes, aggregation_value_size,
  fields_to_bytes, path_to_bytes, path_size, body_to_bytes, enclosed_to_bytes, body_size,
  enclosed_size,
}
use adq.Serialization.RoundTrip.{byte_lengths, length-type_to_bytes, skip_type, PathFits}
use mathlib.Core.List.{append_assoc}

-- A buffer keeps its length when its type is written anew.
rewrite_type-type_to_bytes :
    (old new : ℕ) (bytes : List ℕ)
    → rewrite_type new (type_to_bytes old ++ bytes) ≡ type_to_bytes new ++ bytes
unfolding rewrite_type
rewrite_type-type_to_bytes old new bytes = rw (skip_type old bytes)

length-rewrite_type :
    (old new : ℕ) (bytes : List ℕ)
    → length (rewrite_type new (type_to_bytes old ++ bytes)) ≡ length (type_to_bytes old ++ bytes)
length-rewrite_type old new bytes =
    rw (rewrite_type-type_to_bytes old new bytes) (simp byte_lengths)

-- Each signature of a map is whole.
abbrev pub AllWhole : SignatureMap → Type 0
AllWhole [] = Unit
AllWhole ((key, value) ∷ sig_map) = (length value ≡ rsa_signature_size) × AllWhole sig_map

pub length-entries_to_bytes :
    (m : SignatureMap)
    → AllWhole m
    → length (entries_to_bytes m) ≡ length m * (4 + rsa_signature_size)
unfolding entries_to_bytes
length-entries_to_bytes [] h = refl
length-entries_to_bytes ((key, value) ∷ m) (hv, hm) = omega (
  arith,
  length-append (int_to_bytes key) (value ++ entries_to_bytes m),
  length-append value (entries_to_bytes m),
  length-int_to_bytes key,
  hv,
  length-entries_to_bytes m hm,
)

pub length-map_to_bytes : (m : SignatureMap) → AllWhole m → length (map_to_bytes m) ≡ map_size m + 4
unfolding map_to_bytes map_size
length-map_to_bytes m h = simp (byte_lengths, length-entries_to_bytes m h) (omega arith)

-- A signed value is its contribution under another type, and its map.
pub signed_bytes :
    {R : Type 0} (tuples : Codec (ValueTuple R)) (v : SignedValue R)
    → signed_to_bytes tuples v
      ≡ type_to_bytes type_signed_value
        ++ ((tuples.to_bytes v.value.value_tuple ++ v.value.signature) ++ map_to_bytes v.signatures)
unfolding signed_to_bytes contribution_to_bytes
signed_bytes tuples v = rw (
  rewrite_type-type_to_bytes type_value_contribution type_signed_value
      (tuples.to_bytes v.value.value_tuple ++ v.value.signature),
  append_assoc,
)

module _ {R : Type 0} (lib : Library R) where
  pub length-contribution_to_bytes :
      (v : ValueContribution R)
      → RoundTrips lib.tuples v.value_tuple
      → length (contribution_to_bytes lib.tuples v) ≡ contribution_size lib.tuples v
  unfolding contribution_to_bytes contribution_size
  length-contribution_to_bytes v h = simp (byte_lengths, h.size) (omega arith)

  abbrev pub SignedSized : SignedValue R → Type 0
  SignedSized v = RoundTrips lib.tuples v.value.value_tuple × AllWhole v.signatures

  length-signed_to_bytes :
      (v : SignedValue R)
      → SignedSized v
      → length (signed_to_bytes lib.tuples v) ≡ signed_size lib.tuples v + 4
  unfolding signed_size contribution_size
  length-signed_to_bytes v (ht, hm) =
      rw (signed_bytes lib.tuples v)
        (simp (byte_lengths, ht.size, length-map_to_bytes v.signatures hm) (omega arith))

  length-agreement_to_bytes :
      (v : AgreementValue R)
      → SignedSized v.signed_value
      → length (agreement_to_bytes lib.tuples v) ≡ agreement_size lib.tuples v + 4
  unfolding agreement_to_bytes agreement_size
  length-agreement_to_bytes v h =
      let tuple = lib.tuples.to_bytes v.signed_value.value.value_tuple in
      let kept =
        length-rewrite_type type_signed_value type_agreement_value
          ((tuple ++ v.signed_value.value.signature) ++ map_to_bytes v.signed_value.signatures) in
      omega (
        arith,
        length-append
            (rewrite_type type_agreement_value (signed_to_bytes lib.tuples v.signed_value))
            (int_to_bytes v.accepter_id ++ v.accepter_signature),
        length-append (int_to_bytes v.accepter_id) v.accepter_signature,
        length-int_to_bytes v.accepter_id,
        rw (← signed_bytes lib.tuples v.signed_value) at kept,
        length-signed_to_bytes v.signed_value h,
      )

  -- The library is right about the sizes of the parts of a body, and its signatures are whole.
  unfoldable mutual
    pub BodySized : MessageBody R → Type 0
    BodySized (overlay_body q dest encrypted flood path b) = PathFits lib path × EnclosedSized b
    BodySized (agreement_body v) = SignedSized v.signed_value
    BodySized (signed_body v) = SignedSized v
    BodySized (contribution_body v) = RoundTrips lib.tuples v.value_tuple
    BodySized (aggregation_body v) = RoundTrips lib.records v
    BodySized (byte_body bytes) = RoundTrips lib.byte_vectors bytes

    pub EnclosedSized : Enclosed R → Type 0
    EnclosedSized null = Unit
    EnclosedSized (enclosed b) = BodySized b

  length-path_to_bytes :
      (path : Option (List ℤ))
      → PathFits lib path
      → length (path_to_bytes lib path) ≡ 2 + path_size lib path
  unfolding path_to_bytes path_size
  length-path_to_bytes none h = length-type_to_bytes type_overlay
  length-path_to_bytes (some path) h = simp (byte_lengths, h.size)

  length-fields_to_bytes :
      (q dest : ℤ) (encrypted flood : Bool) → length (fields_to_bytes q dest encrypted flood) ≡ 10
  unfolding fields_to_bytes
  length-fields_to_bytes q dest encrypted flood = simp byte_lengths

  pub length-byte_body_to_bytes :
      (bytes : List ℕ)
      → RoundTrips lib.byte_vectors bytes
      → length (byte_body_to_bytes lib bytes) ≡ byte_body_size lib bytes
  unfolding byte_body_to_bytes byte_body_size
  length-byte_body_to_bytes bytes h = simp (byte_lengths, h.size)

  pub length-aggregation_value_to_bytes :
      (v : R)
      → RoundTrips lib.records v
      → length (aggregation_value_to_bytes lib v) ≡ aggregation_value_size lib v
  unfolding aggregation_value_to_bytes aggregation_value_size
  length-aggregation_value_to_bytes v h = simp (byte_lengths, h.size)

  -- How many bytes to_bytes writes beyond bytes_size: four for a map of signatures.
  unfoldable mutual
    pub overrun : MessageBody R → ℕ
    overrun (overlay_body q dest encrypted flood path b) = enclosed_overrun b
    overrun (agreement_body v) = 4
    overrun (signed_body v) = 4
    overrun (contribution_body v) = 0
    overrun (aggregation_body v) = 0
    overrun (byte_body bytes) = 0

    pub enclosed_overrun : Enclosed R → ℕ
    enclosed_overrun null = 0
    enclosed_overrun (enclosed b) = overrun b

  mutual
    unfolding BodySized body_to_bytes body_size overrun

    body_length :
        (b : MessageBody R)
        → BodySized b
        → length (body_to_bytes lib b) ≡ body_size lib b + overrun b
    body_length (overlay_body q dest encrypted flood path b) (hp, hb) = omega (
      arith,
      length-append (path_to_bytes lib path)
          (fields_to_bytes q dest encrypted flood ++ enclosed_to_bytes lib b),
      length-append (fields_to_bytes q dest encrypted flood) (enclosed_to_bytes lib b),
      length-path_to_bytes path hp,
      length-fields_to_bytes q dest encrypted flood,
      enclosed_length b hb,
    )
    body_length (agreement_body v) h = length-agreement_to_bytes v h
    body_length (signed_body v) h = length-signed_to_bytes v h
    body_length (contribution_body v) h = omega (arith, length-contribution_to_bytes v h)
    body_length (aggregation_body v) h = omega (arith, length-aggregation_value_to_bytes v h)
    body_length (byte_body bytes) h = omega (arith, length-byte_body_to_bytes bytes h)

    enclosed_length :
        (b : Enclosed R)
        → EnclosedSized b
        → length (enclosed_to_bytes lib b) ≡ 1 + (enclosed_size lib b + enclosed_overrun b)
    enclosed_length null h = length-bool_to_bytes false
    enclosed_length (enclosed b) h = omega (
      arith,
      length-append (bool_to_bytes true) (body_to_bytes lib b),
      length-bool_to_bytes true,
      body_length b h,
    )

  -- to_bytes of a body writes exactly bytes_size bytes when there is no map of signatures in the
  -- body, and four bytes more when there is one: the size of the map is written in eight bytes and
  -- counted as four. The library is right about the sizes of the parts.
  pub length-body_to_bytes :
      (b : MessageBody R) → BodySized b → length (body_to_bytes lib b) ≡ body_size lib b + overrun b
  length-body_to_bytes b h = body_length b h
