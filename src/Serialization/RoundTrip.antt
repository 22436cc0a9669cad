-- ===== src/Serialization/RoundTrip.antt =====
-- What from_bytes makes of the bytes that to_bytes wrote for a body: messaging/detail.
use adq.Common.{
  ℕ, zero, suc, ◌+◌, ◌<◌, List, [], ◌∷◌, ◌++◌, Bool, true, false, Option, none, some, ℤ, length,
  length-append, Result, ok, err, ◌>>=◌, ◌≡◌, refl, arith,
}
use adq.Messages.{
  ValueTuple, ValueContribution, MessageBody, Enclosed, null, enclosed, overlay_body,
  agreement_body, signed_body, contribution_body, aggregation_body, byte_body,
}
use adq.Serialization.Bytes.{
  Codec, RoundTrips, IsInt, read_int-int_to_bytes, read_bool-bool_to_bytes, read_bytes-append,
  read_number-number_to_bytes, read_value-to_bytes, length-int_to_bytes, length-bool_to_bytes,
  length-number_to_bytes, drop-append, read_int, read_bool, read_value, drop, int_to_bytes,
  bool_to_bytes,
}
use adq.Serialization.Values.{
  type_overlay, type_path_overlay, type_value_contribution, type_aggregation_value, type_bytes,
  type_to_bytes, read_type, rsa_signature_size, contribution_to_bytes, contribution_from_bytes,
}
use adq.Serialization.Bodies.{
  Library, byte_body_to_bytes, byte_body_from_bytes, aggregation_value_to_bytes,
  aggregation_value_from_bytes, fields_to_bytes, path_to_bytes, body_to_bytes, read_enclosed,
  from_bytes_common, overlay_from_bytes, path_overlay_from_bytes, dispatch_body, body_from_bytes,
}
use mathlib.Core.List.{append-nil, append_assoc}

pub read_type-type_to_bytes :
    (type : ℕ)
    → type < 0x10000
    → (rest : List ℕ) → read_type (type_to_bytes type ++ rest) ≡ ok (type, rest)
unfolding read_type type_to_bytes
read_type-type_to_bytes type h rest = read_number-number_to_bytes 2 type (omega arith) rest

pub length-type_to_bytes : (type : ℕ) → length (type_to_bytes type) ≡ 2
unfolding type_to_bytes
length-type_to_bytes type = length-number_to_bytes 2 type

read_type-contribution_to_bytes :
    {R : Type 0} (tuples : Codec (ValueTuple R)) (v : ValueContribution R) (rest : List ℕ)
    → read_type (contribution_to_bytes tuples v ++ rest)
      ≡ ok (type_value_contribution, tuples.to_bytes v.value_tuple ++ (v.signature ++ rest))
unfolding contribution_to_bytes
read_type-contribution_to_bytes tuples v rest =
    simp (append_assoc, read_type-type_to_bytes type_value_contribution (omega arith))

-- The lengths of what is written for plain values.
pub ruleset byte_lengths = (
  length-append, length-type_to_bytes, length-int_to_bytes, length-bool_to_bytes,
  length-number_to_bytes,
)

pub skip_type : (type : ℕ) (rest : List ℕ) → drop 2 (type_to_bytes type ++ rest) ≡ rest
skip_type type rest = drop-append 2 (type_to_bytes type) (length-type_to_bytes type) rest

-- A contribution that the library can read back, with a whole signature.
pub record ContributionFits {R : Type 0} (tuples : Codec (ValueTuple R)) (v : ValueContribution R)
    : Type 0 where
  pub tuple : RoundTrips tuples v.value_tuple
  pub signature : length v.signature ≡ rsa_signature_size

pub contribution_from_bytes-contribution_to_bytes :
    {R : Type 0} (tuples : Codec (ValueTuple R)) (v : ValueContribution R)
    → ContributionFits tuples v
    → (rest : List ℕ)
    → contribution_from_bytes tuples (contribution_to_bytes tuples v ++ rest) ≡ ok v
unfolding contribution_from_bytes contribution_to_bytes
contribution_from_bytes-contribution_to_bytes tuples v h rest = simp (
  append_assoc,
  read_type-type_to_bytes type_value_contribution (omega arith),
  read_value-to_bytes tuples v.value_tuple h.tuple,
  read_bytes-append rsa_signature_size v.signature h.signature,
)

module _ {R : Type 0} (lib : Library R) where
  abbrev pub PathFits : Option (List ℤ) → Type 0
  PathFits none = Unit
  PathFits (some path) = RoundTrips lib.int_lists path

  -- The numbers of a body are values of an `int`, its signatures are whole, and the library reads
  -- its parts back; no body in it has a map of signatures.
  unfoldable mutual
    pub IsUnsigned : MessageBody R → Type 0
    IsUnsigned (overlay_body q dest encrypted flood path b) =
        IsInt q × IsInt dest × PathFits path × IsUnsignedEnclosed b
    IsUnsigned (agreement_body v) = ⊥
    IsUnsigned (signed_body v) = ⊥
    IsUnsigned (contribution_body v) = ContributionFits lib.tuples v
    IsUnsigned (aggregation_body v) = RoundTrips lib.records v
    IsUnsigned (byte_body bytes) = RoundTrips lib.byte_vectors bytes

    pub IsUnsignedEnclosed : Enclosed R → Type 0
    IsUnsignedEnclosed null = Unit
    IsUnsignedEnclosed (enclosed b) = IsUnsigned b

  common_read :
      (from_bytes : List ℕ → Result (MessageBody R)) (q dest : ℤ) (encrypted flood : Bool)
      (path : Option (List ℤ)) (b : Enclosed R)
      → IsInt q
      → IsInt dest
      → (remaining : Bool) (rest : List ℕ) → read_enclosed from_bytes remaining rest ≡ ok b
      → from_bytes_common from_bytes path
          (fields_to_bytes q dest encrypted flood ++ (bool_to_bytes remaining ++ rest))
        ≡ ok (overlay_body q dest encrypted flood path b)
  unfolding from_bytes_common fields_to_bytes
  common_read from_bytes q dest encrypted flood path b hq hd remaining rest inner = simp (
    append_assoc,
    read_int-int_to_bytes q hq,
    read_int-int_to_bytes dest hd,
    read_bool-bool_to_bytes,
    inner,
  )

  dispatch_overlay :
      (fuel : ℕ) (path : Option (List ℤ))
      → PathFits path
      → (bytes : List ℕ)
      → body_from_bytes lib (suc fuel) (path_to_bytes lib path ++ bytes)
        ≡ from_bytes_common (body_from_bytes lib fuel) path bytes
  unfolding body_from_bytes dispatch_body overlay_from_bytes path_overlay_from_bytes path_to_bytes
  dispatch_overlay fuel none fits bytes = simp (read_type-type_to_bytes type_overlay (omega arith))
  dispatch_overlay fuel (some path) fits bytes = simp (
    append_assoc,
    read_type-type_to_bytes type_path_overlay (omega arith),
    read_value-to_bytes lib.int_lists path fits,
  )

  -- An overlay message is read back when the body that it encloses is.
  overlay_reads :
      (fuel : ℕ) (q dest : ℤ) (encrypted flood : Bool) (path : Option (List ℤ)) (b : Enclosed R)
      → IsInt q
      → IsInt dest
      → PathFits path
      → (remaining : Bool) (bytes rest : List ℕ)
      → read_enclosed (body_from_bytes lib fuel) remaining (bytes ++ rest) ≡ ok b
      → body_from_bytes lib (suc fuel) (
          (path_to_bytes lib path
            ++ (fields_to_bytes q dest encrypted flood ++ (bool_to_bytes remaining ++ bytes)))
          ++ rest)
        ≡ ok (overlay_body q dest encrypted flood path b)
  overlay_reads fuel q dest encrypted flood path b hq hd hp remaining bytes rest inner = simp (
    append_assoc,
    dispatch_overlay fuel path hp,
    common_read (body_from_bytes lib fuel) q dest encrypted flood path b hq hd remaining
        (bytes ++ rest) inner,
  )

  length-overlay :
      (q dest : ℤ) (encrypted flood : Bool) (path : Option (List ℤ)) (b : MessageBody R)
      → length (body_to_bytes lib b)
        < length (body_to_bytes lib (overlay_body q dest encrypted flood path (enclosed b)))
  unfolding body_to_bytes
  length-overlay q dest encrypted flood path b = omega (
    arith,
    length-append {0},
    length-append (path_to_bytes lib path)
        (fields_to_bytes q dest encrypted flood ++ (bool_to_bytes true ++ body_to_bytes lib b)),
    length-append (fields_to_bytes q dest encrypted flood)
        (bool_to_bytes true ++ body_to_bytes lib b),
    length-append (bool_to_bytes true) (body_to_bytes lib b),
    length-bool_to_bytes true,
  )

  contribution_body_reads :
      (fuel : ℕ) (v : ValueContribution R)
      → ContributionFits lib.tuples v
      → (rest : List ℕ)
      → body_from_bytes lib (suc fuel) (contribution_to_bytes lib.tuples v ++ rest)
        ≡ ok (contribution_body v)
  unfolding body_from_bytes dispatch_body
  contribution_body_reads fuel v h rest = simp (
    read_type-contribution_to_bytes lib.tuples v,
    contribution_from_bytes-contribution_to_bytes lib.tuples v h,
  )

  pub read_type-aggregation_value_to_bytes :
      (v : R) (rest : List ℕ)
      → read_type (aggregation_value_to_bytes lib v ++ rest)
        ≡ ok (type_aggregation_value, lib.records.to_bytes v ++ rest)
  unfolding aggregation_value_to_bytes
  read_type-aggregation_value_to_bytes v rest =
      simp (append_assoc, read_type-type_to_bytes type_aggregation_value (omega arith))

  pub aggregation_value_from_bytes-aggregation_value_to_bytes :
      (v : R)
      → RoundTrips lib.records v
      → (rest : List ℕ)
      → aggregation_value_from_bytes lib (aggregation_value_to_bytes lib v ++ rest) ≡ ok v
  unfolding aggregation_value_from_bytes aggregation_value_to_bytes
  aggregation_value_from_bytes-aggregation_value_to_bytes v h rest = rw append_assoc (
      rw
        (
          skip_type type_aggregation_value (lib.records.to_bytes v ++ rest),
          aggregation_value_from_bytes,
        )
        (h.reads rest))

  pub read_type-byte_body_to_bytes :
      (bytes rest : List ℕ)
      → read_type (byte_body_to_bytes lib bytes ++ rest)
        ≡ ok (type_bytes, lib.byte_vectors.to_bytes bytes ++ rest)
  unfolding byte_body_to_bytes
  read_type-byte_body_to_bytes bytes rest =
      simp (append_assoc, read_type-type_to_bytes type_bytes (omega arith))

  pub byte_body_from_bytes-byte_body_to_bytes :
      (bytes : List ℕ)
      → RoundTrips lib.byte_vectors bytes
      → (rest : List ℕ) → byte_body_from_bytes lib (byte_body_to_bytes lib bytes ++ rest) ≡ ok bytes
  unfolding byte_body_from_bytes byte_body_to_bytes
  byte_body_from_bytes-byte_body_to_bytes bytes h rest = rw append_assoc (
      rw (skip_type type_bytes (lib.byte_vectors.to_bytes bytes ++ rest), byte_body_from_bytes)
        (h.reads rest))

  aggregation_body_reads :
      (fuel : ℕ) (v : R)
      → RoundTrips lib.records v
      → (rest : List ℕ)
      → body_from_bytes lib (suc fuel) (aggregation_value_to_bytes lib v ++ rest)
        ≡ ok (aggregation_body v)
  unfolding body_from_bytes dispatch_body
  aggregation_body_reads fuel v h rest = simp (
    read_type-aggregation_value_to_bytes v,
    aggregation_value_from_bytes-aggregation_value_to_bytes v h,
  )

  byte_body_reads :
      (fuel : ℕ) (bytes : List ℕ)
      → RoundTrips lib.byte_vectors bytes
      → (rest : List ℕ)
      → body_from_bytes lib (suc fuel) (byte_body_to_bytes lib bytes ++ rest) ≡ ok (byte_body bytes)
  unfolding body_from_bytes dispatch_body
  byte_body_reads fuel bytes h rest =
      simp (read_type-byte_body_to_bytes bytes, byte_body_from_bytes-byte_body_to_bytes bytes h)

  pub body_from_bytes-body_to_bytes :
      (fuel : ℕ) (b : MessageBody R)
      → IsUnsigned b
      → length (body_to_bytes lib b) < fuel
      → (rest : List ℕ) → body_from_bytes lib fuel (body_to_bytes lib b ++ rest) ≡ ok b
  unfolding body_to_bytes read_enclosed IsUnsigned
  body_from_bytes-body_to_bytes zero b h enough rest = absurd (omega arith)
  body_from_bytes-body_to_bytes (suc fuel) (overlay_body q d c f p null) (hq, hd, hp, hb) enough
        rest =
      rw (← append-nil (bool_to_bytes false))
        (overlay_reads fuel q d c f p null hq hd hp false [] rest refl)
  body_from_bytes-body_to_bytes (suc fuel) (overlay_body q d c f p (enclosed b)) (hq, hd, hp, hb)
        enough rest =
      let inner =
        body_from_bytes-body_to_bytes fuel b hb (omega (arith, length-overlay q d c f p b)) rest in
      overlay_reads fuel q d c f p (enclosed b) hq hd hp true (body_to_bytes lib b) rest (rw inner)
  body_from_bytes-body_to_bytes (suc fuel) (contribution_body v) h enough rest =
      contribution_body_reads fuel v h rest
  body_from_bytes-body_to_bytes (suc fuel) (aggregation_body v) h enough rest =
      aggregation_body_reads fuel v h rest
  body_from_bytes-body_to_bytes (suc fuel) (byte_body bytes) h enough rest =
      byte_body_reads fuel bytes h rest
  body_from_bytes-body_to_bytes (suc fuel) (agreement_body v) h enough rest = elim h [ ]
  body_from_bytes-body_to_bytes (suc fuel) (signed_body v) h enough rest = elim h [ ]
