-- ===== src/Serialization/Values.antt =====
-- to_bytes, bytes_size and from_bytes of the bodies that hold values and signatures: messaging/detail
-- of ValueContribution, SignedValue and AgreementValue.
use adq.Common.{
  ℕ, zero, suc, ◌+◌, ◌*◌, List, [], ◌∷◌, ◌++◌, ℤ, pos, negsuc, length, Result, ok, ◌>>=◌,
}
use adq.Messages.{ValueTuple, ValueContribution, SignatureMap, SignedValue, AgreementValue}
use adq.Agreement.Maps.{sig_insert}
use adq.Serialization.Bytes.{
  Codec, number_to_bytes, int_to_bytes, read_number, read_int, read_bytes, read_value, drop,
}

-- MessageBodyType.
abbrev pub type_overlay : ℕ
type_overlay = 0

abbrev pub type_path_overlay : ℕ
type_path_overlay = 1

abbrev pub type_agreement_value : ℕ
type_agreement_value = 2

abbrev pub type_signed_value : ℕ
type_signed_value = 3

abbrev pub type_value_contribution : ℕ
type_value_contribution = 4

abbrev pub type_aggregation_value : ℕ
type_aggregation_value = 5

abbrev pub type_bytes : ℕ
type_bytes = 6

abbrev pub rsa_signature_size : ℕ
rsa_signature_size = 256

-- A MessageBodyType or a MessageType, whose underlying type is int16_t.
unfoldable pub type_to_bytes : ℕ → List ℕ
type_to_bytes type = number_to_bytes 2 type

unfoldable pub read_type : List ℕ → Result (ℕ × List ℕ)
read_type buffer = read_number 2 buffer

-- The first two bytes of a buffer are written anew.
unfoldable pub rewrite_type : ℕ → List ℕ → List ℕ
rewrite_type type buffer = type_to_bytes type ++ drop 2 buffer

-- The maps of signatures.
unfoldable pub map_size : SignatureMap → ℕ
map_size sig_map = 4 + length sig_map * (4 + rsa_signature_size)

unfoldable pub entries_to_bytes : SignatureMap → List ℕ
entries_to_bytes [] = []
entries_to_bytes ((key, value) ∷ sig_map) = int_to_bytes key ++ (value ++ entries_to_bytes sig_map)

-- The number of entries is written as the std::size_t that size() returns.
unfoldable pub map_to_bytes : SignatureMap → List ℕ
map_to_bytes sig_map = number_to_bytes 8 (length sig_map) ++ entries_to_bytes sig_map

unfoldable pub read_entries : ℕ → List ℕ → SignatureMap → Result SignatureMap
read_entries zero buffer new_map = ok new_map
read_entries (suc n) buffer new_map = do
  (key, after_key) ← read_int buffer
  (value, rest) ← read_bytes rsa_signature_size after_key
  read_entries n rest (sig_insert key value new_map)

-- How often a loop to a bound that is an `int` runs.
abbrev loop_count : ℤ → ℕ
loop_count (pos n) = n
loop_count (negsuc n) = 0

-- The number of entries is read as an `int`.
unfoldable pub from_bytes_map : List ℕ → Result SignatureMap
from_bytes_map buffer = do (size, rest) ← read_int buffer; read_entries (loop_count size) rest []

module _ {R : Type 0} (tuples : Codec (ValueTuple R)) where
  unfoldable pub contribution_size : ValueContribution R → ℕ
  contribution_size v = 2 + tuples.bytes_size v.value_tuple + length v.signature

  unfoldable pub contribution_to_bytes : ValueContribution R → List ℕ
  contribution_to_bytes v =
      type_to_bytes type_value_contribution ++ (tuples.to_bytes v.value_tuple ++ v.signature)

  unfoldable pub contribution_from_bytes : List ℕ → Result (ValueContribution R)
  contribution_from_bytes buffer = do
    (type, after_type) ← read_type buffer
    (value_tuple, after_tuple) ← read_value tuples after_type
    (signature, rest) ← read_bytes rsa_signature_size after_tuple
    ok (record { value_tuple = value_tuple; signature = signature })

  unfoldable pub signed_size : SignedValue R → ℕ
  signed_size v = contribution_size v.value + map_size v.signatures

  unfoldable pub signed_to_bytes : SignedValue R → List ℕ
  signed_to_bytes v =
      rewrite_type type_signed_value (contribution_to_bytes v.value) ++ map_to_bytes v.signatures

  unfoldable pub signed_from_bytes : List ℕ → Result (SignedValue R)
  signed_from_bytes buffer = do
    contribution ← contribution_from_bytes buffer
    signatures ← from_bytes_map (drop (contribution_size contribution) buffer)
    ok (record { value = contribution; signatures = signatures })

  unfoldable pub agreement_size : AgreementValue R → ℕ
  agreement_size v = signed_size v.signed_value + 4 + length v.accepter_signature

  unfoldable pub agreement_to_bytes : AgreementValue R → List ℕ
  agreement_to_bytes v =
      rewrite_type type_agreement_value (signed_to_bytes v.signed_value)
      ++ (int_to_bytes v.accepter_id ++ v.accepter_signature)

  unfoldable pub agreement_from_bytes : List ℕ → Result (AgreementValue R)
  agreement_from_bytes buffer = do
    signed_value ← signed_from_bytes buffer
    (accepter_id, after_id) ← read_int (drop (signed_size signed_value) buffer)
    (signature, rest) ← read_bytes rsa_signature_size after_id
    ok (record {
      signed_value = signed_value;
      accepter_id = accepter_id;
      accepter_signature = signature;
    })
