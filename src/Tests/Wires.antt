-- ===== src/Tests/Wires.antt =====
-- Runs of the wire format: a library of codecs, and messages that it writes and reads.
use adq.Common.{
  ℕ, zero, suc, ◌+◌, ◌*◌, List, [], ◌∷◌, ◌++◌, ℤ, pos, length, Result, ok, ◌>>=◌, refl, arith,
}
use adq.Messages.{ValueTuple}
use adq.Serialization.Bytes.{
  Codec, RoundTrips, number_to_bytes, int_to_bytes, read_number, read_int, read_bytes, read_value,
  drop,
}
use adq.Serialization.Bodies.{Library}
use adq.Serialization.Termination.{
  Finishes, returns, CodecFinishes, LibraryFinishes, bind-Finishes, read-Finishes, number-Reads,
  bytes-Reads, int-Reads, value-Reads,
}

-- A record is a number of four bytes, and a sequence has its length in front.
abbrev pub records : Codec ℕ
records = record {
  to_bytes = λ n. number_to_bytes 4 n;
  bytes_size = λ n. 4;
  from_bytes = λ buffer. read_number 4 buffer >>= (λ v. ok v.0);
}

abbrev pub byte_vectors : Codec (List ℕ)
byte_vectors = record {
  to_bytes = λ bytes. number_to_bytes 8 (length bytes) ++ bytes;
  bytes_size = λ bytes. 8 + length bytes;
  from_bytes =
      λ buffer. read_number 8 buffer >>= (λ size. read_bytes size.0 size.1 >>= (λ v. ok v.0));
}

unfoldable pub ints_to_bytes : List ℤ → List ℕ
ints_to_bytes [] = []
ints_to_bytes (z ∷ zs) = int_to_bytes z ++ ints_to_bytes zs

unfoldable pub read_ints : ℕ → List ℕ → Result (List ℤ)
read_ints zero buffer = ok []
read_ints (suc n) buffer = do (z, rest) ← read_int buffer; zs ← read_ints n rest; ok (z ∷ zs)

abbrev pub int_lists : Codec (List ℤ)
int_lists = record {
  to_bytes = λ zs. number_to_bytes 8 (length zs) ++ ints_to_bytes zs;
  bytes_size = λ zs. 8 + length zs * 4;
  from_bytes = λ buffer. read_number 8 buffer >>= (λ size. read_ints size.0 size.1);
}

abbrev pub read_tuple : List ℕ → Result (ValueTuple ℕ)
read_tuple buffer = read_int buffer >>= (λ query. read_value records query.1 >>= (λ value.
    int_lists.from_bytes value.1
    >>= (λ proxies. ok (record { query_num = query.0; value = value.0; proxies = proxies }))))

abbrev pub tuples : Codec (ValueTuple ℕ)
tuples = record {
  to_bytes =
      λ t. int_to_bytes t.query_num ++ (number_to_bytes 4 t.value ++ int_lists.to_bytes t.proxies);
  bytes_size = λ t. 4 + 4 + int_lists.bytes_size t.proxies;
  from_bytes = read_tuple;
}

abbrev pub library : Library ℕ
library = record {
  tuples = tuples;
  records = records;
  byte_vectors = byte_vectors;
  int_lists = int_lists;
}

abbrev pub reading_tuple : ValueTuple ℕ
reading_tuple = record { query_num = pos 3; value = 42; proxies = pos 1 ∷ pos 4 ∷ [] }

pub tuple-RoundTrips : RoundTrips tuples reading_tuple
unfolding int_to_bytes read_int number_to_bytes read_number read_value ints_to_bytes read_ints drop
tuple-RoundTrips = record { reads = λ rest. refl; size = refl }

pub record-RoundTrips : RoundTrips records 42
unfolding number_to_bytes read_number
record-RoundTrips = record { reads = λ rest. refl; size = refl }

pub bytes-RoundTrips : RoundTrips byte_vectors (9 ∷ 8 ∷ [])
unfolding number_to_bytes read_number read_bytes
bytes-RoundTrips = record { reads = λ rest. refl; size = refl }

pub path-RoundTrips : RoundTrips int_lists (pos 4 ∷ pos 2 ∷ [])
unfolding int_to_bytes read_int number_to_bytes read_number ints_to_bytes read_ints
path-RoundTrips = record { reads = λ rest. refl; size = refl }

ints-Finishes : (n : ℕ) (buffer : List ℕ) → Finishes (read_ints n buffer)
unfolding read_ints
ints-Finishes zero buffer = returns []
ints-Finishes (suc n) buffer =
    read-Finishes (int-Reads (suc (length buffer)) buffer (omega arith))
      (λ z fewer. bind-Finishes (ints-Finishes n z.1) (λ zs. returns (z.0 ∷ zs)))

records_finish : CodecFinishes records
records_finish buffer =
    read-Finishes (number-Reads (suc (length buffer)) 4 buffer (omega arith))
      (λ v fewer. returns v.0)

bytes_finish : CodecFinishes byte_vectors
bytes_finish buffer =
    let n = suc (length buffer) in
    read-Finishes (number-Reads n 8 buffer (omega arith))
      (λ size fewer. read-Finishes (bytes-Reads n size.0 size.1 fewer) (λ v less. returns v.0))

ints_list_finish : CodecFinishes int_lists
ints_list_finish buffer =
    read-Finishes (number-Reads (suc (length buffer)) 8 buffer (omega arith))
      (λ size fewer. ints-Finishes size.0 size.1)

tuples_finish : CodecFinishes tuples
tuples_finish buffer =
    let n = suc (length buffer) in
    read-Finishes (int-Reads n buffer (omega arith)) (λ query fewer.
      read-Finishes (value-Reads records records_finish n query.1 fewer)
        (λ value less. bind-Finishes (ints_list_finish value.1) (λ proxies. returns _)))

pub library-Finishes : LibraryFinishes library
library-Finishes = record {
  tuples = tuples_finish;
  records = records_finish;
  byte_vectors = bytes_finish;
  int_lists = ints_list_finish;
}
