-- ===== src/Serialization/Signatures.antt =====
-- What SignedValue::from_bytes makes of the map that its to_bytes wrote: messaging/detail.
use adq.Common.{
  ℕ, zero, suc, ◌+◌, ◌*◌, ◌/◌, ◌%◌, ◌≤◌, ◌<◌, List, [], ◌∷◌, ◌++◌, ℤ, pos, length, length-append,
  ◌==ℤ◌, ltb_ℤ, ok, ◌≡◌, refl, arith, inl, inr, Bool-cases,
}
use adq.Messages.{SignatureArray, SignatureMap}
use adq.Agreement.Maps.{sig_insert}
use adq.Serialization.Bytes.{
  as_int, int_to_bytes, number_to_bytes, read_int, read_bytes, read_number, read_int-int_to_bytes,
  read_bytes-append, length-int_to_bytes,
}
use adq.Serialization.Values.{
  rsa_signature_size, entries_to_bytes, map_to_bytes, read_entries, from_bytes_map,
}
use adq.Serialization.Sizes.{AllWhole, length-entries_to_bytes}
use mathlib.Core.List.{Memᴰ, append_assoc}

-- A size below 2^31 is the same in eight bytes as in four, with four zero bytes behind.
size_bytes :
    (n : ℕ) → n < 0x80000000 → number_to_bytes 8 n ≡ int_to_bytes (pos n) ++ int_to_bytes (pos 0)
unfolding number_to_bytes int_to_bytes
size_bytes n h =
    let high : n / 256 / 256 / 256 / 256 ≡ 0 = omega arith in
    let low : n % 0x100000000 ≡ n = omega arith in rw (high, low)

-- An entry stays in a map into which another is inserted.
mem-sig_insert :
    (e : ℤ × SignatureArray) (k : ℤ) (v : SignatureArray) (m : SignatureMap)
    → Memᴰ e m
    → Memᴰ e (sig_insert k v m)
unfolding sig_insert
mem-sig_insert e k v [] h = elim h [ ]
mem-sig_insert e k v ((j, w) ∷ m) (Memᴰ.head q) = elim (Bool-cases (k ==ℤ j)) [
  | inl same ↦ rw same (Memᴰ.head q)
  | inr other ↦ elim (Bool-cases (ltb_ℤ k j)) [
    | inl below ↦ rw (other, below) (Memᴰ.tail (Memᴰ.head q))
    | inr above ↦ rw (other, above) (Memᴰ.head q)
  ]
]
mem-sig_insert e k v ((j, w) ∷ m) (Memᴰ.tail t) = elim (Bool-cases (k ==ℤ j)) [
  | inl same ↦ rw same (Memᴰ.tail t)
  | inr other ↦ elim (Bool-cases (ltb_ℤ k j)) [
    | inl below ↦ rw (other, below) (Memᴰ.tail (Memᴰ.tail t))
    | inr above ↦ rw (other, above) (Memᴰ.tail (mem-sig_insert e k v m t))
  ]
]

read_long_number :
    (n : ℕ) (buffer : List ℕ)
    → n ≤ length buffer
    → (value : ℕ) × (rest : List ℕ) × (read_number n buffer ≡ ok (value, rest))
      × (n + length rest ≡ length buffer)
unfolding read_number
read_long_number zero buffer h = (0, buffer, refl, omega arith)
read_long_number (suc n) [] h = absurd (omega arith)
read_long_number (suc n) (x ∷ buffer) h =
    let (value, rest, e, size) = read_long_number n buffer (omega arith) in
    (x + 256 * value, rest, rw e, omega (arith, size))

read_long_bytes :
    (n : ℕ) (buffer : List ℕ)
    → n ≤ length buffer
    → (bytes : List ℕ) × (rest : List ℕ) × (read_bytes n buffer ≡ ok (bytes, rest))
      × (n + length rest ≡ length buffer)
unfolding read_bytes
read_long_bytes zero buffer h = ([], buffer, refl, omega arith)
read_long_bytes (suc n) [] h = absurd (omega arith)
read_long_bytes (suc n) (x ∷ buffer) h =
    let (bytes, rest, e, size) = read_long_bytes n buffer (omega arith) in
    (x ∷ bytes, rest, rw e, omega (arith, size))

-- Reading entries from a buffer that holds enough of them succeeds, and drops no entry.
read_entries_keeps :
    (n : ℕ) (buffer : List ℕ) (m : SignatureMap) (e : ℤ × SignatureArray)
    → n * (4 + rsa_signature_size) ≤ length buffer
    → Memᴰ e m
    → (read : SignatureMap) × (read_entries n buffer m ≡ ok read) × Memᴰ e read
unfolding read_entries read_int
read_entries_keeps zero buffer m e h mem = (m, refl, mem)
read_entries_keeps (suc n) buffer m e h mem =
    let (number, after_key, key, key_size) = read_long_number 4 buffer (omega arith) in
    let (value, rest, signature, size) =
      read_long_bytes rsa_signature_size after_key (omega arith) in
    let (read, reads, there) =
      read_entries_keeps n rest (sig_insert (as_int number) value m) e (omega arith)
        (mem-sig_insert e (as_int number) value m mem) in
    (read, rw (key, signature) reads, there)

map_bytes :
    (i : ℤ) (front back : List ℕ) (m : SignatureMap) (rest : List ℕ)
    → suc (length m) < 0x80000000
    → map_to_bytes ((i, front ++ back) ∷ m) ++ rest
      ≡ int_to_bytes (pos (suc (length m)))
        ++ (int_to_bytes (pos 0)
            ++ ((int_to_bytes i ++ front) ++ (back ++ (entries_to_bytes m ++ rest))))
unfolding map_to_bytes entries_to_bytes
map_bytes i front back m rest h = rw (size_bytes (suc (length m)) h) (simp append_assoc)

-- The size of a map is read from its low four bytes, the first key from the high ones, which are
-- zero, and the first signature from the first key and the first signature but for its last four bytes.
pub from_bytes_map-map_to_bytes_misread :
    (i : ℤ) (front back : List ℕ) (m : SignatureMap) (rest : List ℕ)
    → length front ≡ 252
    → length back ≡ 4
    → AllWhole m
    → suc (length m) < 0x80000000
    → (read : SignatureMap) × (from_bytes_map (map_to_bytes ((i, front ++ back) ∷ m) ++ rest)
        ≡ ok read)
      × Memᴰ (pos 0, int_to_bytes i ++ front) read
unfolding from_bytes_map read_entries sig_insert
from_bytes_map-map_to_bytes_misread i front back m rest hf hb hm small =
    let value = int_to_bytes i ++ front in
    let whole : length value ≡ rsa_signature_size =
      omega (arith, length-append (int_to_bytes i) front, length-int_to_bytes i, hf) in
    let enough : length m * (4 + rsa_signature_size)
        ≤ length (back ++ (entries_to_bytes m ++ rest)) =
      omega (
        arith,
        length-append back (entries_to_bytes m ++ rest),
        length-append (entries_to_bytes m) rest,
        length-entries_to_bytes m hm,
      ) in
    let (read, reads, there) =
      read_entries_keeps (length m) (back ++ (entries_to_bytes m ++ rest)) ((pos 0, value) ∷ [])
        (pos 0, value) enough (Memᴰ.head refl) in
    (
      read,
      rw (map_bytes i front back m rest small) (
          simp
            (
              read_int-int_to_bytes (pos (suc (length m))) small,
              read_int-int_to_bytes (pos 0) (omega arith),
              read_bytes-append rsa_signature_size value whole,
            )
            reads),
      there,
    )
