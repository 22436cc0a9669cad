-- ===== src/Serialization/Bytes.antt =====
-- The bytes of plain values, as memcpy copies them: little-endian, an `int` in two's complement.
-- A buffer is the list of the bytes from the place that is read on; a read past its end is undefined.
use adq.Common.{
  ℕ, zero, suc, ◌+◌, ◌-◌, ◌*◌, ◌/◌, ◌%◌, ◌^◌, ◌<◌, List, [], ◌∷◌, ◌++◌, Bool, true, false, ℤ, pos,
  negsuc, as_u32, length, if◌then◌else◌, ltb, ◌==◌, Result, ok, err, undefined, ◌>>=◌, ◌≡◌, refl,
  ap, arith,
}
use native.Mathlib.Nat.{pow-suc, pow-zero}

-- The bytes of an unsigned integer of a width.
unfoldable pub number_to_bytes : ℕ → ℕ → List ℕ
number_to_bytes zero n = []
number_to_bytes (suc width) n = (n % 256) ∷ number_to_bytes width (n / 256)

unfoldable pub read_number : ℕ → List ℕ → Result (ℕ × List ℕ)
read_number zero buffer = ok (0, buffer)
read_number (suc width) [] = err undefined
read_number (suc width) (x ∷ buffer) = do
  (n, rest) ← read_number width buffer
  ok (x + 256 * n, rest)

-- Copies of raw bytes.
unfoldable pub read_bytes : ℕ → List ℕ → Result (List ℕ × List ℕ)
read_bytes zero buffer = ok ([], buffer)
read_bytes (suc n) [] = err undefined
read_bytes (suc n) (x ∷ buffer) = do (bytes, rest) ← read_bytes n buffer; ok (x ∷ bytes, rest)

unfoldable pub drop : ℕ → List ℕ → List ℕ
drop zero buffer = buffer
drop (suc n) [] = []
drop (suc n) (x ∷ buffer) = drop n buffer

unfoldable pub int_to_bytes : ℤ → List ℕ
int_to_bytes z = number_to_bytes 4 (as_u32 z)

abbrev pub as_int : ℕ → ℤ
as_int n = if ltb n 0x80000000 then pos n else negsuc (0x100000000 - 1 - n)

unfoldable pub read_int : List ℕ → Result (ℤ × List ℕ)
read_int buffer = do (n, rest) ← read_number 4 buffer; ok (as_int n, rest)

unfoldable pub bool_to_bytes : Bool → List ℕ
bool_to_bytes b = (if b then 1 else 0) ∷ []

unfoldable pub read_bool : List ℕ → Result (Bool × List ℕ)
read_bool [] = err undefined
read_bool (x ∷ rest) = ok (if x == 0 then false else true, rest)

-- The values of an `int`.
abbrev pub IsInt : ℤ → Type 0
IsInt (pos n) = n < 0x80000000
IsInt (negsuc n) = n < 0x80000000

pub length-number_to_bytes : (width n : ℕ) → length (number_to_bytes width n) ≡ width
unfolding number_to_bytes
length-number_to_bytes zero n = refl
length-number_to_bytes (suc width) n = ap suc (length-number_to_bytes width (n / 256))

pub length-int_to_bytes : (z : ℤ) → length (int_to_bytes z) ≡ 4
unfolding int_to_bytes
length-int_to_bytes z = length-number_to_bytes 4 (as_u32 z)

pub length-bool_to_bytes : (b : Bool) → length (bool_to_bytes b) ≡ 1
unfolding bool_to_bytes
length-bool_to_bytes b = refl

pub read_number-number_to_bytes :
    (width n : ℕ)
    → n < 256 ^ width
    → (rest : List ℕ) → read_number width (number_to_bytes width n ++ rest) ≡ ok (n, rest)
unfolding number_to_bytes read_number
read_number-number_to_bytes zero n h rest =
    let e : 0 ≡ n = omega (arith, pow-zero 256) in ap (λ (t : ℕ). ok (t, rest)) e
read_number-number_to_bytes (suc width) n h rest =
    let smaller : n / 256 < 256 ^ width = omega (arith, pow-suc 256 width) in
    let whole : n % 256 + 256 * (n / 256) ≡ n = omega arith in
    rw (read_number-number_to_bytes width (n / 256) smaller rest)
      (ap (λ (t : ℕ). ok (t, rest)) whole)

pub read_bytes-append :
    (n : ℕ) (bytes : List ℕ)
    → length bytes ≡ n
    → (rest : List ℕ) → read_bytes n (bytes ++ rest) ≡ ok (bytes, rest)
unfolding read_bytes
read_bytes-append zero [] h rest = refl
read_bytes-append (suc n) [] h rest = absurd (omega arith)
read_bytes-append zero (x ∷ bytes) h rest = absurd (omega arith)
read_bytes-append (suc n) (x ∷ bytes) h rest = rw (read_bytes-append n bytes (omega arith) rest)

pub drop-append :
    (n : ℕ) (bytes : List ℕ) → length bytes ≡ n → (rest : List ℕ) → drop n (bytes ++ rest) ≡ rest
unfolding drop
drop-append zero [] h rest = refl
drop-append (suc n) [] h rest = absurd (omega arith)
drop-append zero (x ∷ bytes) h rest = absurd (omega arith)
drop-append (suc n) (x ∷ bytes) h rest = drop-append n bytes (omega arith) rest

as_u32-as_int : (z : ℤ) → IsInt z → (as_int (as_u32 z) ≡ z) × (as_u32 z < 256 ^ 4)
as_u32-as_int (pos n) h = (ground arith, omega arith)
as_u32-as_int (negsuc n) h = (ground arith, omega arith)

pub read_int-int_to_bytes :
    (z : ℤ) → IsInt z → (rest : List ℕ) → read_int (int_to_bytes z ++ rest) ≡ ok (z, rest)
unfolding read_int int_to_bytes
read_int-int_to_bytes z h rest =
    let (same, small) = as_u32-as_int z h in
    rw (read_number-number_to_bytes 4 (as_u32 z) small rest) (ap (λ (t : ℤ). ok (t, rest)) same)

pub read_bool-bool_to_bytes :
    (b : Bool) (rest : List ℕ) → read_bool (bool_to_bytes b ++ rest) ≡ ok (b, rest)
unfolding read_bool bool_to_bytes
read_bool-bool_to_bytes true rest = refl
read_bool-bool_to_bytes false rest = refl

-- The serialization library's operations for a type: to_bytes, bytes_size and from_bytes.
pub record Codec (A : Type 0) : Type 0 where
  pub to_bytes : A → List ℕ
  pub bytes_size : A → ℕ
  pub from_bytes : List ℕ → Result A

-- What the library promises for a value: it writes as many bytes as it says, and reads the value
-- back from them, whatever follows.
pub record RoundTrips {A : Type 0} (codec : Codec A) (a : A) : Type 0 where
  pub reads : (rest : List ℕ) → codec.from_bytes (codec.to_bytes a ++ rest) ≡ ok a
  pub size : length (codec.to_bytes a) ≡ codec.bytes_size a

-- A deserialized value with the place behind it.
unfoldable pub read_value : {A : Type 0} → Codec A → List ℕ → Result (A × List ℕ)
read_value codec buffer = do a ← codec.from_bytes buffer; ok (a, drop (codec.bytes_size a) buffer)

pub read_value-to_bytes :
    {A : Type 0} (codec : Codec A) (a : A)
    → RoundTrips codec a
    → (rest : List ℕ) → read_value codec (codec.to_bytes a ++ rest) ≡ ok (a, rest)
unfolding read_value
read_value-to_bytes codec a h rest =
    rw (h.reads rest, drop-append (codec.bytes_size a) (codec.to_bytes a) h.size rest)

unfoldable pub take : ℕ → List ℕ → List ℕ
take zero buffer = []
take (suc n) [] = []
take (suc n) (x ∷ buffer) = x ∷ take n buffer
