-- ===== src/Serialization/Termination.antt =====
-- from_bytes of a body ends on every buffer: messaging/detail.
use adq.Common.{
  ℕ, zero, suc, ◌+◌, ◌*◌, ◌≤◌, ◌<◌, List, [], ◌∷◌, Bool, true, false, Option, none, some, ℤ, length,
  if◌then◌else◌, ◌==◌, Result, ok, err, Error, undefined, assertion_failed, out_of_fuel, ◌>>=◌, ◌≢◌,
  arith,
}
use adq.Messages.{MessageBody, ValueTuple, SignatureMap}
use adq.Agreement.Maps.{sig_insert}
use adq.Serialization.Bytes.{
  Codec, read_number, read_int, read_bool, read_bytes, read_value, drop, as_int,
}
use adq.Serialization.Values.{
  read_type, read_entries, from_bytes_map, contribution_from_bytes, signed_from_bytes,
  agreement_from_bytes, rsa_signature_size, contribution_size, signed_size, type_overlay,
  type_path_overlay, type_aggregation_value, type_value_contribution, type_signed_value,
  type_agreement_value, type_bytes,
}
use adq.Serialization.Bodies.{
  Library, byte_body_from_bytes, aggregation_value_from_bytes, read_enclosed, from_bytes_common,
  overlay_from_bytes, path_overlay_from_bytes, dispatch_body, body_from_bytes,
}

-- The code returns, throws, or reads past the end of the buffer, which is undefined; it is not cut
-- off.
pub data Finishes {V : Type 0} : Result V → Type 0 where
  returns : (v : V) → Finishes (ok v)
  throws : (e : Error) → e ≢ out_of_fuel → e ≢ undefined → Finishes (err e)
  reads_past_end : Finishes (err undefined)

-- A read returns with less than `n` bytes left, throws, or reads past the end.
pub data Reads {V : Type 0} (n : ℕ) : Result (V × List ℕ) → Type 0 where
  leaves : (v : V × List ℕ) → length v.1 < n → Reads n (ok v)
  stops : (e : Error) → e ≢ out_of_fuel → e ≢ undefined → Reads n (err e)
  leaves_buffer : Reads n (err undefined)

pub bind-Finishes :
    {V W : Type 0} {first : Result V} {next : V → Result W}
    → Finishes first
    → ((v : V) → Finishes (next v))
    → Finishes (first >>= next)
bind-Finishes (returns v) h = h v
bind-Finishes (throws e uncut other) h = throws e uncut other
bind-Finishes reads_past_end h = reads_past_end

pub read-Finishes :
    {V W : Type 0} {n : ℕ} {first : Result (V × List ℕ)} {next : V × List ℕ → Result W}
    → Reads n first
    → ((v : V × List ℕ) → length v.1 < n → Finishes (next v))
    → Finishes (first >>= next)
read-Finishes (leaves v fewer) h = h v fewer
read-Finishes (stops e uncut other) h = throws e uncut other
read-Finishes leaves_buffer h = reads_past_end

bind-Reads :
    {V W : Type 0} {n : ℕ} {first : Result (V × List ℕ)} {next : V × List ℕ → Result (W × List ℕ)}
    → Reads n first
    → ((v : V × List ℕ) → length v.1 < n → Reads n (next v))
    → Reads n (first >>= next)
bind-Reads (leaves v fewer) h = h v fewer
bind-Reads (stops e uncut other) h = stops e uncut other
bind-Reads leaves_buffer h = leaves_buffer

if_Finishes :
    {V : Type 0} (b : Bool) {x y : Result V}
    → Finishes x
    → Finishes y
    → Finishes (if b then x else y)
if_Finishes true hx hy = hx
if_Finishes false hx hy = hy

if_Reads :
    {V : Type 0} {n : ℕ} (b : Bool) {x y : Result (V × List ℕ)}
    → Reads n x
    → Reads n y
    → Reads n (if b then x else y)
if_Reads true hx hy = hx
if_Reads false hx hy = hy

pub number-Reads :
    (n width : ℕ) (buffer : List ℕ) → length buffer < n → Reads n (read_number width buffer)
unfolding read_number
number-Reads n zero buffer h = leaves (0, buffer) h
number-Reads n (suc width) [] h = leaves_buffer
number-Reads n (suc width) (x ∷ buffer) h =
    bind-Reads (number-Reads n width buffer (omega arith))
      (λ v fewer. leaves (x + 256 * v.0, v.1) fewer)

pub bytes-Reads :
    (n size : ℕ) (buffer : List ℕ) → length buffer < n → Reads n (read_bytes size buffer)
unfolding read_bytes
bytes-Reads n zero buffer h = leaves ([], buffer) h
bytes-Reads n (suc size) [] h = leaves_buffer
bytes-Reads n (suc size) (x ∷ buffer) h =
    bind-Reads (bytes-Reads n size buffer (omega arith)) (λ v fewer. leaves (x ∷ v.0, v.1) fewer)

pub int-Reads : (n : ℕ) (buffer : List ℕ) → length buffer < n → Reads n (read_int buffer)
unfolding read_int
int-Reads n buffer h =
    bind-Reads (number-Reads n 4 buffer h) (λ v fewer. leaves (as_int v.0, v.1) fewer)

bool-Reads : (n : ℕ) (buffer : List ℕ) → length buffer < n → Reads n (read_bool buffer)
unfolding read_bool
bool-Reads n [] h = leaves_buffer
bool-Reads n (x ∷ rest) h = leaves (if x == 0 then false else true, rest) (omega arith)

type-Reads : (n : ℕ) (buffer : List ℕ) → length buffer ≤ n → Reads n (read_type buffer)
unfolding read_type read_number
type-Reads n [] h = leaves_buffer
type-Reads n (x ∷ []) h = leaves_buffer
type-Reads n (x ∷ y ∷ rest) h = leaves (x + 256 * (y + 256 * 0), rest) (omega arith)

length-drop : (n : ℕ) (buffer : List ℕ) → length (drop n buffer) ≤ length buffer
unfolding drop
length-drop zero buffer = omega arith
length-drop (suc n) [] = omega arith
length-drop (suc n) (x ∷ buffer) = omega (arith, length-drop n buffer)

-- The library's from_bytes ends.
abbrev pub CodecFinishes : {A : Type 0} → Codec A → Type 0
CodecFinishes codec = (buffer : List ℕ) → Finishes (codec.from_bytes buffer)

value_after-Reads :
    {A : Type 0} (n : ℕ) (size : A → ℕ) (buffer : List ℕ) {r : Result A}
    → length buffer < n
    → Finishes r
    → Reads n (r >>= (λ a. ok (a, drop (size a) buffer)))
value_after-Reads n size buffer fewer (returns a) =
    leaves (a, drop (size a) buffer) (omega (arith, length-drop (size a) buffer))
value_after-Reads n size buffer fewer (throws e uncut other) = stops e uncut other
value_after-Reads n size buffer fewer reads_past_end = leaves_buffer

pub value-Reads :
    {A : Type 0} (codec : Codec A)
    → CodecFinishes codec
    → (n : ℕ) (buffer : List ℕ) → length buffer < n
    → Reads n (read_value codec buffer)
unfolding read_value
value-Reads codec h n buffer fewer = value_after-Reads n codec.bytes_size buffer fewer (h buffer)

entries-Finishes : (n : ℕ) (buffer : List ℕ) (m : SignatureMap) → Finishes (read_entries n buffer m)
unfolding read_entries
entries-Finishes zero buffer m = returns m
entries-Finishes (suc n) buffer m =
    read-Finishes (int-Reads (suc (length buffer)) buffer (omega arith)) (λ key fewer_key.
      read-Finishes (bytes-Reads (suc (length buffer)) rsa_signature_size key.1 fewer_key)
        (λ value fewer. entries-Finishes n value.1 (sig_insert key.0 value.0 m)))

map-Finishes : (buffer : List ℕ) → Finishes (from_bytes_map buffer)
unfolding from_bytes_map
map-Finishes buffer =
    read-Finishes (int-Reads (suc (length buffer)) buffer (omega arith))
      (λ size fewer. entries-Finishes _ size.1 [])

module _ {R : Type 0} (tuples : Codec (ValueTuple R)) (tuples_finish : CodecFinishes tuples) where
  contribution-Finishes : (buffer : List ℕ) → Finishes (contribution_from_bytes tuples buffer)
  unfolding contribution_from_bytes
  contribution-Finishes buffer =
      let n = suc (length buffer) in
      read-Finishes (type-Reads n buffer (omega arith)) (λ type fewer_type.
        read-Finishes (value-Reads tuples tuples_finish n type.1 fewer_type) (λ tuple fewer_tuple.
          read-Finishes (bytes-Reads n rsa_signature_size tuple.1 fewer_tuple)
            (λ signature fewer. returns _)))

  signed-Finishes : (buffer : List ℕ) → Finishes (signed_from_bytes tuples buffer)
  unfolding signed_from_bytes
  signed-Finishes buffer = bind-Finishes (contribution-Finishes buffer) (λ v.
      bind-Finishes (map-Finishes (drop (contribution_size tuples v) buffer)) (λ m. returns _))

  agreement-Finishes : (buffer : List ℕ) → Finishes (agreement_from_bytes tuples buffer)
  unfolding agreement_from_bytes
  agreement-Finishes buffer = bind-Finishes (signed-Finishes buffer) (λ v.
      let rest = drop (signed_size tuples v) buffer in
      read-Finishes (int-Reads (suc (length rest)) rest (omega arith)) (λ id fewer_id.
        read-Finishes (bytes-Reads (suc (length rest)) rsa_signature_size id.1 fewer_id)
          (λ signature fewer. returns _)))

-- Each from_bytes of the library ends.
pub record LibraryFinishes {R : Type 0} (lib : Library R) : Type 0 where
  pub tuples : CodecFinishes lib.tuples
  pub records : CodecFinishes lib.records
  pub byte_vectors : CodecFinishes lib.byte_vectors
  pub int_lists : CodecFinishes lib.int_lists

module _ {R : Type 0} (lib : Library R) (library : LibraryFinishes lib) where
  enclosed-Finishes :
      (from_bytes : List ℕ → Result (MessageBody R)) (n : ℕ)
      → ((buffer : List ℕ) → length buffer < n → Finishes (from_bytes buffer))
      → (remaining : Bool) (buffer : List ℕ) → length buffer < n
      → Finishes (read_enclosed from_bytes remaining buffer)
  unfolding read_enclosed
  enclosed-Finishes from_bytes n h false buffer fewer = returns _
  enclosed-Finishes from_bytes n h true buffer fewer =
      bind-Finishes (h buffer fewer) (λ b. returns _)

  common-Finishes :
      (from_bytes : List ℕ → Result (MessageBody R)) (n : ℕ)
      → ((buffer : List ℕ) → length buffer < n → Finishes (from_bytes buffer))
      → (path : Option (List ℤ)) (buffer : List ℕ) → length buffer < n
      → Finishes (from_bytes_common from_bytes path buffer)
  unfolding from_bytes_common
  common-Finishes from_bytes n h path buffer fewer =
      read-Finishes (int-Reads n buffer fewer) (λ query fewer_query.
        read-Finishes (int-Reads n query.1 fewer_query) (λ destination fewer_destination.
          read-Finishes (bool-Reads n destination.1 fewer_destination) (λ encrypted fewer_encrypted.
            read-Finishes (bool-Reads n encrypted.1 fewer_encrypted) (λ flood fewer_flood.
              read-Finishes (bool-Reads n flood.1 fewer_flood) (λ remaining fewer_remaining.
                bind-Finishes
                  (enclosed-Finishes from_bytes n h remaining.0 remaining.1 fewer_remaining)
                  (λ b. returns _))))))

  dispatch-Finishes :
      (from_bytes : List ℕ → Result (MessageBody R)) (n : ℕ)
      → ((buffer : List ℕ) → length buffer < n → Finishes (from_bytes buffer))
      → (type : ℕ) (buffer : List ℕ) → length buffer ≤ n
      → Finishes (dispatch_body lib from_bytes type buffer)
  unfolding dispatch_body overlay_from_bytes path_overlay_from_bytes aggregation_value_from_bytes
      byte_body_from_bytes
  dispatch-Finishes from_bytes n h type buffer fewer =
      if_Finishes (type == type_overlay)
        (read-Finishes (type-Reads n buffer fewer)
          (λ t less. common-Finishes from_bytes n h none t.1 less))
        (if_Finishes (type == type_path_overlay)
          (read-Finishes (type-Reads n buffer fewer) (λ t less.
            read-Finishes
              (if_Reads (t.0 == type_path_overlay)
                (value-Reads lib.int_lists library.int_lists n t.1 less)
                (stops assertion_failed (λ e. cc) (λ e. cc)))
              (λ path less_path. common-Finishes from_bytes n h (some path.0) path.1 less_path)))
          (if_Finishes (type == type_aggregation_value)
            (bind-Finishes (library.records (drop 2 buffer)) (λ v. returns _))
            (if_Finishes (type == type_value_contribution)
              (bind-Finishes (contribution-Finishes lib.tuples library.tuples buffer)
                (λ v. returns _))
              (if_Finishes (type == type_signed_value)
                (bind-Finishes (signed-Finishes lib.tuples library.tuples buffer) (λ v. returns _))
                (if_Finishes (type == type_agreement_value)
                  (bind-Finishes (agreement-Finishes lib.tuples library.tuples buffer)
                    (λ v. returns _))
                  (if_Finishes (type == type_bytes)
                    (bind-Finishes (library.byte_vectors (drop 2 buffer)) (λ v. returns _))
                    (throws assertion_failed (λ e. cc) (λ e. cc))))))))

  -- MessageBody::from_bytes of a buffer comes to an end within it, whatever its bytes are, or reads
  -- past its end: it returns a body, throws, or reads a byte after the last one, which is undefined;
  -- its recursion is never cut off when its fuel is more than the number of the bytes. The library's
  -- from_bytes are assumed to do one of the same three.
  pub body_from_bytes-Finishes :
      (fuel : ℕ) (buffer : List ℕ)
      → length buffer < fuel
      → Finishes (body_from_bytes lib fuel buffer)
  unfolding body_from_bytes
  body_from_bytes-Finishes zero buffer enough = absurd (omega arith)
  body_from_bytes-Finishes (suc fuel) buffer enough =
      read-Finishes (type-Reads fuel buffer (omega arith)) (λ t less.
        dispatch-Finishes (body_from_bytes lib fuel) fuel
          (λ b fewer. body_from_bytes-Finishes fuel b fewer) t.0 buffer (omega arith))
