-- ===== src/Meter/Vectors.antt =====
-- The aggregation function SUM_VECTORS of src/apps/smart_meters/SimSmartMeter.cpp.
use adq.Common.{
  ℕ, zero, suc, ◌≡◌, refl, sym, ap, ◌∙◌, List, [], ◌∷◌, ◌++◌, length, Result, ok, err, undefined,
  ◌>>=◌, arith,
}
use adq.Meter.{FixedPoint, fixed_zero, ◌+ᶠ◌}

-- A vector of default-constructed numbers.
unfoldable pub zeros : ℕ → List FixedPoint
zeros zero = []
zeros (suc n) = fixed_zero ∷ zeros n

-- The inner loop, `sum_vector[i] += record_vector[i]`: past the end of the sum it is undefined.
unfoldable pub add_record : List FixedPoint → List FixedPoint → Result (List FixedPoint)
add_record sum_vector [] = ok sum_vector
add_record [] (x ∷ record_vector) = err undefined
add_record (s ∷ sum_vector) (x ∷ record_vector) = do
  rest ← add_record sum_vector record_vector
  ok ((s +ᶠ x) ∷ rest)

unfoldable pub add_records : List FixedPoint → List (List FixedPoint) → Result (List FixedPoint)
add_records sum_vector [] = ok sum_vector
add_records sum_vector (r ∷ records) = do next ← add_record sum_vector r; add_records next records

-- The sum is as long as records[0].
unfoldable pub sum_vectors : List (List FixedPoint) → Result (List FixedPoint)
sum_vectors [] = err undefined
sum_vectors (r ∷ records) = add_records (zeros (length r)) (r ∷ records)

abbrev pub AllOfWidth : ℕ → List (List FixedPoint) → Type 0
AllOfWidth w [] = Unit {0}
AllOfWidth w (r ∷ records) = (length r ≡ w) × AllOfWidth w records

-- Addition element by element, as long as the shorter vector.
unfoldable pub add_vectors : List FixedPoint → List FixedPoint → List FixedPoint
add_vectors [] ys = []
add_vectors (x ∷ xs) [] = []
add_vectors (x ∷ xs) (y ∷ ys) = (x +ᶠ y) ∷ add_vectors xs ys

-- The sum of vectors of width w.
unfoldable pub column_sums : ℕ → List (List FixedPoint) → List FixedPoint
column_sums w [] = zeros w
column_sums w (r ∷ records) = add_vectors r (column_sums w records)

fixed-eq : {x y : FixedPoint} → x.m ≡ y.m → x ≡ y
fixed-eq e = ap (λ (m : ℕ). record { m = m }) e

length-add_vectors :
    (xs ys : List FixedPoint) → length xs ≡ length ys → length (add_vectors xs ys) ≡ length ys
unfolding add_vectors
length-add_vectors [] ys e = e
length-add_vectors (x ∷ xs) [] e = refl
length-add_vectors (x ∷ xs) (y ∷ ys) e = omega (arith, length-add_vectors xs ys (omega (arith, e)))

add_vectors_assoc :
    (xs ys zs : List FixedPoint)
    → add_vectors (add_vectors xs ys) zs ≡ add_vectors xs (add_vectors ys zs)
unfolding add_vectors
add_vectors_assoc [] ys zs = refl
add_vectors_assoc (x ∷ xs) [] zs = refl
add_vectors_assoc (x ∷ xs) (y ∷ ys) [] = refl
add_vectors_assoc (x ∷ xs) (y ∷ ys) (z ∷ zs) =
    let here : (x +ᶠ y) +ᶠ z ≡ x +ᶠ (y +ᶠ z) = fixed-eq (omega arith) in
    let there = add_vectors_assoc xs ys zs in cc

add_vectors_zero : (xs : List FixedPoint) (w : ℕ) → length xs ≡ w → add_vectors (zeros w) xs ≡ xs
unfolding add_vectors zeros
add_vectors_zero [] zero e = refl
add_vectors_zero [] (suc w) e = absurd (omega (arith, e))
add_vectors_zero (x ∷ xs) zero e = absurd (omega (arith, e))
add_vectors_zero (x ∷ xs) (suc w) e =
    let here : fixed_zero +ᶠ x ≡ x = fixed-eq (omega arith) in
    let there = add_vectors_zero xs w (omega (arith, e)) in cc

add_vectors_zero_right :
    (xs : List FixedPoint) (w : ℕ) → length xs ≡ w → add_vectors xs (zeros w) ≡ xs
unfolding add_vectors zeros
add_vectors_zero_right [] w e = refl
add_vectors_zero_right (x ∷ xs) zero e = absurd (omega (arith, e))
add_vectors_zero_right (x ∷ xs) (suc w) e =
    let here : x +ᶠ fixed_zero ≡ x = fixed-eq (omega arith) in
    let there = add_vectors_zero_right xs w (omega (arith, e)) in cc

length-zeros : (w : ℕ) → length (zeros w) ≡ w
unfolding zeros
length-zeros zero = refl
length-zeros (suc w) = ap suc (length-zeros w)

length-column_sums :
    (w : ℕ) (records : List (List FixedPoint))
    → AllOfWidth w records
    → length (column_sums w records) ≡ w
unfolding column_sums
length-column_sums w [] same = length-zeros w
length-column_sums w (r ∷ records) (this, same) =
    let rest = length-column_sums w records same in
    length-add_vectors r (column_sums w records) (this ∙ sym rest) ∙ rest

all-append :
    (w : ℕ) (xs ys : List (List FixedPoint))
    → AllOfWidth w xs
    → AllOfWidth w ys
    → AllOfWidth w (xs ++ ys)
all-append w [] ys a b = b
all-append w (x ∷ xs) ys a b = (a.0, all-append w xs ys a.1 b)

column_sums-append :
    (w : ℕ) (xs ys : List (List FixedPoint))
    → AllOfWidth w xs
    → AllOfWidth w ys
    → column_sums w (xs ++ ys) ≡ add_vectors (column_sums w xs) (column_sums w ys)
unfolding column_sums
column_sums-append w [] ys a b =
    sym (add_vectors_zero (column_sums w ys) w (length-column_sums w ys b))
column_sums-append w (x ∷ xs) ys a b =
    ap (add_vectors x) (column_sums-append w xs ys a.1 b)
    ∙ sym (add_vectors_assoc x (column_sums w xs) (column_sums w ys))

add_record-eq :
    (sum r : List FixedPoint) → length r ≡ length sum → add_record sum r ≡ ok (add_vectors sum r)
unfolding add_record add_vectors
add_record-eq [] [] e = refl
add_record-eq (s ∷ sum) [] e = absurd (omega (arith, e))
add_record-eq [] (x ∷ r) e = absurd (omega (arith, e))
add_record-eq (s ∷ sum) (x ∷ r) e = rw (add_record-eq sum r (omega (arith, e))) refl

add_records-eq :
    (w : ℕ) (sum : List FixedPoint) (records : List (List FixedPoint))
    → length sum ≡ w
    → AllOfWidth w records
    → add_records sum records ≡ ok (add_vectors sum (column_sums w records))
unfolding add_records column_sums
add_records-eq w sum [] e same = ap ok (sym (add_vectors_zero_right sum w e))
add_records-eq w sum (r ∷ records) e (this, same) =
    let next = add_vectors sum r in
    let width : length next ≡ w = length-add_vectors sum r (e ∙ sym this) ∙ this in
    rw (add_record-eq sum r (this ∙ sym e), add_records-eq w next records width same)
      (ap ok (add_vectors_assoc sum r (column_sums w records)))

-- SUM_VECTORS adds element by element: on one or more records of one width it gives the sums of
-- their elements at each index.
sum_vectors_columns :
    (w : ℕ) (r : List FixedPoint) (records : List (List FixedPoint))
    → AllOfWidth w (r ∷ records)
    → sum_vectors (r ∷ records) ≡ ok (column_sums w (r ∷ records))
unfolding sum_vectors
sum_vectors_columns w r records same =
    let columns = column_sums w (r ∷ records) in
    rw (same.0) (
      add_records-eq w (zeros w) (r ∷ records) (length-zeros w) same
      ∙ ap ok (add_vectors_zero columns w (length-column_sums w (r ∷ records) same)))

-- SUM_VECTORS of two lists of records of one width, neither empty, is SUM_VECTORS of the two
-- results: the tree adds the same up whatever it adds first.
pub sum_vectors-append :
    (w : ℕ) (x y : List FixedPoint) (xs ys : List (List FixedPoint))
    → AllOfWidth w (x ∷ xs)
    → AllOfWidth w (y ∷ ys)
    → (a : List FixedPoint) × (b : List FixedPoint) × (c : List FixedPoint) × (sum_vectors (x ∷ xs)
        ≡ ok a)
      × (sum_vectors (y ∷ ys) ≡ ok b)
      × (sum_vectors (a ∷ b ∷ []) ≡ ok c)
      × (sum_vectors (x ∷ xs ++ y ∷ ys) ≡ ok c)
unfolding column_sums
sum_vectors-append w x y xs ys all_x all_y =
    let a = column_sums w (x ∷ xs) in
    let b = column_sums w (y ∷ ys) in
    let width_a = length-column_sums w (x ∷ xs) all_x in
    let width_b = length-column_sums w (y ∷ ys) all_y in
    (
      a,
      b,
      add_vectors a b,
      sum_vectors_columns w x xs all_x,
      sum_vectors_columns w y ys all_y,
      sum_vectors_columns w a (b ∷ []) (width_a, (width_b, tt))
          ∙ ap ok (ap (add_vectors a) (add_vectors_zero_right b w width_b)),
      sum_vectors_columns w x (xs ++ y ∷ ys) (all-append w (x ∷ xs) (y ∷ ys) all_x all_y)
          ∙ ap ok (column_sums-append w (x ∷ xs) (y ∷ ys) all_x all_y),
    )
