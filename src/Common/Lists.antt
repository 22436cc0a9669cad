-- ===== src/Common/Lists.antt =====
-- Lists measured by native numbers, and membership as a computed predicate.
use Prim.Native.Nat.{ℕ, zero, suc, ◌+◌, ◌<◌}
use mathlib.Core.Path.{◌≡◌, refl, ap}
use mathlib.Core.Logic.{inl, inr}
use mathlib.Core.Bool.{Bool, true, false}
use mathlib.Core.List.{Memᴰ}
use adq.Common.Tests.{◌==◌, ==_iff, ==_refl, if◌then◌else◌, Bool-cases}
use mathlib.Core.List.{List, [], ◌∷◌, ◌++◌}
use mathlib.Core.Option.{Option, none, some}
use native.Mathlib.Omega.{arith}

module _ {ℓ} {A : Type ℓ} where
  abbrev pub length : List A → ℕ
  length [] = 0
  length (x ∷ xs) = suc (length xs)

  pub length-append : (xs ys : List A) → length (xs ++ ys) ≡ length xs + length ys
  length-append [] ys = omega arith
  length-append (x ∷ xs) ys = omega (arith, length-append xs ys)

  abbrev pub get_elem? : List A → ℕ → Option A
  get_elem? [] i = none
  get_elem? (x ∷ xs) zero = some x
  get_elem? (x ∷ xs) (suc i) = get_elem? xs i

  pub get_elem?-append_left :
      (xs ys : List A) (i : ℕ) → i < length xs → get_elem? (xs ++ ys) i ≡ get_elem? xs i
  get_elem?-append_left [] ys i h = absurd (omega arith)
  get_elem?-append_left (x ∷ xs) ys zero h = refl
  get_elem?-append_left (x ∷ xs) ys (suc i) h = get_elem?-append_left xs ys i (omega arith)

  pub get_elem?-append_right :
      (xs ys : List A) (i : ℕ) → get_elem? (xs ++ ys) (length xs + i) ≡ get_elem? ys i
  get_elem?-append_right [] ys i = ap (get_elem? ys) (omega arith)
  get_elem?-append_right (x ∷ xs) ys i =
      let e : suc (length xs) + i ≡ suc (length xs + i) = omega arith in
      rw e (get_elem?-append_right xs ys i)

  pub get_elem?-lt : (xs : List A) (i : ℕ) {x : A} → get_elem? xs i ≡ some x → i < length xs
  get_elem?-lt [] i e = cc
  get_elem?-lt (x ∷ xs) zero e = omega arith
  get_elem?-lt (x ∷ xs) (suc i) e = omega (arith, get_elem?-lt xs i e)

  pub get_elem?-below : (xs : List A) (i : ℕ) → i < length xs → (x : A) × (get_elem? xs i ≡ some x)
  get_elem?-below [] i h = absurd (omega arith)
  get_elem?-below (x ∷ xs) zero h = (x, refl)
  get_elem?-below (x ∷ xs) (suc i) h = get_elem?-below xs i (omega arith)

-- Sets of IDs (std::set<int>) as lists: a test and an insertion.
abbrev pub contains : List ℕ → ℕ → Bool
contains [] a = false
contains (x ∷ xs) a = if a == x then true else contains xs a

abbrev pub insert : ℕ → List ℕ → List ℕ
insert a xs = if contains xs a then xs else a ∷ xs

pub contains-mem : (xs : List ℕ) (a : ℕ) → contains xs a ≡ true → Memᴰ a xs
contains-mem [] a h = cc
contains-mem (x ∷ xs) a h = elim (Bool-cases (a == x)) [
  | inl e ↦ Memᴰ.head ((==_iff a x).0 e)
  | inr e ↦ Memᴰ.tail (contains-mem xs a (rw e at h))
]

pub mem-contains : {a : ℕ} {xs : List ℕ} → Memᴰ a xs → contains xs a ≡ true
mem-contains (Memᴰ.head {x} e) = rw (e, ==_refl x)
mem-contains {a} (Memᴰ.tail {x} {xs} m) = ground (arith, mem-contains m)

pub contains-insert :
    (xs : List ℕ) (a b : ℕ) → contains (insert a xs) b ≡ (if b == a then true else contains xs b)
contains-insert xs a b = elim (Bool-cases (contains xs a)) [
  | inl old ↦ rw old (ground (arith, λ (e : b ≡ a). ap (contains xs) e))
  | inr new ↦ rw new
]

unfoldable pub replicate {ℓ} : {A : Type ℓ} → ℕ → A → List A
replicate zero a = []
replicate (suc n) a = a ∷ replicate n a

pub replicate_zero {ℓ} : {A : Type ℓ} (a : A) → replicate 0 a ≡ []
unfolding replicate
replicate_zero a = refl

pub length-replicate {ℓ} : {A : Type ℓ} (n : ℕ) (a : A) → length (replicate n a) ≡ n
unfolding replicate
length-replicate zero a = refl
length-replicate (suc n) a = ap suc (length-replicate n a)
