-- ===== src/Common/Equality.antt =====
-- Equality operators of the types that the program is generic in, and those of its containers.
use mathlib.Core.Path.{◌≡◌, refl}
use mathlib.Core.Logic.{◌↔◌}
use mathlib.Core.Bool.{Bool, true, false, ◌&&◌}
use mathlib.Core.List.{List, [], ◌∷◌}
use native.Mathlib.Omega.{arith}

-- operator== of a type, which decides equality.
pub record Eq (A : Type 0) : Type 0 where
  pub beq : A → A → Bool
  pub beq_iff : (a b : A) → (beq a b ≡ true) ↔ (a ≡ b)

-- operator== of a vector.
unfoldable pub list_eq : {A : Type 0} → (A → A → Bool) → List A → List A → Bool
list_eq f [] [] = true
list_eq f [] (y ∷ ys) = false
list_eq f (x ∷ xs) [] = false
list_eq f (x ∷ xs) (y ∷ ys) = f x y && list_eq f xs ys

pub list_eq_iff :
    {A : Type 0} (f : A → A → Bool) (h : (a b : A) → (f a b ≡ true) ↔ (a ≡ b)) (xs ys : List A)
    → (list_eq f xs ys ≡ true) ↔ (xs ≡ ys)
unfolding list_eq
list_eq_iff f h [] [] = (λ _. refl, λ _. refl)
list_eq_iff f h [] (y ∷ ys) = (λ e. cc, λ e. cc)
list_eq_iff f h (x ∷ xs) [] = (λ e. cc, λ e. cc)
list_eq_iff f h (x ∷ xs) (y ∷ ys) = (
  λ e. ground (arith, h x y, list_eq_iff f h xs ys),
  λ e. ground (arith, h x y, list_eq_iff f h xs ys),
)
