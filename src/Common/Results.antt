-- ===== src/Common/Results.antt =====
-- Results of code that throws; `undefined` is undefined behaviour, such as a write past the end
-- of an array, `assertion_failed` a failed assert, and `out_of_fuel` a recursion that was cut off.
use mathlib.Core.Path.{◌≡◌, refl}

pub data Error : Type 0 where
  too_many_groups : Error
  invalid_node : Error
  no_path : Error
  out_of_range : Error
  undefined : Error
  assertion_failed : Error
  out_of_fuel : Error

pub data Result {ℓ} (V : Type ℓ) : Type ℓ where
  ok : V → Result V
  err : Error → Result V

-- An exception skips what follows.
infixl 5 ◌>>=◌
abbrev pub ◌>>=◌ {ℓ κ} : {V : Type ℓ} {W : Type κ} → Result V → (V → Result W) → Result W
err thrown >>= next = err thrown
ok v >>= next = next v

-- What a `do` block that returns did first, and what it did then.
pub >>=-eq-ok {ℓ κ} :
    {V : Type ℓ} {W : Type κ} (first : Result V) (next : V → Result W) {w : W}
    → (first >>= next) ≡ ok w
    → (v : V) × (first ≡ ok v) × (next v ≡ ok w)
>>=-eq-ok (err thrown) next returned = cc
>>=-eq-ok (ok v) next returned = (v, refl, returned)
