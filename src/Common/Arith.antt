-- ===== src/Common/Arith.antt =====
-- Powers and remainders.
use Prim.Native.Nat.{ℕ, zero, suc, ◌+◌, ◌*◌, ◌/◌, ◌%◌, ◌^◌}
use mathlib.Core.Path.{◌≡◌, sym, ap, ◌∙◌}
use native.Mathlib.Omega.{arith}
use native.Mathlib.Nat.{pow-suc, pow-zero, mul_assoc, mul_comm, add-mul-mod_self_left, mod-add-div}

-- A factor may be reduced first.
pub mod-mul-mod : (a b m : ℕ) → (a % m * b) % m ≡ (a * b) % m
mod-mul-mod a b m =
    sym (add-mul-mod_self_left (a % m * b) m (a / m * b))
    ∙ ap (λ (t : ℕ). t % m) (grind (arith, ap (λ (t : ℕ). t * b) (mod-add-div a m)))

pub mul-mod-mod : (a b m : ℕ) → (a * (b % m)) % m ≡ (a * b) % m
mul-mod-mod a b m =
    ap (λ (t : ℕ). t % m) (mul_comm a (b % m))
    ∙ mod-mul-mod b a m
    ∙ ap (λ (t : ℕ). t % m) (mul_comm b a)

pub pow-mod-mod : (a k m : ℕ) → (a % m) ^ k % m ≡ a ^ k % m
pow-mod-mod a zero m = ap (λ (t : ℕ). t % m) (pow-zero (a % m) ∙ sym (pow-zero a))
pow-mod-mod a (suc k) m =
    ap (λ (t : ℕ). t % m) (pow-suc (a % m) k)
    ∙ mul-mod-mod ((a % m) ^ k) a m
    ∙ sym (mod-mul-mod ((a % m) ^ k) a m)
    ∙ ap (λ (t : ℕ). t * a % m) (pow-mod-mod a k m)
    ∙ mod-mul-mod (a ^ k) a m
    ∙ ap (λ (t : ℕ). t % m) (sym (pow-suc a k))

pub square-pow : (a k : ℕ) → (a * a) ^ k ≡ a ^ (k + k)
square-pow a zero = pow-zero (a * a) ∙ sym (pow-zero a)
square-pow a (suc k) =
    let twice : suc k + suc k ≡ suc (suc (k + k)) = omega arith in
    pow-suc (a * a) k
    ∙ ap (λ (t : ℕ). t * (a * a)) (square-pow a k)
    ∙ sym (mul_assoc (a ^ (k + k)) a a)
    ∙ sym (ap (λ (t : ℕ). t * a) (pow-suc a (k + k)))
    ∙ sym (pow-suc a (suc (k + k)))
    ∙ ap (λ (t : ℕ). a ^ t) (sym twice)

pub pow-even : (a n : ℕ) → n % 2 ≡ 0 → a ^ n ≡ (a * a) ^ (n / 2)
pow-even a n h =
    ap (λ (t : ℕ). a ^ t) (let e : n ≡ n / 2 + n / 2 = omega arith in e)
    ∙ sym (square-pow a (n / 2))

pub pow-odd : (a n : ℕ) → n % 2 ≡ 1 → a ^ n ≡ a * (a * a) ^ (n / 2)
pow-odd a n h =
    ap (λ (t : ℕ). a ^ t) (let e : n ≡ suc (n / 2 + n / 2) = omega arith in e)
    ∙ pow-suc a (n / 2 + n / 2)
    ∙ mul_comm (a ^ (n / 2 + n / 2)) a
    ∙ ap (λ (t : ℕ). a * t) (sym (square-pow a (n / 2)))

-- A base may be reduced first, also under a factor.
pub mul-pow-mod : (a b k m : ℕ) → (a * (b % m) ^ k) % m ≡ (a * b ^ k) % m
mul-pow-mod a b k m =
    sym (mul-mod-mod a ((b % m) ^ k) m)
    ∙ ap (λ (t : ℕ). (a * t) % m) (pow-mod-mod b k m)
    ∙ mul-mod-mod a (b ^ k) m
