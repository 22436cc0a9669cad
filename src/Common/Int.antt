-- ===== src/Common/Int.antt =====
-- The code's `int` where it may be negative: `negsuc n` is -(n + 1).
use Prim.Native.Nat.{ℕ, ◌+◌, ◌-◌, ◌%◌}
use mathlib.Core.Path.{◌≡◌, refl}
use mathlib.Core.Logic.{◌↔◌}
use mathlib.Core.Bool.{Bool, true, false}
use native.Mathlib.Omega.{arith}
use adq.Common.Tests.{ltb, ◌==◌, if◌then◌else◌, leb}

pub data ℤ : Type 0 where
  pos : ℕ → ℤ
  negsuc : ℕ → ℤ

infix 50 ◌==ℤ◌
abbrev pub ◌==ℤ◌ : ℤ → ℤ → Bool
pos a ==ℤ pos b = a == b
pos a ==ℤ negsuc b = false
negsuc a ==ℤ pos b = false
negsuc a ==ℤ negsuc b = a == b

abbrev pub ltb_ℤ : ℤ → ℤ → Bool
ltb_ℤ (pos a) (pos b) = ltb a b
ltb_ℤ (pos a) (negsuc b) = false
ltb_ℤ (negsuc a) (pos b) = true
ltb_ℤ (negsuc a) (negsuc b) = ltb b a

pub ==ℤ_iff : (a b : ℤ) → ((a ==ℤ b) ≡ true) ↔ (a ≡ b)
==ℤ_iff (pos a) (pos b) = ground arith
==ℤ_iff (pos a) (negsuc b) = (λ e. cc, λ e. cc)
==ℤ_iff (negsuc a) (pos b) = (λ e. cc, λ e. cc)
==ℤ_iff (negsuc a) (negsuc b) = ground arith

pub ==ℤ_refl : (a : ℤ) → (a ==ℤ a) ≡ true
==ℤ_refl a = (==ℤ_iff a a).1 refl

-- An increment of an `int`.
abbrev pub suc_ℤ : ℤ → ℤ
suc_ℤ (pos a) = pos (a + 1)
suc_ℤ (negsuc a) = if a == 0 then pos 0 else negsuc (a - 1)

-- `a >= n` for a number n.
abbrev pub ge_ℕ : ℤ → ℕ → Bool
ge_ℕ (pos a) n = leb n a
ge_ℕ (negsuc a) n = false

-- The conversion to `uint32_t`.
abbrev pub as_u32 : ℤ → ℕ
as_u32 (pos a) = a % 0x100000000
as_u32 (negsuc a) = 0x100000000 - 1 - a % 0x100000000
