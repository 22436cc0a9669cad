-- ===== src/Common/Log.antt =====
-- `(int) ceil(log2(n))`, as the code computes it from a positive `int`: the least k with n ≤ 2^k.
use Prim.Native.Nat.{ℕ, zero, suc, ◌+◌, ◌/◌, ◌≤◌, ◌<◌, ◌^◌}
use mathlib.Core.Logic.{inl, inr}
use mathlib.Core.Bool.{true, false}
use native.Mathlib.Omega.{arith}
use native.Mathlib.Nat.{pow-suc, pow-zero}
use adq.Common.Tests.{leb, leb→le, leb→gt, Bool-cases}

ceil_log2_loop : ℕ → ℕ → ℕ
ceil_log2_loop zero n = 0
ceil_log2_loop (suc fuel) n = elim (leb n 1) [
  | true ↦ 0
  | false ↦ suc (ceil_log2_loop fuel ((n + 1) / 2))
]

unfoldable pub ceil_log2 : ℕ → ℕ
unfolding ceil_log2_loop
ceil_log2 n = ceil_log2_loop n n

least :
    (fuel n : ℕ)
    → 1 < n
    → ((k : ℕ) → (n + 1) / 2 ≤ 2 ^ k → ceil_log2_loop fuel ((n + 1) / 2) ≤ k)
    → (k : ℕ) → n ≤ 2 ^ k
    → suc (ceil_log2_loop fuel ((n + 1) / 2)) ≤ k
least fuel n h half zero l = absurd (omega (arith, pow-zero 2))
least fuel n h half (suc k) l = omega (arith, half k (omega (arith, pow-suc 2 k)))

loop-bounds :
    (fuel n : ℕ)
    → 0 < n
    → n ≤ fuel
    → (n ≤ 2 ^ ceil_log2_loop fuel n) × ((k : ℕ) → n ≤ 2 ^ k → ceil_log2_loop fuel n ≤ k)
unfolding ceil_log2_loop
loop-bounds zero n h f = absurd (omega arith)
loop-bounds (suc fuel) n h f = elim (Bool-cases (leb n 1)) [
  | inl small ↦
      rw (small, ceil_log2_loop) (omega (arith, pow-zero 2, leb→le n 1 small), λ k _. omega arith)
  | inr large ↦
      let more = leb→gt n 1 large in
      let rest = loop-bounds fuel ((n + 1) / 2) (omega arith) (omega arith) in
      rw (large, ceil_log2_loop)
        (
          omega (arith, rest.0, pow-suc 2 (ceil_log2_loop fuel ((n + 1) / 2))),
          least fuel n more rest.1,
        )
]

-- The least exponent of a power of two that reaches n.
pub ceil_log2_least :
    (n : ℕ) → 0 < n → (n ≤ 2 ^ ceil_log2 n) × ((k : ℕ) → n ≤ 2 ^ k → ceil_log2 n ≤ k)
unfolding ceil_log2
ceil_log2_least n h = loop-bounds n n h (omega arith)
