-- ===== src/Overlay/ModPow.antt =====
-- mod_pow of src/util/Overlay.cpp: it computes powers while its squares fit in 32 bits, and
-- loses them above.
use adq.Common.{
  ℕ, zero, suc, ◌-◌, ◌*◌, ◌/◌, ◌%◌, ◌^◌, ◌≤◌, ◌<◌, ◌≡◌, refl, sym, ap, ◌∙◌, inl, inr, arith, ltb,
  ◌==◌, Bool-cases, ltb→lt, ltb→ge, if◌then◌else◌, lt→ltb, ==_iff,
}
use adq.Common.Arith.{mod-mul-mod, pow-even, pow-odd, mul-pow-mod}
use native.Mathlib.Nat.{
  pow-zero, zero-mod, zero-mul, mul-zero, add-zero, mul_assoc, mod-lt, mod-eq_of_lt, mul-one,
}
use adq.Overlay.Defs.{mod_pow, mod_pow_loop, u32, u64, gossip_target}

-- What a `uint32_t` square keeps.
square_fits : (num m : ℕ) → num < 65536 → (num * num) % u32 % m ≡ (num * num) % m
square_fits num m h = ap (λ (t : ℕ). t % m) (mod-eq_of_lt (grind arith))

product_fits : (a b m : ℕ) → a < 65536 → b < 65536 → (a * b) % u64 % m ≡ (a * b) % m
product_fits a b m h k = ap (λ (t : ℕ). t % m) (mod-eq_of_lt (grind arith))

-- The new `result` of a round.
abbrev next_result : ℕ → ℕ → ℕ → ℕ → ℕ
next_result num pow m result = if pow % 2 == 1 then ((result * num) % u64) % m else result

module _ (m : ℕ) (big : 1 < m) where
  below : (a : ℕ) → a % m < m
  below a = mod-lt a (omega arith)

  next_result-lt : (num pow result : ℕ) → result < m → next_result num pow m result < m
  next_result-lt num pow result h = elim (Bool-cases (pow % 2 == 1)) [
    | inl odd ↦ rw odd (below (result * num % u64))
    | inr even ↦ rw even h
  ]

  loop-lt : (fuel num pow result : ℕ) → result < m → mod_pow_loop fuel num pow m result < m
  unfolding mod_pow_loop
  loop-lt zero num pow result h = h
  loop-lt (suc fuel) num pow result h = elim (Bool-cases (ltb 0 pow)) [
    | inr stop ↦ rw (stop, mod_pow_loop) h
    | inl go ↦
        rw (go, mod_pow_loop)
          (loop-lt fuel _ _ (next_result num pow m result) (next_result-lt num pow result h))
  ]

pub mod_pow-lt : (num pow m : ℕ) → 1 < m → m ≤ u32 → mod_pow num pow m < m
unfolding mod_pow
mod_pow-lt num pow m big fits =
    let bounded = loop-lt m big pow num pow 1 big in omega (arith, bounded)

module _ (m : ℕ) (big : 1 < m) (small : m ≤ 65536) where
  -- A round leaves result * num^pow alone, modulo m.
  next_result-pow :
      (num pow result : ℕ)
      → num < 65536
      → result < m
      → (next_result num pow m result * ((num * num) % u32 % m) ^ (pow / 2)) % m
        ≡ (result * num ^ pow) % m
  next_result-pow num pow result n h = rw (square_fits num m n) (elim (Bool-cases (pow % 2 == 1)) [
    | inl odd ↦
        rw (odd, product_fits result num m (omega arith) n)
          (mod-mul-mod (result * num) _ m
            ∙ mul-pow-mod (result * num) (num * num) (pow / 2) m
            ∙ ap (λ (t : ℕ). t % m)
                (mul_assoc result num _
                  ∙ ap (λ (t : ℕ). result * t)
                      (sym (pow-odd num pow ((==_iff (pow % 2) 1).0 odd)))))
    | inr even ↦ rw even (
        mul-pow-mod result (num * num) (pow / 2) m
        ∙ ap (λ (t : ℕ). (result * t) % m) (sym (pow-even num pow (ground arith))))
  ])

  zeroth : (num pow result : ℕ) → pow ≤ 0 → result % m ≡ (result * num ^ pow) % m
  zeroth num pow result h =
      let none_left : pow ≡ 0 = omega arith in
      rw none_left
        (ap (λ (t : ℕ). t % m) (sym (ap (λ (t : ℕ). result * t) (pow-zero num) ∙ mul-one result)))

  -- num^pow by squares, one bit of the exponent at a time.
  loop-pow :
      (fuel num pow result : ℕ)
      → pow ≤ fuel
      → num < 65536
      → result < m
      → mod_pow_loop fuel num pow m result % m ≡ (result * num ^ pow) % m
  unfolding mod_pow_loop
  loop-pow zero num pow result f n h = zeroth num pow result f
  loop-pow (suc fuel) num pow result f n h = elim (Bool-cases (ltb 0 pow)) [
    | inr stop ↦ rw (stop, mod_pow_loop) (zeroth num pow result (omega (arith, ltb→ge 0 pow stop)))
    | inl go ↦
        let positive = ltb→lt 0 pow go in
        let squared = below m big ((num * num) % u32) in
        rw (go, mod_pow_loop)
          (loop-pow fuel ((num * num) % u32 % m) (pow / 2) (next_result num pow m result)
              (omega arith) (omega arith) (next_result-lt m big num pow result h)
            ∙ next_result-pow num pow result n h)
  ]

-- For a modulus between 2 and 2^16 and a base below 2^16, mod_pow returns num^pow % mod: neither
-- the 32-bit squares nor the 64-bit products lose a bit.
pub mod_pow-eq-pow :
    (num pow m : ℕ) → 1 < m → m ≤ 65536 → num < 65536 → mod_pow num pow m ≡ num ^ pow % m
unfolding mod_pow
mod_pow-eq-pow num pow m big small n =
    let bounded = loop-lt m big pow num pow 1 big in
    mod-eq_of_lt (omega arith)
    ∙ sym (mod-eq_of_lt bounded)
    ∙ loop-pow m big small pow num pow 1 (omega arith) n big
    ∙ ap (λ (t : ℕ). t % m) (omega arith)

module _ (m : ℕ) where
  loop_absorbs : (fuel num pow : ℕ) → mod_pow_loop fuel num pow m 0 ≡ 0
  unfolding mod_pow_loop
  loop_absorbs zero num pow = refl
  loop_absorbs (suc fuel) num pow = elim (Bool-cases (ltb 0 pow)) [
    | inr stop ↦ rw (stop, mod_pow_loop)
    | inl go ↦
        rw (go, mod_pow_loop)
          (elim (Bool-cases (pow % 2 == 1)) [
            | inl odd ↦ rw (odd, zero-mul, zero-mod) (loop_absorbs fuel _ (pow / 2))
            | inr even ↦ rw even (loop_absorbs fuel _ (pow / 2))
          ])
  ]

  loop_zero_base :
      (fuel pow result : ℕ) → 0 < pow → pow ≤ fuel → mod_pow_loop fuel 0 pow m result ≡ 0
  unfolding mod_pow_loop
  loop_zero_base zero pow result h f = absurd (omega arith)
  loop_zero_base (suc fuel) pow result h f =
      rw (lt→ltb 0 pow h, mod_pow_loop)
        (rw zero-mod (elim (Bool-cases (pow % 2 == 1)) [
          | inl odd ↦ rw (odd, mul-zero, zero-mod) (loop_absorbs fuel 0 (pow / 2))
          | inr even ↦ rw even (loop_zero_base fuel (pow / 2) result (ground arith) (omega arith))
        ]))

  -- One round back from a base that loses all later bits.
  loop_before :
      (fuel num num' pow : ℕ)
      → (num * num) % u32 % m ≡ num'
      → 0 < pow
      → ((result : ℕ) → mod_pow_loop fuel num' (pow / 2) m result ≡ 0)
      → (result : ℕ) → mod_pow_loop (suc fuel) num pow m result ≡ 0
  unfolding mod_pow_loop
  loop_before fuel num num' pow e h later result =
      rw (lt→ltb 0 pow h, mod_pow_loop) (rw e (later (next_result num pow m result)))

-- With a modulus above 2^16 mod_pow makes 0 of every power of 2 from 2^32 on, because the square of
-- 65536 wraps to 0 in 32 bits.
pub mod_pow_overflow : (pow m : ℕ) → 65536 < m → 32 ≤ pow → mod_pow 2 pow m ≡ 0
unfolding mod_pow
mod_pow_overflow pow m big h =
    let fuel : pow ≡ suc (suc (suc (suc (suc (pow - 5))))) = omega arith in
    let small = λ (a : ℕ) (l : a ≤ 65536). mod-eq_of_lt {n = a} {m = m} (omega arith) in
    let r5 = λ (r : ℕ).
      loop_zero_base m (pow - 5) (pow / 2 / 2 / 2 / 2 / 2) r (omega arith) (omega arith) in
    let r4 = loop_before m (pow - 5) 65536 0 (pow / 2 / 2 / 2 / 2) (zero-mod m) (omega arith) r5 in
    let r3 =
      loop_before m (suc (pow - 5)) 256 65536 (pow / 2 / 2 / 2) (small 65536 (omega arith))
        (omega arith) r4 in
    let r2 =
      loop_before m (suc (suc (pow - 5))) 16 256 (pow / 2 / 2) (small 256 (omega arith))
        (omega arith) r3 in
    let r1 =
      loop_before m (suc (suc (suc (pow - 5)))) 4 16 (pow / 2) (small 16 (omega arith))
        (omega arith) r2 in
    let r0 =
      loop_before m (suc (suc (suc (suc (pow - 5))))) 2 4 pow (small 4 (omega arith)) (omega arith)
        r1 1 in
    ap (λ (t : ℕ). mod_pow_loop t 2 pow m 1 % u32) fuel ∙ ap (λ (t : ℕ). t % u32) r0

-- With more than 2^16 nodes, and fewer than 2^32, every node is its own gossip target from round 32
-- on.
pub gossip_target_overflow :
    (source_id round group_size : ℕ)
    → 65536 < group_size
    → group_size < u32
    → source_id < group_size
    → 32 ≤ round
    → gossip_target source_id round group_size ≡ source_id
unfolding gossip_target
gossip_target_overflow source_id round group_size big fits member late =
    rw (mod_pow_overflow round group_size big late, add-zero)
      (rw (mod-eq_of_lt {n = source_id} {m = u32} (omega arith)) (mod-eq_of_lt member))
