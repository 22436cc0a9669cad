-- ===== src/Overlay/Gossip.antt =====
-- gossip_target, gossip_predecessor and their memo tables.
use adq.Common.{
  ℕ, ◌+◌, ◌-◌, ◌*◌, ◌%◌, ◌^◌, ◌≤◌, ◌<◌, ◌≡◌, ap, ◌∙◌, inl, inr, arith, ltb, Bool-cases, ltb→lt,
  ltb→ge, if◌then◌else◌, leb,
}
use native.Mathlib.Nat.{mod-eq_of_lt, mod-lt, mod-eq-sub-mod, add-mod-mod}
use adq.Overlay.Defs.{u32, gossip_target, gossip_predecessor, mod_subtract}
use adq.Overlay.ModPow.{mod_pow-lt, mod_pow-eq-pow}

-- For 2 to 2^16 nodes the gossip target of node i in round t is i + 2^t mod N.
pub gossip_target-eq :
    (source_id round group_size : ℕ)
    → 1 < group_size
    → group_size ≤ 65536
    → source_id < group_size
    → gossip_target source_id round group_size ≡ (source_id + 2 ^ round) % group_size
unfolding gossip_target
gossip_target-eq i t n big small h =
    let bounded = mod_pow-lt 2 t n big (omega arith) in
    rw (mod_pow-eq-pow 2 t n big small (omega arith)) (
      ap (λ (x : ℕ). x % n) (mod-eq_of_lt (omega (arith, mod-lt (2 ^ t) {m = n} (omega arith))))
      ∙ add-mod-mod i (2 ^ t) n)

-- Below 2n a remainder is a subtraction at most.
sum_mod :
    (n a : ℕ) → 1 < n → n < 0x80000000 → a < 2 * n → a % u32 % n ≡ (if ltb a n then a else a - n)
sum_mod n a h k l =
    ap (λ (t : ℕ). t % n) (mod-eq_of_lt (omega arith)) ∙ elim (Bool-cases (ltb a n)) [
      | inl lt ↦ rw lt (mod-eq_of_lt (ltb→lt a n lt))
      | inr ge ↦
          rw ge (mod-eq-sub-mod (ltb→ge a n ge) ∙ mod-eq_of_lt (omega (arith, ltb→ge a n ge)))
    ]

-- mod_subtract on amounts below m: the remainders do nothing.
pub mod_subtract_lem :
    (x y m : ℕ) → x < m → y < m → mod_subtract x y m ≡ (if leb y x then x - y else m - (y - x))
unfolding mod_subtract
mod_subtract_lem x y m h k = ground (
  arith,
  mod-eq_of_lt {n = x - y} {m = m} (omega arith),
  mod-eq_of_lt {n = y - x} {m = m} (omega arith),
)

module _ (n : ℕ) (big : 1 < n) (fits : n < 0x80000000) where
  -- Adding and subtracting an amount below n.
  step_back : (i p : ℕ) → i < n → p < n → mod_subtract ((i + p) % u32 % n) p n ≡ i
  step_back i p h k =
      rw (sum_mod n (i + p) big fits (omega arith))
        (ground (arith, mod_subtract_lem (i + p) p n, mod_subtract_lem (i + p - n) p n))

  step_on : (j p : ℕ) → j < n → p < n → (mod_subtract j p n + p) % u32 % n ≡ j
  step_on j p h k =
      rw (mod_subtract_lem j p n h k)
        (ground (arith, sum_mod n j big fits, sum_mod n (j + n) big fits))

-- With 2 to 2^31 - 1 nodes, whatever mod_pow makes of the round, gossip_predecessor and
-- gossip_target undo one another on the nodes: every node has exactly one gossip predecessor.
pub gossip_inverse :
    (node round group_size : ℕ)
    → 1 < group_size
    → group_size < 0x80000000
    → node < group_size
    → (gossip_predecessor (gossip_target node round group_size) round group_size ≡ node)
      × (gossip_target (gossip_predecessor node round group_size) round group_size ≡ node)
unfolding gossip_target gossip_predecessor
gossip_inverse node round n big fits h =
    let bounded = mod_pow-lt 2 round n big (omega arith) in
    (step_back n big fits node _ h bounded, step_on n big fits node _ h bounded)
