-- ===== src/Overlay/Groups.antt =====
-- aggregation_group_for splits the node IDs into consecutive groups.
use adq.Common.{
  ℕ, suc, ◌+◌, ◌-◌, ◌*◌, ◌/◌, ◌≤◌, ◌<◌, ◌≡◌, ap, ◌↔◌, inl, inr, arith, ltb, ◌==◌, Bool-cases,
  ==_iff, ltb→lt, if◌then◌else◌,
}
use native.Mathlib.Nat.{div-add-mod, mod-lt, mul_comm, div-eq_of_lt-le, mul-le-mul_right}
use adq.Overlay.Defs.{standard_group_size, second_last_group_size, aggregation_group_for}

-- The IDs below the last two groups.
abbrev pub full_end : ℕ → ℕ → ℕ
full_end g n = (g - 2) * (n / g)

-- The first ID of group k of g groups over n nodes; group g would begin at n.
unfoldable pub group_begin : ℕ → ℕ → ℕ → ℕ
group_begin k g n =
    if ltb k (g - 1)
    then k * (n / g)
    else (if k == g - 1 then full_end g n + (n - full_end g n) / 2 else n)

-- Sums of groups, multiplied out.
times_two : (g q : ℕ) → 2 ≤ g → g * q ≡ (g - 2) * q + 2 * q
times_two g q h = let e : g ≡ g - 2 + 2 = omega arith in omega (arith, ap (λ (t : ℕ). t * q) e)

times_one : (g q : ℕ) → 2 ≤ g → (g - 1) * q ≡ (g - 2) * q + q
times_one g q h = let e : g - 1 ≡ g - 2 + 1 = omega arith in omega (arith, ap (λ (t : ℕ). t * q) e)

-- x lies in block k of blocks of q.
div_block : (x q k : ℕ) → k * q ≤ x → x < k * q + q → x / q ≡ k
div_block x q k h l = div-eq_of_lt-le q h (omega arith)

block_of_div : (x q : ℕ) → 0 < q → (x / q * q ≤ x) × (x < x / q * q + q)
block_of_div x q h = omega (arith, div-add-mod x q, mod-lt x {m = q} h, mul_comm q (x / q))

-- x / q reaches k exactly from k * q on.
div-ge : (x q k : ℕ) → 0 < q → k * q ≤ x → k ≤ x / q
div-ge x q k h l = let block = block_of_div x q h in grind arith

div-lt : (x q k : ℕ) → 0 < q → x < k * q → x / q < k
div-lt x q k h l = let block = block_of_div x q h in grind arith

module _ (g n : ℕ) (two : 2 ≤ g) (enough : g ≤ n) where
  -- n is g whole groups and a remainder.
  pub full_end-eq : (full_end g n + 2 * (n / g) ≤ n) × (n < full_end g n + 2 * (n / g) + g)
  full_end-eq =
      omega (arith, times_two g (n / g) two, div-add-mod n g, mod-lt n {m = g} (omega arith))

  size_pos : 0 < n / g
  size_pos = div-ge n g 1 (omega arith) (omega arith)

  pub second_last-eq : second_last_group_size g n ≡ (n - full_end g n) / 2
  unfolding second_last_group_size
  second_last-eq = omega (arith, times_one g (n / g) two, full_end-eq)

  group_by_range :
      (x : ℕ)
      → aggregation_group_for x g n ≡ (
          if ltb x (full_end g n)
          then x / (n / g)
          else (if ltb x (full_end g n + (n - full_end g n) / 2) then g - 2 else g - 1))
  unfolding aggregation_group_for standard_group_size
  group_by_range x =
      rw (second_last-eq, mul_comm (n / g) (g - 2))
        (ground (arith, div-ge x (n / g) (g - 2) size_pos, div-lt x (n / g) (g - 2) size_pos))

  -- The three shapes of group_begin.
  pub begin_full : (k : ℕ) → k < g - 1 → group_begin k g n ≡ k * (n / g)
  unfolding group_begin
  begin_full k h = ground arith

  pub begin_last : group_begin (g - 1) g n ≡ full_end g n + (n - full_end g n) / 2
  unfolding group_begin
  begin_last = ground arith

  pub begin_end : group_begin g g n ≡ n
  unfolding group_begin
  begin_end = ground arith

  -- A group ends where the next one begins.
  pub group_end :
      (k : ℕ)
      → k < g
      → group_begin (suc k) g n ≡ (
          if ltb k (g - 2)
          then k * (n / g) + n / g
          else (if k == g - 2 then full_end g n + (n - full_end g n) / 2 else n))
  unfolding group_begin
  group_end k h = ground arith

  pub group_sound :
      (x : ℕ)
      → x < n
      → let k = aggregation_group_for x g n in
        (k < g) × (group_begin k g n ≤ x) × (x < group_begin (suc k) g n)
  group_sound x h =
      let by_range = group_by_range x in
      elim (Bool-cases (ltb x (full_end g n))) [
        | inl full ↦
            let below = ltb→lt x (full_end g n) full in
            let k = x / (n / g) in
            let k-lt = div-lt x (n / g) (g - 2) size_pos below in
            let block = block_of_div x (n / g) size_pos in
            rw (let e : aggregation_group_for x g n ≡ k = ground (arith, by_range) in e)
              (ground (arith, block, k-lt, begin_full k, group_end k))
        | inr rest ↦ elim (Bool-cases (ltb x (full_end g n + (n - full_end g n) / 2))) [
          | inl inside ↦
              rw (let e : aggregation_group_for x g n ≡ g - 2 = ground (arith, by_range) in e)
                (ground (arith, begin_full (g - 2), group_end (g - 2)))
          | inr beyond ↦
              rw (let e : aggregation_group_for x g n ≡ g - 1 = ground (arith, by_range) in e)
                (ground (arith, begin_last, group_end (g - 1)))
        ]
      ]

  pub group_complete :
      (x k : ℕ)
      → k < g
      → group_begin k g n ≤ x
      → x < group_begin (suc k) g n
      → aggregation_group_for x g n ≡ k
  group_complete x k h l r = elim (Bool-cases (ltb k (g - 2))) [
    | inl full ↦
        let k-lt = ltb→lt k (g - 2) full in
        let next : k * (n / g) + n / g ≤ full_end g n =
          omega (arith, mul-le-mul_right {m = suc k} {n = g - 2} (n / g) k-lt) in
        let from : k * (n / g) ≤ x = ground (arith, begin_full k) in
        let to : x < k * (n / g) + n / g = ground (arith, group_end k) in
        ground (arith, group_by_range x, div_block x (n / g) k from to)
    | inr late ↦ elim (Bool-cases (k == g - 2)) [
      | inl second ↦
          let which : k ≡ g - 2 = (==_iff k (g - 2)).0 second in
          let from : full_end g n ≤ x =
            ground (arith, begin_full k, ap (λ (t : ℕ). t * (n / g)) which) in
          ground (arith, group_by_range x, group_end k)
      | inr last ↦
          let which : k ≡ g - 1 = ground arith in
          let from : full_end g n + (n - full_end g n) / 2 ≤ x =
            ground (arith, begin_last, ap (λ (t : ℕ). group_begin t g n) which) in
          ground (arith, group_by_range x)
    ]
  ]

-- For 2 to n groups over n nodes the groups are the consecutive runs of IDs that group_begin marks
-- out: a node is put into group k exactly when its ID lies in run k.
pub group_partition :
    (x k g n : ℕ)
    → 2 ≤ g
    → g ≤ n
    → x < n
    → k < g
    → (aggregation_group_for x g n ≡ k) ↔ ((group_begin k g n ≤ x) × (x < group_begin (suc k) g n))
group_partition x k g n two enough h l = (
  λ e. let inside = group_sound g n two enough x h in (rw e at inside.1, rw e at inside.2),
  λ r. group_complete g n two enough x k l r.0 r.1,
)

-- For 2 to n groups over n nodes: group k begins where the one before it ends, every group but the
-- last two has exactly n / g members, the last but one has second_last_group_size members, at least
-- n / g of them, and the last one has the rest, which is as many or one more.
pub group_sizes :
    (g n k : ℕ)
    → 2 ≤ g
    → g ≤ n
    → k < g
    → (group_begin (suc k) g n
        ≡ group_begin k g n
          + (if ltb k (g - 2)
              then n / g
              else (if ltb k (g - 1)
                  then second_last_group_size g n
                  else n - group_begin (g - 1) g n)))
      × (n / g ≤ second_last_group_size g n)
      × (group_begin (g - 1) g n + second_last_group_size g n ≤ n)
      × (n ≤ group_begin (g - 1) g n + second_last_group_size g n + 1)
group_sizes g n k two enough h =
    let whole = full_end-eq g n two enough in
    let second = second_last-eq g n two enough in
    let last = begin_last g n two enough in
    (
      ground (
        arith,
        group_end g n two enough k h,
        begin_full g n two enough k,
        last,
        second,
        begin_full g n two enough (g - 2),
        ap (λ (t : ℕ). group_begin t g n) {x = k} {y = g - 2},
        ap (λ (t : ℕ). group_begin t g n) {x = k} {y = g - 1},
      ),
      omega (arith, second, whole),
      omega (arith, second, whole, last),
      omega (arith, second, whole, last),
    )
