-- ===== src/Overlay/Proxies/Correct.antt =====
-- The proxies lie one in each group, and never are the node itself.
use adq.Common.{
  ℕ, zero, suc, ◌+◌, ◌-◌, ◌*◌, ◌/◌, ◌≤◌, ◌<◌, ◌≡◌, ◌≢◌, arith, ltb, List, [], ◌∷◌, ◌++◌, ok, some,
  length, get_elem?, refl, ap, sym, ◌∙◌, false, get_elem?-append_left, get_elem?-append_right,
  length-append,
}
use native.Mathlib.Nat.{div-add-mod, mul-le-mul_right}
use native.Mathlib.Decide.{dec_lt, ℕ_discrete}
use adq.Overlay.Defs.{standard_group_size, second_last_group_size, aggregation_group_for}
use adq.Overlay.Groups.{
  group_begin, group_complete, begin_full, begin_last, group_end, second_last-eq, full_end,
  full_end-eq,
}
use adq.Overlay.Proxies.{Random, pick_in_group, pick_full_groups, pick_proxies}

module _ (random : Random) where
  open random use {Engine, uniform, uniform_bounds}

  -- From a group of two or more the pick is a member, and another node.
  pick_in_group_lem :
      (node first last : ℕ) (e : Engine)
      → first < last
      → let p = (pick_in_group random node first last e).0 in (first ≤ p) × (p ≤ last) × (p ≢ node)
  unfolding pick_in_group
  pick_in_group_lem node first last e h =
      ground (arith, uniform_bounds first last e, uniform_bounds first (last - 1) e)

  pick_full_groups-length :
      (rounds k q node : ℕ) (e : Engine)
      → length (pick_full_groups random rounds k q node e).0 ≡ rounds
  unfolding pick_full_groups
  pick_full_groups-length zero k q node e = refl
  pick_full_groups-length (suc rounds) k q node e = omega (
    arith,
    pick_full_groups-length rounds (suc k) q node
        (pick_in_group random node (k * q) (k * q + (q - 1)) e).1,
  )

  -- Entry j of the loop's proxies lies in block k + j of q IDs.
  pick_full_groups_lem :
      (rounds k q node : ℕ) (e : Engine) (j : ℕ)
      → 2 ≤ q
      → j < rounds
      → (p : ℕ) × (get_elem? (pick_full_groups random rounds k q node e).0 j ≡ some p)
        × ((k + j) * q ≤ p)
        × (p < (k + j) * q + q)
        × (p ≢ node)
  unfolding pick_full_groups
  pick_full_groups_lem zero k q node e j two h = absurd (omega arith)
  pick_full_groups_lem (suc rounds) k q node e zero two h =
      let pick = pick_in_group random node (k * q) (k * q + (q - 1)) e in
      let place = pick_in_group_lem node (k * q) (k * q + (q - 1)) e (omega arith) in
      (pick.0, refl, omega (arith, place), omega (arith, place), place.2)
  pick_full_groups_lem (suc rounds) k q node e (suc j) two h =
      let e' = (pick_in_group random node (k * q) (k * q + (q - 1)) e).1 in
      let (p, found, from, to, other) =
        pick_full_groups_lem rounds (suc k) q node e' j two (omega arith) in
      (p, found, omega (arith, from), omega (arith, to), other)

-- A list of proxies: one for each of g groups, each another node of its group.
pub record AreProxies (node g n : ℕ) (proxies : List ℕ) : Type 0 where
  pub count : length proxies ≡ g
  pub each :
      (k : ℕ)
      → k < g
      → (p : ℕ) × (get_elem? proxies k ≡ some p)
        × (p < n)
        × (p ≢ node)
        × (aggregation_group_for p g n ≡ k)

-- The ranges that pick_proxies draws from are the groups.
module _ (g n : ℕ) (two : 2 ≤ g) (big : 2 ≤ n / g) where
  enough : g ≤ n
  enough = grind (arith, div-add-mod n g)

  last_sizes :
      (2 ≤ second_last_group_size g n)
      × (full_end g n + second_last_group_size g n + 2 ≤ n)
      × (group_begin (g - 1) g n ≡ full_end g n + second_last_group_size g n)
  last_sizes =
      omega (
        arith,
        second_last-eq g n two enough,
        full_end-eq g n two enough,
        begin_last g n two enough,
      )

  full_member :
      (k p : ℕ)
      → k < g - 2
      → k * (n / g) ≤ p
      → p < k * (n / g) + n / g
      → (p < n) × (aggregation_group_for p g n ≡ k)
  full_member k p h from to =
      let within = mul-le-mul_right {m = suc k} {n = g - 2} (n / g) h in
      (
        omega (arith, within, full_end-eq g n two enough),
        group_complete g n two enough p k (omega arith)
            (ground (arith, begin_full g n two enough k))
            (ground (arith, group_end g n two enough k)),
      )

  second_member :
      (p : ℕ)
      → full_end g n ≤ p
      → p ≤ full_end g n + (second_last_group_size g n - 1)
      → (p < n) × (aggregation_group_for p g n ≡ g - 2)
  second_member p from to = (
    omega (arith, last_sizes),
    group_complete g n two enough p (g - 2) (omega arith)
        (ground (arith, begin_full g n two enough (g - 2)))
        (ground
          (arith, group_end g n two enough (g - 2), last_sizes, second_last-eq g n two enough)),
  )

  last_member :
      (p : ℕ)
      → full_end g n + (second_last_group_size g n - 1) + 1 ≤ p
      → p ≤ n - 1
      → (p < n) × (aggregation_group_for p g n ≡ g - 1)
  last_member p from to = (
    omega (arith, last_sizes),
    group_complete g n two enough p (g - 1) (omega arith) (omega (arith, last_sizes))
        (ground (arith, group_end g n two enough (g - 1), last_sizes)),
  )

-- Picks from the full groups, the second to last and the last make up a list of proxies.
assemble :
    (node g n : ℕ) (two : 2 ≤ g) (big : 2 ≤ n / g) (full : List ℕ) (a b : ℕ)
    → length full ≡ g - 2
    → ((k : ℕ)
        → k < g - 2
        → (p : ℕ) × (get_elem? full k ≡ some p)
          × (p < n)
          × (p ≢ node)
          × (aggregation_group_for p g n ≡ k))
    → (a < n) × (a ≢ node) × (aggregation_group_for a g n ≡ g - 2)
    → (b < n) × (b ≢ node) × (aggregation_group_for b g n ≡ g - 1)
    → AreProxies node g n (full ++ (a ∷ b ∷ []))
assemble node g n two big full a b len inner at_a at_b = record {
  count = omega (arith, length-append full (a ∷ b ∷ []));
  each = λ k h. elim (dec_lt k (g - 2)) [
    | yes l ↦
        let (p, found, rest, other, group) = inner k l in
        (p, get_elem?-append_left full (a ∷ b ∷ []) k (omega arith) ∙ found, rest, other, group)
    | no l ↦ elim (ℕ_discrete k (g - 2)) [
      | yes e ↦
          let place : k ≡ length full + 0 = omega arith in
          (
            a,
            ap (get_elem? (full ++ (a ∷ b ∷ []))) place
                ∙ get_elem?-append_right full (a ∷ b ∷ []) 0,
            at_a.0,
            at_a.1,
            at_a.2 ∙ sym e,
          )
      | no e ↦
          let place : k ≡ length full + 1 = omega arith in
          let last : g - 1 ≡ k = omega arith in
          (
            b,
            ap (get_elem? (full ++ (a ∷ b ∷ []))) place
                ∙ get_elem?-append_right full (a ∷ b ∷ []) 1,
            at_b.0,
            at_b.1,
            at_b.2 ∙ last,
          )
    ]
  ];
}

-- With at least two groups and at least two IDs for each, whatever the random engine draws, pick_proxies returns
-- exactly one proxy for each group: entry k is a node of group k other than the caller.
pub pick_proxies_valid :
    (random : Random) (node g n : ℕ) (e : Random.Engine random)
    → 2 ≤ g
    → 2 ≤ n / g
    → (ps : List ℕ) × (e' : Random.Engine random) × (pick_proxies random node g n e ≡ ok (ps, e'))
      × AreProxies node g n ps
unfolding pick_proxies standard_group_size
pick_proxies_valid random node g n e two big =
    let q = n / g in
    let s = second_last_group_size g n in
    let sizes = last_sizes g n two big in
    let full = pick_full_groups random (g - 2) 0 q node e in
    let a = pick_in_group random node (full_end g n) (full_end g n + (s - 1)) full.1 in
    let b = pick_in_group random node (full_end g n + (s - 1) + 1) (n - 1) a.1 in
    let at_a =
      pick_in_group_lem random node (full_end g n) (full_end g n + (s - 1)) full.1
        (omega (arith, sizes)) in
    let at_b =
      pick_in_group_lem random node (full_end g n + (s - 1) + 1) (n - 1) a.1
        (omega (arith, sizes)) in
    let in_a = second_member g n two big a.0 at_a.0 at_a.1 in
    let in_b = last_member g n two big b.0 at_b.0 at_b.1 in
    let size_ok : ltb q 2 ≡ false = ground arith in
    (
      full.0 ++ (a.0 ∷ b.0 ∷ []),
      b.1,
      rw (size_ok, pick_proxies),
      assemble node g n two big full.0 a.0 b.0 (pick_full_groups-length random (g - 2) 0 q node e)
          (λ k h.
            let (p, found, from, to, other) =
              pick_full_groups_lem random (g - 2) 0 q node e k big h in
            let member = full_member g n two big k p h (omega (arith, from)) (omega (arith, to)) in
            (p, found, member.0, other, member.1))
          (in_a.0, at_a.2, in_a.1) (in_b.0, at_b.2, in_b.1),
    )
