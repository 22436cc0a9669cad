-- ===== src/Overlay/Proxies.antt =====
-- pick_proxies: one random proxy from each aggregation group.
pub mod Correct
use adq.Common.{
  ℕ, zero, suc, ◌+◌, ◌-◌, ◌*◌, ◌/◌, ◌≤◌, ◌<◌, arith, ltb, leb, ◌==◌, if◌then◌else◌, List, [], ◌∷◌,
  ◌++◌, ◌&&◌, Result, ok, err, too_many_groups,
}
use adq.Overlay.Defs.{standard_group_size, second_last_group_size}

-- The random engine: `uniform` is a draw of std::uniform_int_distribution<>(min, max).
pub record Random : Type 1 where
  pub Engine : Type 0
  pub uniform : ℕ → ℕ → Engine → ℕ × Engine
  pub uniform_bounds :
      (min max : ℕ) (e : Engine)
      → min ≤ max
      → (min ≤ (uniform min max e).0) × ((uniform min max e).0 ≤ max)

module _ (random : Random) where
  open random use {Engine, uniform}

  pub random_int_exclude : ℕ → ℕ → ℕ → Engine → ℕ × Engine
  random_int_exclude min max exclude e =
      let (choice, e') = uniform min (max - 1) e in
      ((if choice == exclude then max else choice), e')

  -- The proxy for the group of the IDs from `group_begin` to `group_end`.
  pub pick_in_group : ℕ → ℕ → ℕ → Engine → ℕ × Engine
  unfolding random_int_exclude
  pick_in_group node_id group_begin group_end e =
      if leb group_begin node_id && leb node_id group_end
      then random_int_exclude group_begin group_end node_id e
      else uniform group_begin group_end e

  -- The `for` loop over the full-size groups: `rounds` of them, from `group_num` on.
  pub pick_full_groups : ℕ → ℕ → ℕ → ℕ → Engine → List ℕ × Engine
  unfolding pick_in_group
  pick_full_groups zero group_num group_size node_id e = ([], e)
  pick_full_groups (suc rounds) group_num group_size node_id e =
      let group_begin = group_num * group_size in
      let group_end = group_begin + (group_size - 1) in
      let (proxy, e') = pick_in_group node_id group_begin group_end e in
      let (rest, e'') = pick_full_groups rounds (suc group_num) group_size node_id e' in
      (proxy ∷ rest, e'')

  pub pick_proxies : ℕ → ℕ → ℕ → Engine → Result (List ℕ × Engine)
  unfolding pick_full_groups
  pick_proxies node_id num_groups num_meters e =
      let group_size = standard_group_size num_groups num_meters in
      let second_last_size = second_last_group_size num_groups num_meters in
      if ltb group_size 2
      then err too_many_groups
      else (let (full, e₁) = pick_full_groups (num_groups - 2) 0 group_size node_id e in
          let group_begin = (num_groups - 2) * group_size in
          let group_end = group_begin + (second_last_size - 1) in
          let (second_last, e₂) = pick_in_group node_id group_begin group_end e₁ in
          let (last, e₃) = pick_in_group node_id (group_end + 1) (num_meters - 1) e₂ in
          ok (full ++ (second_last ∷ last ∷ []), e₃))
