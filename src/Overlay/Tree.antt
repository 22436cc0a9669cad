-- ===== src/Overlay/Tree.antt =====
-- The binary tree in each aggregation group: aggregation_tree_parent and
-- aggregation_tree_children.
use adq.Common.{
  ℕ, zero, suc, ◌+◌, ◌-◌, ◌*◌, ◌/◌, ◌≤◌, ◌<◌, ◌≡◌, ◌≢◌, ap, ◌⊎◌, ◌↔◌, inl, inr, arith, ◌==◌,
  Bool-cases, ==_iff, if◌then◌else◌, pos, negsuc, subst,
}
use native.Mathlib.Nat.{mul-le-mul_right}
use adq.Overlay.Defs.{
  aggregation_group_for, tree_parent_first_id, tree_children_group, aggregation_tree_parent,
  aggregation_tree_children, children_in_group, second_last_group_size,
}
use adq.Overlay.Groups.{
  group_begin, group_sound, group_complete, begin_full, begin_last, group_end, second_last-eq,
  full_end, full_end-eq,
}

-- The children by arithmetic: first + 2 d + 1 and first + 2 d + 2 for a node at distance d, when
-- they are members.
left_child :
    (x f s c : ℕ)
    → f ≤ x
    → ((children_in_group x f s).0 ≡ pos c) ↔ ((c ≡ f + 2 * (x - f) + 1) × (c < f + s))
unfolding children_in_group
left_child x f s c h = (λ e. ground arith, λ e. ground arith)

right_child :
    (x f s c : ℕ)
    → f ≤ x
    → ((children_in_group x f s).1 ≡ pos c) ↔ ((c ≡ f + 2 * (x - f) + 2) × (c < f + s))
unfolding children_in_group
right_child x f s c h = (λ e. ground arith, λ e. ground arith)

-- Group k of g groups over n nodes.
module _ (g n : ℕ) (two : 2 ≤ g) (enough : g ≤ n) where
  middle : group_begin (g - 1) g n ≡ full_end g n + second_last_group_size g n
  middle = omega (arith, begin_last g n two enough, second_last-eq g n two enough)

  group_first :
      (k : ℕ)
      → k < g
      → (if k == g - 1 then (g - 2) * (n / g) + second_last_group_size g n else k * (n / g))
        ≡ group_begin k g n
  group_first k h = ground (
    arith,
    middle,
    begin_full g n two enough k,
    λ (e : k ≡ g - 1). ap (λ (t : ℕ). group_begin t g n) e,
  )

  second_begin : (k : ℕ) → k ≡ g - 2 → k * (n / g) ≡ full_end g n
  second_begin k e = ap (λ (t : ℕ). t * (n / g)) e

  group_extent :
      (k : ℕ)
      → k < g
      → group_begin k g n
          + (if k == g - 1
              then n - (full_end g n + second_last_group_size g n)
              else (if k == g - 2 then second_last_group_size g n else n / g))
        ≡ group_begin (suc k) g n
  group_extent k h = ground (
    arith,
    group_first k h,
    second_last-eq g n two enough,
    full_end-eq g n two enough,
    group_end g n two enough k h,
    second_begin k,
  )

  -- Both functions find the group's first ID, and the second its size.
  parent_first :
      (x : ℕ) → x < n → tree_parent_first_id x g n ≡ group_begin (aggregation_group_for x g n) g n
  unfolding tree_parent_first_id
  parent_first x h = group_first (aggregation_group_for x g n) (group_sound g n two enough x h).0

  children_group :
      (x : ℕ)
      → x < n
      → let k = aggregation_group_for x g n in
        tree_children_group x g n ≡ (group_begin k g n, group_begin (suc k) g n - group_begin k g n)
  unfolding tree_children_group
  children_group x h =
      let k = aggregation_group_for x g n in
      let k-lt = (group_sound g n two enough x h).0 in
      ground (arith, group_first k k-lt, group_extent k k-lt)

  -- A node between its group's ends is in that group.
  same_group :
      (x y : ℕ)
      → x < n
      → let k = aggregation_group_for x g n in
        group_begin k g n ≤ y → y < group_begin (suc k) g n → aggregation_group_for y g n ≡ k
  same_group x y h l r =
      group_complete g n two enough y (aggregation_group_for x g n)
        (group_sound g n two enough x h).0 l r

  parent_value :
      (x : ℕ)
      → x < n
      → let first = group_begin (aggregation_group_for x g n) g n in
        aggregation_tree_parent x g n
        ≡ (if x == first then negsuc 0 else pos ((x - first - 1) / 2 + first))
  unfolding aggregation_tree_parent
  parent_value x h = rw (parent_first x h, aggregation_tree_parent)

  children_value :
      (x : ℕ)
      → x < n
      → let k = aggregation_group_for x g n in
        aggregation_tree_children x g n
        ≡ children_in_group x (group_begin k g n) (group_begin (suc k) g n - group_begin k g n)
  unfolding aggregation_tree_children
  children_value x h = rw (children_group x h, aggregation_tree_children)

  -- What a parent is: an earlier node of the same group, halfway to its first ID.
  pub parent_place :
      (x p : ℕ)
      → x < n
      → aggregation_tree_parent x g n ≡ pos p
      → let first = group_begin (aggregation_group_for x g n) g n in
        (first ≤ p)
        × (p < x)
        × (aggregation_group_for p g n ≡ aggregation_group_for x g n)
        × ((x - first - 1) / 2 + first ≡ p)
  parent_place x p h e =
      let inside = group_sound g n two enough x h in
      let first = group_begin (aggregation_group_for x g n) g n in
      let value = parent_value x h in
      let halfway : (x ≢ first) × ((x - first - 1) / 2 + first ≡ p) = ground (arith, value) in
      (omega arith, omega arith, same_group x p h (omega arith) (omega arith), halfway.1)

  abbrev IsChild : ℕ → ℕ → Type 0
  IsChild x c =
      ((aggregation_tree_children x g n).0 ≡ pos c) ⊎ ((aggregation_tree_children x g n).1 ≡ pos c)

  -- What a child is: a later node of the same group at one of two places.
  IsChild-place :
      (x c : ℕ)
      → x < n
      → let k = aggregation_group_for x g n in
        let first = group_begin k g n in
        IsChild x c ↔ (
          ((c ≡ first + 2 * (x - first) + 1) ⊎ (c ≡ first + 2 * (x - first) + 2))
          × (c < group_begin (suc k) g n))
  IsChild-place x c h =
      let inside = group_sound g n two enough x h in
      let k = aggregation_group_for x g n in
      let first = group_begin k g n in
      let size = group_begin (suc k) g n - first in
      let value = children_value x h in
      let left = left_child x first size c inside.1 in
      let right = right_child x first size c inside.1 in
      (λ e. ground (arith, value, left, right), λ e. ground (arith, value, left, right))

  pub end-le : (k : ℕ) → k < g → group_begin (suc k) g n ≤ n
  end-le k h = ground (
    arith,
    group_end g n two enough k h,
    full_end-eq g n two enough,
    λ (l : suc k ≤ g - 2). mul-le-mul_right {m = suc k} {n = g - 2} (n / g) l,
  )

  -- The two directions.
  IsChild-of_parent : (x c : ℕ) → c < n → aggregation_tree_parent c g n ≡ pos x → IsChild x c
  IsChild-of_parent x c h e =
      let place = parent_place c x h e in
      let inside = group_sound g n two enough c h in
      let first = group_begin (aggregation_group_for c g n) g n in
      let same = place.2 in
      (IsChild-place x c (omega arith)).1 (rw same (ground (arith, inside, place), inside.2))

  parent_of_child :
      (x c : ℕ)
      → x < n
      → IsChild x c
      → (x < c)
        × (c < n)
        × (aggregation_group_for c g n ≡ aggregation_group_for x g n)
        × (aggregation_tree_parent c g n ≡ pos x)
  parent_of_child x c h e =
      let k = aggregation_group_for x g n in
      let inside = group_sound g n two enough x h in
      let place = (IsChild-place x c h).0 e in
      let inner : (x < c) × (group_begin k g n ≤ c) = ground (arith, inside, place) in
      let in_range : c < n = omega (arith, end-le k inside.0, place.1) in
      let same = same_group x c h inner.1 place.1 in
      let value = rw same at (parent_value c in_range) in
      (inner.0, in_range, same, ground (arith, value, inside, place))

-- For 2 to n groups over n nodes, aggregation_tree_parent and aggregation_tree_children describe
-- one relation: x is the parent of c exactly when c is the left or the right child of x.
pub tree_parent_iff_child :
    (g n x c : ℕ)
    → 2 ≤ g
    → g ≤ n
    → x < n
    → c < n
    → (aggregation_tree_parent c g n ≡ pos x) ↔ (
        ((aggregation_tree_children x g n).0 ≡ pos c)
        ⊎ ((aggregation_tree_children x g n).1 ≡ pos c))
tree_parent_iff_child g n x c two enough h l =
    (IsChild-of_parent g n two enough x c l, λ e. (parent_of_child g n two enough x c h e).3)

-- For 2 to n groups over n nodes, a child that aggregation_tree_children reports is a node, has a
-- larger ID than its parent, and is in the parent's aggregation group.
pub tree_child_in_group :
    (g n x c : ℕ)
    → 2 ≤ g
    → g ≤ n
    → x < n
    → ((aggregation_tree_children x g n).0 ≡ pos c) ⊎ ((aggregation_tree_children x g n).1 ≡ pos c)
    → (x < c) × (c < n) × (aggregation_group_for c g n ≡ aggregation_group_for x g n)
tree_child_in_group g n x c two enough h e =
    let found = parent_of_child g n two enough x c h e in (found.0, found.1, found.2)

-- The nodes above a node in its tree.
pub data Above (g n : ℕ) : ℕ → ℕ → Type 0 where
  self : {x : ℕ} → Above g n x x
  step : {x p r : ℕ} → aggregation_tree_parent x g n ≡ pos p → Above g n p r → Above g n x r

climb :
    (g n fuel x : ℕ)
    → 2 ≤ g
    → g ≤ n
    → x < n
    → x < fuel
    → Above g n x (group_begin (aggregation_group_for x g n) g n)
climb g n zero x two enough h f = absurd (omega arith)
climb g n (suc fuel) x two enough h f =
    let first = group_begin (aggregation_group_for x g n) g n in
    let inside = group_sound g n two enough x h in
    let value = parent_value g n two enough x h in
    elim (Bool-cases (x == first)) [
      | inl root ↦ subst (Above g n x) ((==_iff x first).0 root) self
      | inr below ↦
          let p = (x - first - 1) / 2 + first in
          let up : aggregation_tree_parent x g n ≡ pos p = rw below at value in
          let place = parent_place g n two enough x p h up in
          subst (λ (k : ℕ). Above g n x (group_begin k g n)) place.2
            (step up
              (climb g n fuel p two enough (omega (arith, place.1)) (omega (arith, place.1))))
    ]

-- For 2 to n groups over n nodes, the parents of any node lead up to the first ID of its group, and a
-- node has no parent exactly when it is that first one.
pub tree_rooted :
    (g n x : ℕ)
    → 2 ≤ g
    → g ≤ n
    → x < n
    → let first = group_begin (aggregation_group_for x g n) g n in
      Above g n x first × ((aggregation_tree_parent x g n ≡ negsuc 0) ↔ (x ≡ first))
tree_rooted g n x two enough h =
    let value = parent_value g n two enough x h in
    (
      climb g n (suc x) x two enough h (omega arith),
      (λ e. ground (arith, value), λ e. ground (arith, value)),
    )
