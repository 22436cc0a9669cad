-- ===== src/Aggregation/Group/Members.antt =====
-- The meters of an aggregation group and their children: src/util/Overlay.cpp as
-- core/detail/TreeAggregationState_impl.hpp uses it.
use adq.Common.{
  ℕ, ℤ, pos, negsuc, suc, ◌+◌, ◌-◌, ◌≤◌, ◌<◌, [], Bool, true, false, if◌then◌else◌, ◌==◌, ==_refl,
  ◌==ℤ◌, ==ℤ_iff, inl, inr, ◌⊎◌, ◌≡◌, refl, sym, ap, ◌∙◌, arith,
}
use adq.Overlay.{
  aggregation_tree_parent, aggregation_tree_children, children_in_group, tree_children_group,
  aggregation_group_for,
}
use adq.Overlay.Groups.{group_begin, group_partition}
use adq.Overlay.Tree.{tree_parent_iff_child, tree_child_in_group, parent_place, end-le}
use adq.Aggregation.{tree_state, initialize, is_missing}
use adq.Aggregation.Totals.{children_awaited}
use adq.Aggregation.Sums.{
  range_sum, range_sum-same, range_sum-gain, range_sum-add, range_sum-zero, count_sum,
}
use adq.Aggregation.Group.Waiting.{is_child}

children_in_group-distinct :
    (x first size c : ℕ)
    → (children_in_group x first size).0 ≡ pos c
    → (children_in_group x first size).1 ≡ pos c
    → ⊥
unfolding children_in_group
children_in_group-distinct x first size c left right = ground (arith, left, right)

children_distinct :
    (x g n c : ℕ)
    → (aggregation_tree_children x g n).0 ≡ pos c
    → (aggregation_tree_children x g n).1 ≡ pos c
    → ⊥
unfolding aggregation_tree_children
children_distinct x g n c =
    children_in_group-distinct x (tree_children_group x g n).0 (tree_children_group x g n).1 c

-- A test that holds when one of two others does, which never hold together.
one_of_two :
    (whole left right : Bool)
    → (whole ≡ true → (left ≡ true) ⊎ (right ≡ true))
    → (left ≡ true → whole ≡ true)
    → (right ≡ true → whole ≡ true)
    → (left ≡ true → right ≡ true → ⊥)
    → (if whole then 1 else 0) ≡ (if left then 1 else 0) + (if right then 1 else 0)
one_of_two whole true true h l r both = absurd (both refl refl)
one_of_two whole true false h l r both = rw (l refl) (omega arith)
one_of_two whole false true h l r both = rw (r refl) (omega arith)
one_of_two true false false h l r both = elim (h refl) [
  | inl e ↦ absurd (cc e)
  | inr e ↦ absurd (cc e)
]
one_of_two false false false h l r both = omega arith

-- One where a child is a meter.
abbrev here : ℤ → ℕ → ℕ
here child c = if child ==ℤ pos c then 1 else 0

-- A child that is in a run of IDs is there once.
count_child :
    (child : ℤ) (first size : ℕ)
    → ((c : ℕ) → child ≡ pos c → (first ≤ c) × (c < first + size))
    → range_sum count_sum (here child) first size ≡ (if is_missing [] child then 0 else 1)
count_child (negsuc a) first size inside = range_sum-zero first size
count_child (pos d) first size inside =
    let (from, to) = inside d refl in
    let gain =
      range_sum-gain count_sum (here (pos d)) (λ i. 0) d 1 first size from to
        (λ i other. let differs : (d == i) ≡ false = ground (arith, other) in rw differs refl)
        (rw (==_refl d) (omega arith)) in
    omega (arith, gain, range_sum-zero first size)

-- The size of a group.
abbrev pub group_size_of : ℕ → ℕ → ℕ → ℕ
group_size_of k g n = group_begin (suc k) g n - group_begin k g n

module _ (k g n : ℕ) (two : 2 ≤ g) (enough : g ≤ n) (which : k < g) where
  abbrev first : ℕ
  first = group_begin k g n

  abbrev size : ℕ
  size = group_size_of k g n

  -- A meter between a group's ends is a meter of the group.
  pub member_of :
      (x : ℕ) → first ≤ x → x < first + size → (x < n) × (aggregation_group_for x g n ≡ k)
  member_of x from to =
      let last = end-le g n two enough k which in
      let small : x < n = omega (arith, from, to, last) in
      (small, (group_partition x k g n two enough small which).1 (from, omega (arith, from, to)))

  member_between :
      (x : ℕ) → x < n → aggregation_group_for x g n ≡ k → (first ≤ x) × (x < first + size)
  member_between x small in_group =
      let inside = (group_partition x k g n two enough small which).0 in_group in
      (inside.0, omega (arith, inside.0, inside.1))

  -- The parent of a meter of the group is one.
  pub parent_inside :
      (x p : ℕ)
      → first ≤ x
      → x < first + size
      → aggregation_tree_parent x g n ≡ pos p
      → (first ≤ p) × (p < first + size)
  parent_inside x p from to e =
      let (small, in_group) = member_of x from to in
      let place = parent_place g n two enough x p small e in
      member_between p (omega (arith, small, place.1)) (place.2 ∙ in_group)

  -- So are its children.
  child_inside :
      (p c : ℕ)
      → first ≤ p
      → p < first + size
      → ((aggregation_tree_children p g n).0 ≡ pos c)
        ⊎ ((aggregation_tree_children p g n).1 ≡ pos c)
      → (first ≤ c) × (c < first + size)
  child_inside p c from to e =
      let (small, in_group) = member_of p from to in
      let place = tree_child_in_group g n p c two enough small e in
      member_between c place.1 (place.2 ∙ in_group)

  -- A meter is a child of another one if it is the left or the right one.
  children_split :
      (p c : ℕ)
      → first ≤ p
      → p < first + size
      → first ≤ c
      → c < first + size
      → is_child g n p c
        ≡ here (aggregation_tree_children p g n).0 c + here (aggregation_tree_children p g n).1 c
  children_split p c p_from p_to c_from c_to =
      let (p_small, _) = member_of p p_from p_to in
      let (c_small, _) = member_of c c_from c_to in
      let parent = aggregation_tree_parent c g n in
      let left = (aggregation_tree_children p g n).0 in
      let right = (aggregation_tree_children p g n).1 in
      let relation = tree_parent_iff_child g n p c two enough p_small c_small in
      let parent_test = ==ℤ_iff parent (pos p) in
      let left_test = ==ℤ_iff left (pos c) in
      let right_test = ==ℤ_iff right (pos c) in
      one_of_two (parent ==ℤ pos p) (left ==ℤ pos c) (right ==ℤ pos c)
        (λ e. elim (relation.0 (parent_test.0 e)) [
          | inl l ↦ inl (left_test.1 l)
          | inr r ↦ inr (right_test.1 r)
        ])
        (λ l. parent_test.1 (relation.1 (inl (left_test.0 l))))
        (λ r. parent_test.1 (relation.1 (inr (right_test.0 r))))
        (λ l r. children_distinct p g n c (left_test.0 l) (right_test.0 r))

  -- A meter waits for all its children in the group.
  pub children_needed_all :
      {R : Type 0} (query_number : ℤ) (default : R) (p : ℕ)
      → first ≤ p
      → p < first + size
      → (initialize [] (tree_state p g n query_number default)).children_needed
        ≡ range_sum count_sum (is_child g n p) first size
  unfolding tree_state
  children_needed_all query_number default p from to =
      let children = aggregation_tree_children p g n in
      (children_awaited [] (tree_state p g n query_number default)).0
      ∙ sym (
          range_sum-same count_sum (is_child g n p) (λ c. here children.0 c + here children.1 c)
            first size (λ c c_from c_to. children_split p c from to c_from c_to)
          ∙ range_sum-add (here children.0) (here children.1) first size
          ∙ ap (λ (t : ℕ). t + range_sum count_sum (here children.1) first size)
              (count_child children.0 first size (λ c e. child_inside p c from to (inl e)))
          ∙ ap (λ (t : ℕ). (if is_missing [] children.0 then 0 else 1) + t)
              (count_child children.1 first size (λ c e. child_inside p c from to (inr e))))
