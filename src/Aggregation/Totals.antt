-- ===== src/Aggregation/Totals.antt =====
-- What one node's aggregation yields, for a query function that is a commutative sum.
use adq.Common.{
  ℕ, ℤ, ◌+◌, ◌<◌, List, [], ◌∷◌, ◌++◌, map, true, false, if◌then◌else◌, ltb, ◌==◌, length, ◌≡◌,
  refl, sym, ap, ◌∙◌, arith, inl, inr, ◌⊎◌, Bool-cases, ◌↔◌,
}
use adq.Overlay.{aggregation_tree_children, aggregation_tree_parent}
use adq.Messages.{ValueContribution}
use adq.Aggregation.{
  AggregationMessage, TreeState, tree_state, is_missing, initialize, done_receiving_from_children,
  handle_aggregation, compute_and_send_aggregate,
}

-- A sum: the query functions that give one result whatever the order of the contributions.
pub record Sum (R : Type 0) : Type 0 where
  pub plus : R → R → R
  pub unit : R
  pub plus_unit : (a : R) → plus a unit ≡ a
  pub plus_comm : (a b : R) → plus a b ≡ plus b a
  pub plus_assoc : (a b c : R) → plus (plus a b) c ≡ plus a (plus b c)

module _ {R : Type 0} (sum : Sum R) where
  open sum use {plus, unit, plus_unit, plus_comm, plus_assoc}

  unfoldable pub sum_all : List R → R
  sum_all [] = unit
  sum_all (x ∷ xs) = plus x (sum_all xs)

  sum_all-append : (xs ys : List R) → sum_all (xs ++ ys) ≡ plus (sum_all xs) (sum_all ys)
  unfolding sum_all
  sum_all-append [] ys = sym (plus_comm unit (sum_all ys) ∙ plus_unit (sum_all ys))
  sum_all-append (x ∷ xs) ys =
      ap (plus x) (sum_all-append xs ys) ∙ sym (plus_assoc x (sum_all xs) (sum_all ys))

  -- The messages of the children, one after another.
  unfoldable pub receive_all : List (AggregationMessage R) → TreeState R → TreeState R
  receive_all [] s = s
  receive_all (m ∷ ms) s = receive_all ms (handle_aggregation sum_all m s)

  abbrev pub contributors : List (AggregationMessage R) → ℕ
  contributors [] = 0
  contributors (m ∷ ms) = m.num_contributors + contributors ms

  abbrev pub values : List (AggregationMessage R) → List R
  values = map (λ m. m.value)

  -- Each child reports at least one contribution.
  abbrev pub AllCounted : List (AggregationMessage R) → Type 0
  AllCounted [] = Unit {0}
  AllCounted (m ∷ ms) = (0 < m.num_contributors) × AllCounted ms

  -- From an intermediate value of some contributions on.
  record IsTotal (n : ℕ) (v : R) (k : ℕ) (s t : TreeState R) : Type 0 where
    count : t.aggregation_intermediate.num_contributors ≡ n
    value : t.aggregation_intermediate.value ≡ v
    received : t.children_received_from ≡ s.children_received_from + k

  receive_more :
      (ms : List (AggregationMessage R)) (s : TreeState R)
      → 0 < s.aggregation_intermediate.num_contributors
      → AllCounted ms
      → IsTotal
          (s.aggregation_intermediate.num_contributors + contributors ms)
          (plus s.aggregation_intermediate.value (sum_all (values ms)))
          (length ms)
          s
          (receive_all ms s)
  unfolding receive_all handle_aggregation sum_all
  receive_more [] s some_now all = record {
    count = omega arith;
    value = sym (plus_unit _);
    received = omega arith;
  }
  receive_more (m ∷ ms) s some_now all =
      let so_far = s.aggregation_intermediate in
      let busy : (so_far.num_contributors == 0) ≡ false = ground arith in
      let next = handle_aggregation sum_all m s in
      let n : next.aggregation_intermediate.num_contributors
          ≡ so_far.num_contributors + m.num_contributors =
        rw busy in
      let v : next.aggregation_intermediate.value ≡ plus m.value (plus so_far.value unit) =
        rw busy in
      let rest = receive_more ms next (omega (arith, n)) all.1 in
      record {
        count = omega (arith, rest.count, n);
        value =
            rest.value
            ∙ ap (λ (x : R). plus x (sum_all (values ms)))
                (v ∙ ap (plus m.value) (plus_unit so_far.value) ∙ plus_comm m.value so_far.value)
            ∙ plus_assoc so_far.value m.value (sum_all (values ms));
        received = omega (arith, rest.received);
      }

  -- From no contributions on.
  receive_from_none :
      (ms : List (AggregationMessage R)) (s : TreeState R)
      → s.aggregation_intermediate.num_contributors ≡ 0
      → AllCounted ms
      → let t = receive_all ms s in
        (t.aggregation_intermediate.num_contributors ≡ contributors ms)
        × ((ms ≡ [])
            ⊎ ((0 < contributors ms) × (t.aggregation_intermediate.value ≡ sum_all (values ms))))
        × (t.children_received_from ≡ s.children_received_from + length ms)
  unfolding receive_all handle_aggregation sum_all
  receive_from_none [] s none_yet all = (none_yet, inl refl, omega arith)
  receive_from_none (m ∷ ms) s none_yet all =
      let idle : (s.aggregation_intermediate.num_contributors == 0) ≡ true = ground arith in
      let next = handle_aggregation sum_all m s in
      let n : next.aggregation_intermediate.num_contributors ≡ m.num_contributors = rw idle in
      let v : next.aggregation_intermediate.value ≡ m.value = rw idle in
      let rest = receive_more ms next (omega (arith, n)) all.1 in
      (
        omega (arith, rest.count, n),
        inr (omega arith, rest.value ∙ ap (λ (x : R). plus x (sum_all (values ms))) v),
        omega (arith, rest.received),
      )

-- What the messages of children leave as it is, and how many it says have come.
pub receive_all_keeps :
    {R : Type 0} (sum : Sum R) (ms : List (AggregationMessage R)) (s : TreeState R)
    → let t = receive_all sum ms s in
      (t.node_id ≡ s.node_id)
      × (t.num_groups ≡ s.num_groups)
      × (t.num_meters ≡ s.num_meters)
      × (t.children_needed ≡ s.children_needed)
      × (t.children_received_from ≡ s.children_received_from + length ms)
unfolding receive_all handle_aggregation
receive_all_keeps sum [] s = (refl, refl, refl, refl, omega arith)
receive_all_keeps sum (m ∷ ms) s =
    let rest = receive_all_keeps sum ms (handle_aggregation (sum_all sum) m s) in
    (rest.0, rest.1, rest.2, rest.3, omega (arith, rest.4))

-- From a state with no contributions.
pub total_sent :
    {R : Type 0} (sum : Sum R) (start : TreeState R) (ms : List (AggregationMessage R))
    (accepted : List (ValueContribution R))
    → start.aggregation_intermediate.num_contributors ≡ 0
    → AllCounted sum ms
    → let (message, parent) =
        (compute_and_send_aggregate (sum_all sum) accepted (receive_all sum ms start)).1 in
      (message.value
        ≡ Sum.plus sum
            (sum_all sum (map (λ v. v.value_tuple.value) accepted))
            (sum_all sum (values sum ms)))
      × (message.num_contributors ≡ contributors sum ms + length accepted)
unfolding compute_and_send_aggregate sum_all
total_sent {R} sum start ms accepted none_yet all =
    let (n, v, _) = receive_from_none sum ms start none_yet all in
    elim v [
      | inl nothing ↦
          let idle : ltb 0 (receive_all sum ms start).aggregation_intermediate.num_contributors
              ≡ false =
            ground (arith, ap (contributors sum) nothing) in
          (
            rw idle (
                sym (
                  ap (Sum.plus sum _)
                    (ap (λ (l : List (AggregationMessage R)). sum_all sum (values sum l)) nothing)
                  ∙ Sum.plus_unit sum _)),
            omega (arith, n),
          )
      | inr (some_now, value) ↦
          let busy : ltb 0 (receive_all sum ms start).aggregation_intermediate.num_contributors
              ≡ true =
            ground arith in
          (
            rw busy (
                sum_all-append sum (map (λ v. v.value_tuple.value) accepted) _
                ∙ ap (Sum.plus sum _) (Sum.plus_unit sum _ ∙ value)),
            omega (arith, n),
          )
    ]

-- For a query function that is a commutative sum: after messages of children, each of which counts
-- at least one contributor, a node sends to its parent in the tree the sum of the accepted values
-- and of all the messages' values, and as the number of contributors that of the accepted values
-- and all that the messages count.
pub node_total :
    {R : Type 0} (sum : Sum R) (node_id num_groups num_meters : ℕ) (query_number : ℤ) (default : R)
    (ms : List (AggregationMessage R)) (accepted : List (ValueContribution R))
    → AllCounted sum ms
    → let s = receive_all sum ms (tree_state node_id num_groups num_meters query_number default) in
      let (message, parent) = (compute_and_send_aggregate (sum_all sum) accepted s).1 in
      (message.value
        ≡ Sum.plus sum
            (sum_all sum (map (λ v. v.value_tuple.value) accepted))
            (sum_all sum (values sum ms)))
      × (message.num_contributors ≡ contributors sum ms + length accepted)
      × (parent ≡ aggregation_tree_parent node_id num_groups num_meters)
unfolding tree_state compute_and_send_aggregate
node_total sum node_id num_groups num_meters query_number default ms accepted all =
    let start = tree_state node_id num_groups num_meters query_number default in
    let (value, count) = total_sent sum start ms accepted refl all in
    let (node, groups, meters, _, _) = receive_all_keeps sum ms start in
    (value, count, rw (node, groups, meters) refl)

-- The number of children that a node waits for is that of its children in the tree that have not
-- failed; it need not wait at all exactly when no such child is left.
pub children_awaited :
    {R : Type 0} (failed : List ℕ) (s : TreeState R)
    → let t = initialize failed s in
      let (first, second) = aggregation_tree_children s.node_id s.num_groups s.num_meters in
      (t.children_needed
        ≡ (if is_missing failed first then 0 else 1) + (if is_missing failed second then 0 else 1))
      × ((done_receiving_from_children t ≡ true)
          ↔ ((is_missing failed first ≡ true) × (is_missing failed second ≡ true)))
unfolding initialize done_receiving_from_children
children_awaited failed s =
    let (first, second) = aggregation_tree_children s.node_id s.num_groups s.num_meters in
    elim (Bool-cases (is_missing failed first)) [
      | inl a ↦ elim (Bool-cases (is_missing failed second)) [
        | inl b ↦ rw (a, b) (refl, (λ _. (refl, refl), λ _. refl))
        | inr b ↦ rw (a, b) (refl, (λ e. cc, λ e. cc))
      ]
      | inr a ↦ elim (Bool-cases (is_missing failed second)) [
        | inl b ↦ rw (a, b) (refl, (λ e. cc, λ e. cc))
        | inr b ↦ rw (a, b) (refl, (λ e. cc, λ e. cc))
      ]
    ]
