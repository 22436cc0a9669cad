-- ===== src/Aggregation.antt =====
-- Aggregation in a group's tree: include/adq/core/TreeAggregationState.hpp and its _impl.hpp, with
-- include/adq/messaging/AggregationMessage.hpp.
pub mod Totals
pub mod Sums
pub mod Group
use adq.Common.{
  ℕ, ℤ, pos, negsuc, zero, suc, ◌+◌, ◌-◌, ◌≤◌, List, [], ◌∷◌, ◌++◌, map, Bool, true, false, ◌||◌,
  Option, none, some, if◌then◌else◌, ltb, leb, ◌==◌, contains, length,
}
use adq.Overlay.{aggregation_tree_children, aggregation_tree_parent}
use adq.Messages.{ValueContribution}

-- AggregationMessage with its AggregationMessageValue.
pub record AggregationMessage (R : Type 0) : Type 0 where
  pub sender_id : ℤ
  pub query_num : ℤ
  pub value : R
  pub num_contributors : ℕ

pub record TreeState (R : Type 0) : Type 0 where
  pub node_id : ℕ
  pub num_groups : ℕ
  pub num_meters : ℕ
  pub initialized : Bool
  pub children_received_from : ℕ
  pub children_needed : ℕ
  pub aggregation_intermediate : AggregationMessage R

-- The constructor; `default` is the value of a default-constructed record.
unfoldable pub tree_state : {R : Type 0} → ℕ → ℕ → ℕ → ℤ → R → TreeState R
tree_state node_id num_groups num_meters query_number default = record {
  node_id = node_id;
  num_groups = num_groups;
  num_meters = num_meters;
  initialized = false;
  children_received_from = 0;
  children_needed = 2;
  aggregation_intermediate = record {
    sender_id = pos node_id;
    query_num = query_number;
    value = default;
    num_contributors = 0;
  };
}

-- No child, or one that has failed.
abbrev pub is_missing : List ℕ → ℤ → Bool
is_missing failed (pos c) = contains failed c
is_missing failed (negsuc c) = true

unfoldable pub initialize : {R : Type 0} → List ℕ → TreeState R → TreeState R
initialize failed_meter_ids s =
    let (first, second) = aggregation_tree_children s.node_id s.num_groups s.num_meters in
    let after_first = if is_missing failed_meter_ids first then 2 - 1 else 2 in
    let after_second =
      if is_missing failed_meter_ids second then after_first - 1 else after_first in
    record s { children_received_from = 0; children_needed = after_second; initialized = true }

unfoldable pub done_receiving_from_children : {R : Type 0} → TreeState R → Bool
done_receiving_from_children s = leb s.children_needed s.children_received_from

-- `aggregate` is the DataSource's function for the query's opcode, at the query's arguments.
module _ {R : Type 0} (aggregate : List R → R) where
  unfoldable pub handle_aggregation : AggregationMessage R → TreeState R → TreeState R
  handle_aggregation message s =
      let so_far = s.aggregation_intermediate in
      record s {
        aggregation_intermediate =
            if so_far.num_contributors == 0
            then record so_far {
              value = message.value;
              num_contributors = message.num_contributors;
            }
            else record so_far {
              value = aggregate (message.value ∷ so_far.value ∷ []);
              num_contributors = so_far.num_contributors + message.num_contributors;
            };
        children_received_from = s.children_received_from + 1;
      }

  -- The new state, and the message with the node that it is sent to.
  unfoldable pub compute_and_send_aggregate :
      List (ValueContribution R) → TreeState R → TreeState R × (AggregationMessage R × ℤ)
  compute_and_send_aggregate accepted_proxy_values s =
      let so_far = s.aggregation_intermediate in
      let accepted = map (λ v. v.value_tuple.value) accepted_proxy_values in
      let values_to_aggregate =
        if ltb 0 so_far.num_contributors then accepted ++ so_far.value ∷ [] else accepted in
      let result = record so_far {
        value = aggregate values_to_aggregate;
        num_contributors = so_far.num_contributors + length accepted_proxy_values;
      } in
      (
        record s { aggregation_intermediate = result },
        (result, aggregation_tree_parent s.node_id s.num_groups s.num_meters),
      )
