-- ===== src/Tests/Totals.antt =====
-- The theorems on core/detail/TreeAggregationState_impl.hpp at concrete inputs.
use adq.Common.{ℕ, pos, ◌+◌, ◌≡◌, arith, List, [], ◌∷◌}
use adq.Messages.{ValueContribution}
use adq.Overlay.{aggregation_tree_parent}
use adq.Aggregation.{AggregationMessage, tree_state, compute_and_send_aggregate}
use adq.Aggregation.Totals.{Sum, sum_all, receive_all, contributors, node_total}

-- Addition of readings.
abbrev pub numbers : Sum ℕ
numbers = record {
  plus = λ a b. a + b;
  unit = 0;
  plus_unit = λ a. omega arith;
  plus_comm = λ a b. omega arith;
  plus_assoc = λ a b c. omega arith;
}

abbrev reports : List (AggregationMessage ℕ)
reports =
    record { sender_id = pos 1; query_num = pos 0; value = 7; num_contributors = 2 }
    ∷ record { sender_id = pos 2; query_num = pos 0; value = 5; num_contributors = 1 }
    ∷ []

abbrev own_values : List (ValueContribution ℕ)
own_values =
    record {
      value_tuple = record { query_num = pos 0; value = 4; proxies = pos 0 ∷ [] };
      signature = [];
    }
    ∷ []

node_total_example :
    let s = receive_all numbers reports (tree_state 0 3 10 (pos 0) 0) in
    let (message, parent) = (compute_and_send_aggregate (sum_all numbers) own_values s).1 in
    (message.value ≡ sum_all numbers (4 ∷ []) + sum_all numbers (7 ∷ 5 ∷ []))
    × (message.num_contributors ≡ contributors numbers reports + 1)
    × (parent ≡ aggregation_tree_parent 0 3 10)
node_total_example =
    node_total numbers 0 3 10 (pos 0) 0 reports own_values (omega arith, (omega arith, tt))
