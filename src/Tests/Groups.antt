-- ===== src/Tests/Groups.antt =====
-- The theorems on the aggregation phase of a group at a group of three meters.
use adq.Common.{
  ℕ, pos, ◌+◌, ◌≤◌, ◌<◌, ◌≡◌, ◌⊎◌, refl, arith, List, [], ◌∷◌, map, true, false, length,
}
use adq.Messages.{ValueContribution}
use adq.Overlay.{
  aggregation_tree_parent, aggregation_tree_children, children_in_group, tree_children_group,
  aggregation_group_for, standard_group_size, second_last_group_size, tree_parent_first_id,
}
use adq.Overlay.Groups.{group_begin}
use adq.Aggregation.{
  tree_state, initialize, done_receiving_from_children, handle_aggregation,
  compute_and_send_aggregate,
}
use adq.Aggregation.Totals.{sum_all, receive_all, values, contributors}
use adq.Aggregation.Sums.{range_sum, count_sum}
use adq.Aggregation.Group.Course.{
  Course, nothing_sent, state_of, message_of, take_turn, Reached, start, turn,
}
use adq.Aggregation.Group.Members.{group_size_of}
use adq.Aggregation.Group.Total.{group_total}
use adq.Aggregation.Group.Progress.{group_progress}
use adq.Tests.Totals.{numbers}

-- Meter x accepted x + 10.
abbrev accepted : ℕ → List (ValueContribution ℕ)
accepted x =
    record {
      value_tuple = record { query_num = pos 0; value = x + 10; proxies = pos 0 ∷ [] };
      signature = [];
    }
    ∷ []

-- The second child of 0, the first one, and 0 itself send their messages.
abbrev one_sent : Course ℕ
one_sent = take_turn numbers 2 6 (pos 0) 0 accepted 2 nothing_sent

abbrev two_sent : Course ℕ
two_sent = take_turn numbers 2 6 (pos 0) 0 accepted 1 one_sent

abbrev all_sent : Course ℕ
all_sent = take_turn numbers 2 6 (pos 0) 0 accepted 0 two_sent

all_sent-Reached :
    Reached numbers 2 6 (pos 0) 0 accepted (group_begin 0 2 6) (group_size_of 0 2 6) all_sent
unfolding take_turn message_of state_of receive_all handle_aggregation sum_all initialize tree_state
    compute_and_send_aggregate done_receiving_from_children aggregation_tree_parent
    aggregation_tree_children children_in_group tree_children_group aggregation_group_for
    standard_group_size second_last_group_size tree_parent_first_id group_begin
all_sent-Reached =
    turn two_sent 0
      (turn one_sent 1 (turn nothing_sent 2 start (omega arith) (omega arith) refl refl)
        (omega arith) (omega arith) refl refl)
      (omega arith) (omega arith) refl refl

all_have_sent :
    (x : ℕ)
    → group_begin 0 2 6 ≤ x
    → x < group_begin 0 2 6 + group_size_of 0 2 6
    → all_sent.sent x ≡ true
unfolding take_turn message_of state_of receive_all handle_aggregation sum_all initialize tree_state
    compute_and_send_aggregate aggregation_tree_parent aggregation_group_for standard_group_size
    second_last_group_size tree_parent_first_id group_begin
all_have_sent x from to = ground (arith, from, to)

group_total_example :
    (sum_all numbers (values numbers all_sent.reported)
      ≡ range_sum numbers
          (λ x. sum_all numbers (map (λ v. v.value_tuple.value) (accepted x)))
          (group_begin 0 2 6)
          (group_size_of 0 2 6))
    × (contributors numbers all_sent.reported
        ≡ range_sum count_sum (λ x. length (accepted x)) (group_begin 0 2 6) (group_size_of 0 2 6))
group_total_example =
    group_total numbers 0 2 6 (pos 0) 0 accepted (omega arith) (omega arith) (omega arith)
      (λ x. omega arith) all_sent all_sent-Reached all_have_sent

group_progress_example :
    ((x : ℕ)
      → group_begin 0 2 6 ≤ x
      → x < group_begin 0 2 6 + group_size_of 0 2 6
      → all_sent.sent x ≡ true)
    ⊎ ((x : ℕ) × (group_begin 0 2 6 ≤ x)
        × (x < group_begin 0 2 6 + group_size_of 0 2 6)
        × (all_sent.sent x ≡ false)
        × (done_receiving_from_children (state_of numbers 2 6 (pos 0) 0 accepted all_sent x)
            ≡ true))
group_progress_example =
    group_progress numbers 0 2 6 (pos 0) 0 accepted (omega arith) (omega arith) (omega arith)
      (λ x. omega arith) all_sent all_sent-Reached
