-- ===== src/Aggregation/Group/Course.antt =====
-- A group's meters in the aggregation phase, in whatever order they send: the operations of
-- core/detail/TreeAggregationState_impl.hpp, called as core/detail/ProtocolState_impl.hpp does.
use adq.Common.{
  ℕ, ℤ, pos, negsuc, ◌+◌, ◌≤◌, ◌<◌, List, [], ◌∷◌, ◌++◌, Bool, true, false, if◌then◌else◌, ◌==◌,
  ◌≡◌,
}
use adq.Messages.{ValueContribution}
use adq.Aggregation.{
  AggregationMessage, TreeState, tree_state, initialize, done_receiving_from_children,
  compute_and_send_aggregate,
}
use adq.Aggregation.Totals.{Sum, sum_all, receive_all}

-- What each meter received from its children, in order, and whether it sent its own message, and
-- what the roots reported to the utility.
pub record Course (R : Type 0) : Type 0 where
  pub received : ℕ → List (AggregationMessage R)
  pub sent : ℕ → Bool
  pub reported : List (AggregationMessage R)

abbrev pub nothing_sent : {R : Type 0} → Course R
nothing_sent = record { received = λ i. []; sent = λ i. false; reported = [] }

module _ {R : Type 0} where
  abbrev pub mark_sent : ℕ → Course R → Course R
  mark_sent x s = record s { sent = λ i. if i == x then true else s.sent i }

  -- A message for the parent, which is the utility at a root.
  abbrev pub deliver : ℤ → AggregationMessage R → Course R → Course R
  deliver (pos p) m s = record s {
    received = λ i. if i == p then s.received i ++ m ∷ [] else s.received i;
  }
  deliver (negsuc a) m s = record s { reported = s.reported ++ m ∷ [] }

-- No meter of the group has failed; `accepted` is what each accepted in the agreement phase.
module _ {R : Type 0} (sum : Sum R) (num_groups num_meters : ℕ) (query_number : ℤ) (default : R)
    (accepted : ℕ → List (ValueContribution R)) where
  unfoldable pub state_of : Course R → ℕ → TreeState R
  state_of s x =
      receive_all sum (s.received x)
        (initialize [] (tree_state x num_groups num_meters query_number default))

  unfoldable pub message_of : Course R → ℕ → AggregationMessage R × ℤ
  message_of s x = (compute_and_send_aggregate (sum_all sum) (accepted x) (state_of s x)).1

  unfoldable pub take_turn : ℕ → Course R → Course R
  take_turn x s = deliver (message_of s x).1 (message_of s x).0 (mark_sent x s)

  -- The courses of a run of `size` meters from `first` on: one that has not sent its message, and
  -- has received those of all its children, sends it.
  pub data Reached (first size : ℕ) : Course R → Type 0 where
    start : Reached first size nothing_sent
    turn :
        (s : Course R) (x : ℕ)
        → Reached first size s
        → first ≤ x
        → x < first + size
        → s.sent x ≡ false
        → done_receiving_from_children (state_of s x) ≡ true
        → Reached first size (take_turn x s)
