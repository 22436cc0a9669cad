-- ===== src/Aggregation/Group/Total.antt =====
-- What a group's root reports to the utility: core/detail/TreeAggregationState_impl.hpp over the
-- trees of src/util/Overlay.cpp.
use adq.Common.{
  ℕ, ℤ, pos, negsuc, ◌+◌, ◌≤◌, ◌<◌, List, [], ◌∷◌, map, true, false, length, leb→le, ◌≡◌, refl, sym,
  ◌∙◌, arith,
}
use adq.Overlay.{aggregation_tree_parent}
use adq.Overlay.Groups.{group_begin}
use adq.Messages.{ValueContribution}
use adq.Aggregation.{
  AggregationMessage, TreeState, tree_state, initialize, done_receiving_from_children,
  compute_and_send_aggregate,
}
use adq.Aggregation.Totals.{
  Sum, sum_all, receive_all, AllCounted, values, contributors, total_sent, receive_all_keeps,
}
use adq.Aggregation.Sums.{range_sum, count_sum}
use adq.Aggregation.Group.Course.{
  Course, nothing_sent, mark_sent, state_of, message_of, take_turn, Reached, start, turn,
}
use adq.Aggregation.Group.Conserved.{
  measured, holdings, Awaited, holdings-deliver, holdings-nothing_sent, holdings-all_sent,
}
use adq.Aggregation.Group.Waiting.{
  is_child, Waiting, start-Waiting, children_sent, turn-Waiting, parent_unsent,
}
use adq.Aggregation.Group.Members.{group_size_of, parent_inside, children_needed_all}

measured-contributors :
    {R : Type 0} (sum : Sum R) (ms : List (AggregationMessage R))
    → measured count_sum (λ m. m.num_contributors) ms ≡ contributors sum ms
unfolding sum_all
measured-contributors sum [] = refl
measured-contributors sum (m ∷ ms) = omega (arith, measured-contributors sum ms)

pub initialize-received :
    {R : Type 0} (s : TreeState R) → (initialize [] s).children_received_from ≡ 0
unfolding initialize
initialize-received s = refl

module _ {R : Type 0} (sum : Sum R) (k g n : ℕ) (query_number : ℤ) (default : R)
    (accepted : ℕ → List (ValueContribution R)) where
  abbrev first : ℕ
  first = group_begin k g n

  abbrev size : ℕ
  size = group_size_of k g n

  -- The sum and the number of the values that a meter accepted.
  abbrev pub own_sum : ℕ → R
  own_sum x = sum_all sum (map (λ v. v.value_tuple.value) (accepted x))

  abbrev pub own_count : ℕ → ℕ
  own_count x = length (accepted x)

  abbrev message : Course R → ℕ → AggregationMessage R
  message s x = (message_of sum g n query_number default accepted s x).0

  -- What a meter sends is what it has, and it sends it to its parent.
  message_of-worth :
      (s : Course R) (x : ℕ)
      → AllCounted sum (s.received x)
      → ((message s x).value
          ≡ Sum.plus sum (own_sum x) (measured sum (λ m. m.value) (s.received x)))
        × ((message s x).num_contributors
            ≡ own_count x + measured count_sum (λ m. m.num_contributors) (s.received x))
  unfolding message_of state_of initialize tree_state
  message_of-worth s x counted =
      let sent =
        total_sent sum (initialize [] (tree_state x g n query_number default)) (s.received x)
          (accepted x) refl counted in
      (sent.0, omega (arith, sent.1, measured-contributors sum (s.received x)))

  message_of-parent :
      (s : Course R) (x : ℕ)
      → (message_of sum g n query_number default accepted s x).1 ≡ aggregation_tree_parent x g n
  unfolding message_of state_of compute_and_send_aggregate initialize tree_state
  message_of-parent s x =
      let kept =
        receive_all_keeps sum (s.received x)
          (initialize [] (tree_state x g n query_number default)) in
      rw (kept.0, kept.1, kept.2) refl

  module _ (two : 2 ≤ g) (enough : g ≤ n) (which : k < g) where
    waits_for_all :
        (s : Course R) (x : ℕ)
        → first ≤ x
        → x < first + size
        → done_receiving_from_children (state_of sum g n query_number default accepted s x) ≡ true
        → range_sum count_sum (is_child g n x) first size ≤ length (s.received x)
    unfolding done_receiving_from_children state_of
    waits_for_all s x from to done =
        let begun = initialize [] (tree_state x g n query_number default) in
        let kept = receive_all_keeps sum (s.received x) begun in
        let now = receive_all sum (s.received x) begun in
        omega (
          arith,
          leb→le now.children_needed now.children_received_from done,
          kept.3,
          kept.4,
          children_needed_all k g n two enough which query_number default x from to,
          initialize-received (tree_state x g n query_number default),
        )

    goes_where-Awaited :
        (s : Course R) (x : ℕ) (parent : ℤ)
        → Waiting sum g n first size s
        → first ≤ x
        → x < first + size
        → s.sent x ≡ false
        → ((c : ℕ)
            → first ≤ c
            → c < first + size
            → aggregation_tree_parent c g n ≡ pos x
            → s.sent c ≡ true)
        → aggregation_tree_parent x g n ≡ parent
        → {S : Type 0} (total : Sum S) (measure : AggregationMessage R → S) (own : ℕ → S)
        → Awaited total measure own first size (mark_sent x s) parent
    goes_where-Awaited s x (negsuc a) w from to unsent all place total measure own = _
    goes_where-Awaited s x (pos p) w from to unsent all place total measure own =
        let (p_from, p_to) = parent_inside k g n two enough which x p from to place in
        (p_from, p_to, parent_unsent sum g n first size s x p w from to unsent all place)

    -- In a course of the group, children come before their parents, and nothing is lost.
    record Sound (s : Course R) : Type 0 where
      waiting : Waiting sum g n first size s
      sums : holdings sum (λ m. m.value) own_sum first size s ≡ range_sum sum own_sum first size
      counts :
          holdings count_sum (λ m. m.num_contributors) own_count first size s
          ≡ range_sum count_sum own_count first size

    start-Sound : Sound nothing_sent
    start-Sound = record {
      waiting = start-Waiting sum g n first size;
      sums = holdings-nothing_sent sum {R = R} (λ m. m.value) own_sum first size;
      counts =
          holdings-nothing_sent count_sum {R = R} (λ m. m.num_contributors) own_count first size;
    }

    turn-Sound :
        ((x : ℕ) → 0 < own_count x)
        → (s : Course R) (x : ℕ) → Sound s
        → first ≤ x
        → x < first + size
        → s.sent x ≡ false
        → done_receiving_from_children (state_of sum g n query_number default accepted s x) ≡ true
        → Sound (take_turn sum g n query_number default accepted x s)
    unfolding take_turn
    turn-Sound some_accepted s x sound from to unsent done =
        let w = sound.waiting in
        let m = message s x in
        let parent = (message_of sum g n query_number default accepted s x).1 in
        let place = sym (message_of-parent s x) in
        let worth = message_of-worth s x (w.counted x) in
        let all = children_sent sum g n first size s x w from to (waits_for_all s x from to done) in
        record {
          waiting =
              turn-Waiting sum g n first size s x m parent w from to unsent
                (omega (arith, some_accepted x, worth.1)) all place;
          sums =
              holdings-deliver sum (λ m. m.value) own_sum s x first size m parent from to unsent
                worth.0
                (goes_where-Awaited s x parent w from to unsent all place sum (λ m. m.value)
                  own_sum)
              ∙ sound.sums;
          counts =
              holdings-deliver count_sum (λ m. m.num_contributors) own_count s x first size m parent
                from to unsent worth.1
                (goes_where-Awaited s x parent w from to unsent all place count_sum
                  (λ m. m.num_contributors) own_count)
              ∙ sound.counts;
        }

    Reached-Sound :
        ((x : ℕ) → 0 < own_count x)
        → (s : Course R) → Reached sum g n query_number default accepted first size s
        → Sound s
    Reached-Sound some_accepted s start = start-Sound
    Reached-Sound some_accepted s (turn t x reached from to unsent done) =
        turn-Sound some_accepted t x (Reached-Sound some_accepted t reached) from to unsent done

pub Reached-Waiting :
    {R : Type 0} (sum : Sum R) (k g n : ℕ) (query_number : ℤ) (default : R)
    (accepted : ℕ → List (ValueContribution R))
    → 2 ≤ g
    → g ≤ n
    → k < g
    → ((x : ℕ) → 0 < length (accepted x))
    → (s : Course R)
    → Reached sum g n query_number default accepted (group_begin k g n) (group_size_of k g n) s
    → Waiting sum g n (group_begin k g n) (group_size_of k g n) s
Reached-Waiting sum k g n query_number default accepted two enough which some_accepted s reached =
    (Reached-Sound sum k g n query_number default accepted two enough which some_accepted s
      reached).waiting

-- For a query function that is a commutative sum, in whatever order the meters of a group send, each
-- once it has heard from all its children: when all have sent their messages, what the group reported
-- to the utility is the sum over all its meters of the values that they accepted, and the number of
-- contributors is how many these are. Every meter accepted a value, none has failed, and there are 2
-- to n groups over n meters.
pub group_total :
    {R : Type 0} (sum : Sum R) (k g n : ℕ) (query_number : ℤ) (default : R)
    (accepted : ℕ → List (ValueContribution R))
    → 2 ≤ g
    → g ≤ n
    → k < g
    → ((x : ℕ) → 0 < length (accepted x))
    → (s : Course R)
    → Reached sum g n query_number default accepted (group_begin k g n) (group_size_of k g n) s
    → ((x : ℕ)
        → group_begin k g n ≤ x
        → x < group_begin k g n + group_size_of k g n
        → s.sent x ≡ true)
    → (sum_all sum (values sum s.reported)
        ≡ range_sum sum
            (λ x. sum_all sum (map (λ v. v.value_tuple.value) (accepted x)))
            (group_begin k g n)
            (group_size_of k g n))
      × (contributors sum s.reported
          ≡ range_sum count_sum
              (λ x. length (accepted x))
              (group_begin k g n)
              (group_size_of k g n))
group_total sum k g n query_number default accepted two enough which some_accepted s reached all =
    let own = own_sum sum k g n query_number default accepted in
    let count = own_count sum k g n query_number default accepted in
    let sound =
      Reached-Sound sum k g n query_number default accepted two enough which some_accepted s
        reached in
    (
      sym (holdings-all_sent sum (λ m. m.value) own s (group_begin k g n) (group_size_of k g n) all)
          ∙ sound.sums,
      sym (measured-contributors sum s.reported)
          ∙ sym (
              holdings-all_sent count_sum (λ m. m.num_contributors) count s (group_begin k g n)
                (group_size_of k g n) all)
          ∙ sound.counts,
    )
