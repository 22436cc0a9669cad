-- ===== src/Aggregation/Group/Progress.antt =====
-- That the aggregation phase of a group never stops before its end:
-- core/detail/TreeAggregationState_impl.hpp over the trees of src/util/Overlay.cpp.
use adq.Common.{
  ℕ, ℤ, pos, zero, suc, ◌+◌, ◌≤◌, ◌<◌, List, [], Bool, true, false, if◌then◌else◌, ◌==◌, ==_iff,
  ◌==ℤ◌, ==ℤ_iff, length, le→leb, Bool-cases, inl, inr, ◌⊎◌, ◌≡◌, ◌≢◌, refl, arith,
}
use adq.Overlay.{aggregation_tree_parent}
use adq.Overlay.Groups.{group_begin}
use adq.Overlay.Tree.{parent_place}
use adq.Messages.{ValueContribution}
use adq.Aggregation.{tree_state, initialize, done_receiving_from_children}
use adq.Aggregation.Totals.{Sum, receive_all, receive_all_keeps}
use adq.Aggregation.Sums.{range_sum-same, count_sum}
use adq.Aggregation.Group.Course.{Course, state_of, Reached}
use adq.Aggregation.Group.Waiting.{is_child, sent_child, Waiting}
use adq.Aggregation.Group.Members.{group_size_of, children_needed_all, member_of}
use adq.Aggregation.Group.Total.{Reached-Waiting, initialize-received}

zero_either : (b : Bool) → ◌≡◌ {A = ℕ} (if b then 0 else 0) 0
zero_either true = refl
zero_either false = refl

one_further :
    (test : ℕ → Bool) (end c : ℕ)
    → test end ≡ true
    → (c < end → test c ≡ true)
    → c < suc end
    → test c ≡ true
one_further test end c holds before below = elim (Bool-cases (c == end)) [
  | inl last ↦ rw ((==_iff c end).0 last) holds
  | inr other ↦
      let differs : c ≢ end = ground (arith, other) in before (omega (arith, differs, below))
]

-- Of the IDs of a run at which a test fails the last one, or there is none.
last_false :
    (test : ℕ → Bool) (first size : ℕ)
    → ((i : ℕ) → first ≤ i → i < first + size → test i ≡ true)
      ⊎ ((x : ℕ) × (first ≤ x)
          × (x < first + size)
          × (test x ≡ false)
          × ((c : ℕ) → x < c → c < first + size → test c ≡ true))
last_false test first zero = inl (λ i from to. absurd (omega (arith, from, to)))
last_false test first (suc size) = elim (Bool-cases (test (first + size))) [
  | inr fails ↦ inr (
    first + size,
    omega arith,
    omega arith,
    fails,
    λ c above to. absurd (omega (arith, above, to)),
  )
  | inl holds ↦ elim (last_false test first size) [
    | inl all ↦
        inl (λ i from to. one_further test (first + size) i holds (all i from) (omega (arith, to)))
    | inr (x, from, to, fails, later) ↦ inr (
      x,
      from,
      omega (arith, to),
      fails,
      λ c above below.
          one_further test (first + size) c holds (later c above) (omega (arith, below)),
    )
  ]
]

module _ {R : Type 0} (sum : Sum R) (k g n : ℕ) (query_number : ℤ) (default : R)
    (accepted : ℕ → List (ValueContribution R)) (two : 2 ≤ g) (enough : g ≤ n) (which : k < g) where
  abbrev first : ℕ
  first = group_begin k g n

  abbrev size : ℕ
  size = group_size_of k g n

  -- A meter is ready when all later ones have sent their messages: its children are later ones.
  last_ready :
      (s : Course R) (x : ℕ)
      → Waiting sum g n first size s
      → first ≤ x
      → x < first + size
      → ((c : ℕ) → x < c → c < first + size → s.sent c ≡ true)
      → done_receiving_from_children (state_of sum g n query_number default accepted s x) ≡ true
  unfolding done_receiving_from_children state_of
  last_ready s x w from to later =
      let begun = initialize [] (tree_state x g n query_number default) in
      let kept = receive_all_keeps sum (s.received x) begun in
      let now = receive_all sum (s.received x) begun in
      let each =
        range_sum-same count_sum (sent_child g n s x) (is_child g n x) first size (λ c c_from c_to.
          elim (Bool-cases (aggregation_tree_parent c g n ==ℤ pos x)) [
            | inl child ↦
                let (c_small, _) = member_of k g n two enough which c c_from c_to in
                let place =
                  parent_place g n two enough c x c_small
                    ((==ℤ_iff (aggregation_tree_parent c g n) (pos x)).0 child) in
                rw (later c place.1 c_to) refl
            | inr no_child ↦ rw no_child (zero_either (s.sent c))
          ]) in
      le→leb now.children_needed now.children_received_from (
        omega (
          arith,
          kept.3,
          kept.4,
          w.arrived x from to,
          each,
          children_needed_all k g n two enough which query_number default x from to,
          initialize-received (tree_state x g n query_number default),
        ))

-- In any course of a group's aggregation phase, either all meters have sent their messages, or one
-- that has not has heard from all its children and can send: the meters never all wait for one
-- another. Every meter accepted a value, none has failed, and there are 2 to n groups over n meters.
pub group_progress :
    {R : Type 0} (sum : Sum R) (k g n : ℕ) (query_number : ℤ) (default : R)
    (accepted : ℕ → List (ValueContribution R))
    → 2 ≤ g
    → g ≤ n
    → k < g
    → ((x : ℕ) → 0 < length (accepted x))
    → (s : Course R)
    → Reached sum g n query_number default accepted (group_begin k g n) (group_size_of k g n) s
    → ((x : ℕ)
        → group_begin k g n ≤ x
        → x < group_begin k g n + group_size_of k g n
        → s.sent x ≡ true)
      ⊎ ((x : ℕ) × (group_begin k g n ≤ x)
          × (x < group_begin k g n + group_size_of k g n)
          × (s.sent x ≡ false)
          × (done_receiving_from_children (state_of sum g n query_number default accepted s x)
              ≡ true))
group_progress sum k g n query_number default accepted two enough which some_accepted s reached =
    let w =
      Reached-Waiting sum k g n query_number default accepted two enough which some_accepted s
        reached in
    elim (last_false s.sent (group_begin k g n) (group_size_of k g n)) [
      | inl all ↦ inl all
      | inr (x, from, to, unsent, later) ↦ inr (
        x,
        from,
        to,
        unsent,
        last_ready sum k g n query_number default accepted two enough which s x w from to later,
      )
    ]
