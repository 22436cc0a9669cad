-- ===== src/Aggregation/Group/Waiting.antt =====
-- Why no message of a child comes after its parent's: a meter waits for all its children. On
-- core/detail/TreeAggregationState_impl.hpp.
use adq.Common.{
  ℕ, ℤ, pos, negsuc, zero, suc, ◌+◌, ◌≤◌, ◌<◌, List, [], ◌∷◌, ◌++◌, Bool, true, false,
  if◌then◌else◌, ◌==◌, ==_iff, ==_refl, ◌==ℤ◌, Bool-cases, inl, inr, length, length-append, ◌≡◌,
  refl, sym, ap, ◌∙◌, arith,
}
use adq.Overlay.{aggregation_tree_parent}
use adq.Aggregation.{AggregationMessage}
use adq.Aggregation.Totals.{Sum, AllCounted}
use adq.Aggregation.Sums.{range_sum, range_sum-gain, range_sum-tight, count_sum}
use adq.Aggregation.Group.Course.{Course, nothing_sent, mark_sent, deliver}

if_below : (b : Bool) (k : ℕ) → (if b then k else 0) ≤ k
if_below true k = omega arith
if_below false k = omega arith

module _ (num_groups num_meters : ℕ) where
  -- One for a child of a meter, and for one that has sent its message.
  abbrev pub is_child : ℕ → ℕ → ℕ
  is_child p c = if aggregation_tree_parent c num_groups num_meters ==ℤ pos p then 1 else 0

  module _ {R : Type 0} where
    abbrev pub sent_child : Course R → ℕ → ℕ → ℕ
    sent_child s p c = if s.sent c then is_child p c else 0

module _ {R : Type 0} (sum : Sum R) where
  AllCounted-snoc :
      (ms : List (AggregationMessage R)) (m : AggregationMessage R)
      → AllCounted sum ms
      → 0 < m.num_contributors
      → AllCounted sum (ms ++ m ∷ [])
  AllCounted-snoc [] m h some_now = (some_now, h)
  AllCounted-snoc (k ∷ ms) m h some_now = (h.0, AllCounted-snoc ms m h.1 some_now)

-- The meters of a run of IDs: what each received, is from its children, each of which counted
-- somebody, and who has sent its message has had those of its children.
pub record Waiting {R : Type 0} (sum : Sum R) (num_groups num_meters first size : ℕ) (s : Course R)
    : Type 0 where
  pub counted : (i : ℕ) → AllCounted sum (s.received i)
  pub arrived :
      (p : ℕ)
      → first ≤ p
      → p < first + size
      → length (s.received p)
        ≡ range_sum count_sum (sent_child num_groups num_meters s p) first size
  pub complete :
      (p c : ℕ)
      → first ≤ c
      → c < first + size
      → s.sent p ≡ true
      → aggregation_tree_parent c num_groups num_meters ≡ pos p
      → s.sent c ≡ true

module _ {R : Type 0} (sum : Sum R) (num_groups num_meters first size : ℕ) where
  nobody_sent :
      (p first size : ℕ)
      → range_sum count_sum (sent_child num_groups num_meters {R = R} nothing_sent p) first size ≡ 0
  unfolding range_sum
  nobody_sent p first zero = refl
  nobody_sent p first (suc size) = omega (arith, nobody_sent p (suc first) size)

  pub start-Waiting : Waiting sum num_groups num_meters first size nothing_sent
  start-Waiting = record {
    counted = λ i. _;
    arrived = λ p from to. sym (nobody_sent p first size);
    complete = λ p c from to sent child. cc;
  }

  -- A meter that has as many messages as children has those of all its children.
  pub children_sent :
      (s : Course R) (x : ℕ)
      → Waiting sum num_groups num_meters first size s
      → first ≤ x
      → x < first + size
      → range_sum count_sum (is_child num_groups num_meters x) first size ≤ length (s.received x)
      → (c : ℕ) → first ≤ c
      → c < first + size
      → aggregation_tree_parent c num_groups num_meters ≡ pos x
      → s.sent c ≡ true
  children_sent s x w from to all c c_from c_to child =
      let f = sent_child num_groups num_meters s x in
      let g = is_child num_groups num_meters x in
      let tight =
        (range_sum-tight f g first size (λ i. if_below (s.sent i) (g i))).1
          (omega (arith, all, w.arrived x from to)) c c_from c_to in
      let one : is_child num_groups num_meters x c ≡ 1 = rw (child, ==_refl x) refl in
      elim (Bool-cases (s.sent c)) [
        | inl done ↦ done
        | inr unsent ↦ absurd (omega (arith, one, rw unsent at tight))
      ]

  -- A turn of a meter whose children have all sent their messages.
  arrived_more :
      (s : Course R) (x p : ℕ)
      → first ≤ x
      → x < first + size
      → s.sent x ≡ false
      → range_sum count_sum (sent_child num_groups num_meters (mark_sent x s) p) first size
        ≡ range_sum count_sum (sent_child num_groups num_meters s p) first size
          + is_child num_groups num_meters p x
  arrived_more s x p from to unsent =
      range_sum-gain count_sum (sent_child num_groups num_meters (mark_sent x s) p)
        (sent_child num_groups num_meters s p) x (is_child num_groups num_meters p x) first size
        from to
        (λ i other. let differs : (i == x) ≡ false = ground (arith, other) in rw differs refl)
        (rw (==_refl x, unsent) (omega arith))

  still_complete :
      (s : Course R) (x : ℕ)
      → Waiting sum num_groups num_meters first size s
      → ((c : ℕ)
          → first ≤ c
          → c < first + size
          → aggregation_tree_parent c num_groups num_meters ≡ pos x
          → s.sent c ≡ true)
      → (p c : ℕ) → first ≤ c
      → c < first + size
      → (mark_sent x s).sent p ≡ true
      → aggregation_tree_parent c num_groups num_meters ≡ pos p
      → (mark_sent x s).sent c ≡ true
  still_complete s x w all p c from to sent child = elim (Bool-cases (c == x)) [
    | inl itself ↦ rw itself
    | inr other ↦ rw other (elim (Bool-cases (p == x)) [
      | inl parent ↦ all c from to (child ∙ ap pos ((==_iff p x).0 parent))
      | inr elsewhere ↦ w.complete p c from to (rw elsewhere at sent) child
    ])
  ]

  pub turn-Waiting :
      (s : Course R) (x : ℕ) (m : AggregationMessage R) (parent : ℤ)
      → Waiting sum num_groups num_meters first size s
      → first ≤ x
      → x < first + size
      → s.sent x ≡ false
      → 0 < m.num_contributors
      → ((c : ℕ)
          → first ≤ c
          → c < first + size
          → aggregation_tree_parent c num_groups num_meters ≡ pos x
          → s.sent c ≡ true)
      → aggregation_tree_parent x num_groups num_meters ≡ parent
      → Waiting sum num_groups num_meters first size (deliver parent m (mark_sent x s))
  turn-Waiting s x m (negsuc a) w from to unsent some_now all place = record {
    counted = w.counted;
    arrived = λ p p_from p_to.
        let none_here : is_child num_groups num_meters p x ≡ 0 = rw place refl in
        omega (arith, w.arrived p p_from p_to, arrived_more s x p from to unsent, none_here);
    complete = still_complete s x w all;
  }
  turn-Waiting s x m (pos q) w from to unsent some_now all place = record {
    counted = λ i. elim (Bool-cases (i == q)) [
      | inl here ↦ rw here (AllCounted-snoc sum (s.received i) m (w.counted i) some_now)
      | inr other ↦ rw other (w.counted i)
    ];
    arrived = λ p p_from p_to. elim (Bool-cases (p == q)) [
      | inl here ↦
          let one : is_child num_groups num_meters p x ≡ 1 =
            let same : p ≡ q = (==_iff p q).0 here in rw (place, same, ==_refl q) refl in
          rw here (
            omega (
              arith,
              length-append (s.received p) (m ∷ []),
              w.arrived p p_from p_to,
              arrived_more s x p from to unsent,
              one,
            ))
      | inr other ↦
          let none_here : is_child num_groups num_meters p x ≡ 0 =
            let differs : (q == p) ≡ false = ground (arith, other) in rw (place, differs) refl in
          rw other
            (omega (arith, w.arrived p p_from p_to, arrived_more s x p from to unsent, none_here))
    ];
    complete = still_complete s x w all;
  }

  -- A meter to which a message goes has not sent its own.
  pub parent_unsent :
      (s : Course R) (x p : ℕ)
      → Waiting sum num_groups num_meters first size s
      → first ≤ x
      → x < first + size
      → s.sent x ≡ false
      → ((c : ℕ)
          → first ≤ c
          → c < first + size
          → aggregation_tree_parent c num_groups num_meters ≡ pos x
          → s.sent c ≡ true)
      → aggregation_tree_parent x num_groups num_meters ≡ pos p
      → (mark_sent x s).sent p ≡ false
  parent_unsent s x p w from to unsent all place = elim (Bool-cases (p == x)) [
    | inl itself ↦ let sent = all x from to (place ∙ ap pos ((==_iff p x).0 itself)) in cc
    | inr other ↦ rw other (elim (Bool-cases (s.sent p)) [
      | inl sent ↦ let again = w.complete p x from to sent place in cc
      | inr not_yet ↦ not_yet
    ])
  ]
