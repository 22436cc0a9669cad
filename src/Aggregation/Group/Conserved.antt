-- ===== src/Aggregation/Group/Conserved.antt =====
-- What no message of a group's aggregation phase changes, in whatever order the meters send:
-- core/detail/TreeAggregationState_impl.hpp.
use adq.Common.{
  ℕ, ℤ, pos, negsuc, ◌+◌, ◌≤◌, ◌<◌, List, [], ◌∷◌, ◌++◌, map, true, false, if◌then◌else◌, ◌==◌,
  ==_refl, ◌≡◌, refl, sym, ap, ◌∙◌, arith,
}
use adq.Aggregation.{AggregationMessage}
use adq.Aggregation.Totals.{Sum, sum_all}
use adq.Aggregation.Sums.{range_sum, range_sum-same, range_sum-gain, range_sum-unit}
use adq.Aggregation.Group.Course.{Course, nothing_sent, mark_sent, deliver}

-- A measure of messages and of what a meter adds of its own.
module _ {S : Type 0} (total : Sum S) where
  open total use {plus, unit, plus_unit, plus_comm, plus_assoc}

  abbrev pub measured : {R : Type 0} → (AggregationMessage R → S) → List (AggregationMessage R) → S
  measured measure ms = sum_all total (map measure ms)

  measured-snoc :
      {R : Type 0} (measure : AggregationMessage R → S) (ms : List (AggregationMessage R))
      (m : AggregationMessage R)
      → measured measure (ms ++ m ∷ []) ≡ plus (measured measure ms) (measure m)
  unfolding sum_all
  measured-snoc measure [] m = plus_comm (measure m) unit
  measured-snoc measure (k ∷ ms) m =
      ap (plus (measure k)) (measured-snoc measure ms m)
      ∙ sym (plus_assoc (measure k) (measured measure ms) (measure m))

  module _ {R : Type 0} (measure : AggregationMessage R → S) (own : ℕ → S) where
    -- What a meter still has to send.
    abbrev pub weight : Course R → ℕ → S
    weight s i = if s.sent i then unit else plus (own i) (measured measure (s.received i))

    -- What the meters of a run of IDs have, and what the utility got.
    abbrev pub holdings : ℕ → ℕ → Course R → S
    holdings first size s =
        plus (range_sum total (weight s) first size) (measured measure s.reported)

    -- A message takes its sender's holdings along.
    mark_takes :
        (s : Course R) (x first size : ℕ) (m : AggregationMessage R)
        → first ≤ x
        → x < first + size
        → s.sent x ≡ false
        → measure m ≡ plus (own x) (measured measure (s.received x))
        → range_sum total (weight s) first size
          ≡ plus (range_sum total (weight (mark_sent x s)) first size) (measure m)
    mark_takes s x first size m from to unsent worth =
        range_sum-gain total (weight s) (weight (mark_sent x s)) x (measure m) first size from to
          (λ i other. let differs : (i == x) ≡ false = ground (arith, other) in rw differs refl)
          (rw (unsent, ==_refl x)
            (sym worth ∙ sym (plus_comm unit (measure m) ∙ plus_unit (measure m))))

    -- A meter that has not sent its message holds what it is given.
    deliver_gives :
        (s : Course R) (p first size : ℕ) (m : AggregationMessage R)
        → first ≤ p
        → p < first + size
        → s.sent p ≡ false
        → range_sum total (weight (deliver (pos p) m s)) first size
          ≡ plus (range_sum total (weight s) first size) (measure m)
    deliver_gives s p first size m from to unsent =
        range_sum-gain total (weight (deliver (pos p) m s)) (weight s) p (measure m) first size from
          to (λ i other. let differs : (i == p) ≡ false = ground (arith, other) in rw differs refl)
          (rw (unsent, ==_refl p)
            (ap (plus (own p)) (measured-snoc measure (s.received p) m)
              ∙ sym (plus_assoc (own p) (measured measure (s.received p)) (measure m))))

    -- Where a message can go: to the utility, or to a meter of the run that has not sent its own.
    abbrev pub Awaited : ℕ → ℕ → Course R → ℤ → Type 0
    Awaited first size s (pos p) = (first ≤ p) × (p < first + size) × (s.sent p ≡ false)
    Awaited first size s (negsuc a) = Unit

    pub holdings-deliver :
        (s : Course R) (x first size : ℕ) (m : AggregationMessage R) (parent : ℤ)
        → first ≤ x
        → x < first + size
        → s.sent x ≡ false
        → measure m ≡ plus (own x) (measured measure (s.received x))
        → Awaited first size (mark_sent x s) parent
        → holdings first size (deliver parent m (mark_sent x s)) ≡ holdings first size s
    holdings-deliver s x first size m (pos p) from to unsent worth (p_from, p_to, p_unsent) =
        ap (λ (t : S). plus t (measured measure s.reported))
          (deliver_gives (mark_sent x s) p first size m p_from p_to p_unsent
            ∙ sym (mark_takes s x first size m from to unsent worth))
    holdings-deliver s x first size m (negsuc a) from to unsent worth h =
        let left = range_sum total (weight (mark_sent x s)) first size in
        ap (plus left)
          (measured-snoc measure s.reported m ∙ plus_comm (measured measure s.reported) (measure m))
        ∙ sym (plus_assoc left (measure m) (measured measure s.reported))
        ∙ ap (λ (t : S). plus t (measured measure s.reported))
            (sym (mark_takes s x first size m from to unsent worth))

    pub holdings-nothing_sent :
        (first size : ℕ) → holdings first size nothing_sent ≡ range_sum total own first size
    unfolding sum_all
    holdings-nothing_sent first size =
        plus_unit (range_sum total (weight nothing_sent) first size)
        ∙ range_sum-same total (weight nothing_sent) own first size (λ i from to. plus_unit (own i))

    -- When all meters have sent their messages, the utility got everything.
    pub holdings-all_sent :
        (s : Course R) (first size : ℕ)
        → ((i : ℕ) → first ≤ i → i < first + size → s.sent i ≡ true)
        → holdings first size s ≡ measured measure s.reported
    holdings-all_sent s first size all =
        ap (λ (t : S). plus t (measured measure s.reported))
          (range_sum-same total (weight s) (λ i. unit) first size
              (λ i from to. rw (all i from to) refl)
            ∙ range_sum-unit total first size)
        ∙ plus_comm unit (measured measure s.reported)
        ∙ plus_unit (measured measure s.reported)
