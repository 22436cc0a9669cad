-- ===== src/Aggregation/Sums.antt =====
-- Sums over runs of IDs, for the total of a group's tree.
use adq.Common.{
  ℕ, zero, suc, ◌+◌, ◌≤◌, ◌<◌, ◌==◌, ==_iff, Bool-cases, inl, inr, ◌≡◌, ◌≢◌, refl, sym, ap, ◌∙◌,
  arith,
}
use adq.Aggregation.Totals.{Sum}

module _ {R : Type 0} (sum : Sum R) where
  open sum use {plus, unit, plus_unit, plus_comm, plus_assoc}

  -- The sum of a function over `size` IDs from `first` on.
  unfoldable pub range_sum : (ℕ → R) → ℕ → ℕ → R
  range_sum f first zero = unit
  range_sum f first (suc size) = plus (f first) (range_sum f (suc first) size)

  pub range_sum-same :
      (f g : ℕ → R) (first size : ℕ)
      → ((i : ℕ) → first ≤ i → i < first + size → f i ≡ g i)
      → range_sum f first size ≡ range_sum g first size
  unfolding range_sum
  range_sum-same f g first zero same = refl
  range_sum-same f g first (suc size) same =
      ap (λ (t : R). plus t (range_sum f (suc first) size)) (same first (omega arith) (omega arith))
      ∙ ap (plus (g first)) (
          range_sum-same f g (suc first) size
            (λ i from to. same i (omega (arith, from)) (omega (arith, to))))

  pub range_sum-unit : (first size : ℕ) → range_sum (λ i. unit) first size ≡ unit
  unfolding range_sum
  range_sum-unit first zero = refl
  range_sum-unit first (suc size) =
      plus_comm unit (range_sum (λ i. unit) (suc first) size)
      ∙ plus_unit (range_sum (λ i. unit) (suc first) size)
      ∙ range_sum-unit (suc first) size

  swap_last : (a b c : R) → plus (plus a b) c ≡ plus (plus a c) b
  swap_last a b c = plus_assoc a b c ∙ ap (plus a) (plus_comm b c) ∙ sym (plus_assoc a c b)

  -- Where one value of a function grows, the sum grows by as much.
  pub range_sum-gain :
      (f g : ℕ → R) (x : ℕ) (v : R) (first size : ℕ)
      → first ≤ x
      → x < first + size
      → ((i : ℕ) → i ≢ x → f i ≡ g i)
      → f x ≡ plus (g x) v
      → range_sum f first size ≡ plus (range_sum g first size) v
  unfolding range_sum
  range_sum-gain f g x v first zero from to others gain = absurd (omega (arith, from, to))
  range_sum-gain f g x v first (suc size) from to others gain = elim (Bool-cases (first == x)) [
    | inl here ↦
        let at_first : first ≡ x = (==_iff first x).0 here in
        let tail =
          range_sum-same f g (suc first) size
            (λ i later _. others i (λ e. omega (arith, later, e, at_first))) in
        let head : f first ≡ plus (g first) v = rw at_first gain in
        ap (λ (t : R). plus t (range_sum f (suc first) size)) head
        ∙ ap (plus (plus (g first) v)) tail
        ∙ swap_last (g first) v (range_sum g (suc first) size)
    | inr later ↦
        let away : first ≢ x = ground (arith, later) in
        let tail =
          range_sum-gain f g x v (suc first) size (omega (arith, from, away)) (omega (arith, to))
            others gain in
        ap (λ (t : R). plus t (range_sum f (suc first) size)) (others first away)
        ∙ ap (plus (g first)) tail
        ∙ sym (plus_assoc (g first) (range_sum g (suc first) size) v)
  ]

abbrev pub count_sum : Sum ℕ
count_sum = record {
  plus = λ a b. a + b;
  unit = 0;
  plus_unit = λ a. omega arith;
  plus_comm = λ a b. omega arith;
  plus_assoc = λ a b c. omega arith;
}

-- A sum of numbers that is no less than that of larger ones has the same terms.
pub range_sum-tight :
    (f g : ℕ → ℕ) (first size : ℕ)
    → ((i : ℕ) → f i ≤ g i)
    → (range_sum count_sum f first size ≤ range_sum count_sum g first size)
      × (range_sum count_sum g first size ≤ range_sum count_sum f first size
          → (i : ℕ) → first ≤ i
          → i < first + size
          → g i ≤ f i)
unfolding range_sum
range_sum-tight f g first zero below =
    (omega arith, λ all i from to. absurd (omega (arith, from, to)))
range_sum-tight f g first (suc size) below =
    let (less, rest) = range_sum-tight f g (suc first) size below in
    let head = below first in
    (
      omega (arith, less, head),
      λ all i from to. elim (Bool-cases (first == i)) [
        | inl here ↦
            let at_first : first ≡ i = (==_iff first i).0 here in
            rw (← at_first) (omega (arith, all, less, head))
        | inr later ↦
            let away : first ≢ i = ground (arith, later) in
            rest (omega (arith, all, head)) i (omega (arith, from, away)) (omega (arith, to))
      ],
    )

pub range_sum-add :
    (f g : ℕ → ℕ) (first size : ℕ)
    → range_sum count_sum (λ i. f i + g i) first size
      ≡ range_sum count_sum f first size + range_sum count_sum g first size
unfolding range_sum
range_sum-add f g first zero = omega arith
range_sum-add f g first (suc size) = omega (arith, range_sum-add f g (suc first) size)

pub range_sum-zero : (first size : ℕ) → range_sum count_sum (λ i. 0) first size ≡ 0
unfolding range_sum
range_sum-zero first zero = refl
range_sum-zero first (suc size) = omega (arith, range_sum-zero (suc first) size)
