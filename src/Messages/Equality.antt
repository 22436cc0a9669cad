-- ===== src/Messages/Equality.antt =====
-- operator== of ValueTuple and ValueContribution, by which sets and maps of contributions go.
use adq.Common.{
  Bool, true, ◌&&◌, ◌≡◌, ◌↔◌, arith, Eq, list_eq, list_eq_iff, ◌==ℤ◌, ==ℤ_iff, ◌==◌, ==_iff,
}
use adq.Messages.{ValueTuple, ValueContribution}

module _ {R : Type 0} ⦃eq : Eq R⦄ where
  pub tuple_eq : ValueTuple R → ValueTuple R → Bool
  tuple_eq lhs rhs =
      (lhs.query_num ==ℤ rhs.query_num && eq.beq lhs.value rhs.value)
      && list_eq ◌==ℤ◌ lhs.proxies rhs.proxies

  unfoldable pub contribution_eq : ValueContribution R → ValueContribution R → Bool
  unfolding tuple_eq
  contribution_eq lhs rhs =
      tuple_eq lhs.value_tuple rhs.value_tuple && list_eq ◌==◌ lhs.signature rhs.signature

  pub contribution_eq_iff : (a b : ValueContribution R) → (contribution_eq a b ≡ true) ↔ (a ≡ b)
  unfolding contribution_eq
  contribution_eq_iff a b =
      let tuple_a = a.value_tuple in
      let tuple_b = b.value_tuple in
      let query = ==ℤ_iff tuple_a.query_num tuple_b.query_num in
      let value = eq.beq_iff tuple_a.value tuple_b.value in
      let proxies = list_eq_iff ◌==ℤ◌ ==ℤ_iff tuple_a.proxies tuple_b.proxies in
      let signature = list_eq_iff ◌==◌ ==_iff a.signature b.signature in
      (
        λ e. ground (arith, query, value, proxies, signature),
        λ e. ground (arith, query, value, proxies, signature),
      )
