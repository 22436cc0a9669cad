-- ===== src/Server/Results.antt =====
-- The result of a query that the server keeps (end_query in core/detail/QueryServer_impl.hpp).
use adq.Common.{
  ℕ, pos, zero, suc, ◌+◌, ◌*◌, ◌≤◌, ◌<◌, List, [], ◌∷◌, ◌++◌, true, false, Option, some, ok, ◌>>=◌,
  leb, lt→ltb, length, get_elem?, Eq, ◌≡◌, refl, sym, ap, ◌∙◌, inl, inr, arith, Bool-cases,
}
use adq.Aggregation.{AggregationMessage}
use adq.Messages.{QueryRequest}
use adq.Server.{
  Server, Action, set_result, store_result, count, query_result, start_query, start_next, end_query,
  reset_timeout, receive_result, handle_aggregation_message, run_callbacks,
}

module _ {R : Type 0} ⦃eq : Eq R⦄ where
  -- Whatever the loop finds, failures_tolerated + 1 messages of that value were received.
  query_result-count :
      (failures_tolerated : ℕ) (all rs : List (AggregationMessage R)) (v : R)
      → query_result failures_tolerated all rs ≡ some v
      → (m : AggregationMessage R) × (m.value ≡ v) × (failures_tolerated + 1 ≤ count m all)
  unfolding query_result
  query_result-count f all [] v e = cc
  query_result-count f all (r ∷ rs) v e = elim (Bool-cases (leb (f + 1) (count r all))) [
    | inl enough ↦ (r, ground arith, ground arith)
    | inr few ↦ query_result-count f all rs v (rw few at e)
  ]

get_elem?-set_result :
    {A : Type 0} (n : ℕ) (result : Option A) (all : List (Option A))
    → get_elem? (set_result n result all) n ≡ some result
unfolding set_result
get_elem?-set_result zero result [] = refl
get_elem?-set_result zero result (r ∷ rs) = refl
get_elem?-set_result (suc n) result [] = get_elem?-set_result n result []
get_elem?-set_result (suc n) result (r ∷ rs) = get_elem?-set_result n result rs

module _ {R K : Type 0} (failures_tolerated : ℕ) where
  start_next-results :
      (pending : List QueryRequest) (s : Server R K)
      → (start_next failures_tolerated pending s).0.all_query_results ≡ s.all_query_results
  unfolding start_next start_query
  start_next-results [] s = refl
  start_next-results (q ∷ qs) s = refl

module _ {R K : Type 0} ⦃eq : Eq R⦄ (failures_tolerated : ℕ) where
  -- end_query does not fail for a query number that is not negative, and keeps the result under it.
  end_query-result :
      (s : Server R K) (q : ℕ)
      → s.query_num ≡ pos q
      → (t : Server R K) × (actions : List (Action R K)) × (end_query failures_tolerated s
          ≡ ok (t, actions))
        × (get_elem? t.all_query_results q
            ≡ some (query_result failures_tolerated s.curr_query_results s.curr_query_results))
  unfolding end_query store_result
  end_query-result s q e =
      let result = query_result failures_tolerated s.curr_query_results s.curr_query_results in
      let ended = record s {
        curr_query_results = [];
        all_query_results = set_result q result s.all_query_results;
        query_finished = true;
      } in
      let next = start_next failures_tolerated s.pending_batch_queries ended in
      (
        next.0,
        run_callbacks s.query_callbacks s.query_num result ++ next.1,
        rw e refl,
        rw (start_next-results failures_tolerated s.pending_batch_queries ended)
            (get_elem?-set_result q result s.all_query_results),
      )

  pub full_handler :
      (message : AggregationMessage R) (s t : Server R K) (actions : List (Action R K))
      → s.query_finished ≡ false
      → 2 * failures_tolerated < length (s.curr_query_results ++ message ∷ [])
      → end_query failures_tolerated (receive_result message s) ≡ ok (t, actions)
      → handle_aggregation_message failures_tolerated message s ≡ ok (reset_timeout t, actions)
  unfolding handle_aggregation_message
  full_handler message s t actions running size h =
      let full =
        lt→ltb (2 * failures_tolerated) (length (s.curr_query_results ++ message ∷ [])) size in
      let ends : handle_aggregation_message failures_tolerated message s ≡ (
          end_query failures_tolerated (receive_result message s) >>= λ x.
          ok (reset_timeout x.0, x.1)) =
        rw (running, full) refl in
      ends ∙ ap (λ m. m >>= λ x. ok (reset_timeout x.0, x.1)) h

  -- Whatever result end_query keeps for a query, whose number is not negative, more than failures_tolerated of the messages that
  -- the server has received for it hold that value.
  pub result_is_reported :
      (s t : Server R K) (actions : List (Action R K)) (q : ℕ) (v : R)
      → s.query_num ≡ pos q
      → end_query failures_tolerated s ≡ ok (t, actions)
      → get_elem? t.all_query_results q ≡ some (some v)
      → (m : AggregationMessage R) × (m.value ≡ v)
        × (failures_tolerated + 1 ≤ count m s.curr_query_results)
  result_is_reported s t actions q v e h kept =
      let (t', actions', h', kept') = end_query-result s q e in
      let same = sym h ∙ h' in
      let result : query_result failures_tolerated s.curr_query_results s.curr_query_results
          ≡ some v =
        ground (arith, same, kept, kept') in
      query_result-count failures_tolerated s.curr_query_results s.curr_query_results v result
