-- ===== src/Server/Timeouts.antt =====
-- The timers of successive queries (start_query and the handler of AggregationMessages in
-- core/detail/QueryServer_impl.hpp).
use adq.Common.{
  ℕ, pos, suc, ◌*◌, ◌≤◌, ◌<◌, List, [], ◌∷◌, ◌++◌, true, false, ok, contains, contains-insert,
  length, length-append, Eq, ◌≡◌, refl, arith,
}
use adq.Aggregation.{AggregationMessage}
use adq.Messages.{QueryRequest}
use adq.Timers.{register_timer, cancel_timer}
use adq.Server.{
  Server, Action, set_result, store_result, query_result, start_query, start_next, end_query,
  receive_result, reset_timeout, handle_aggregation_message, run_callbacks,
}
use adq.Server.Results.{full_handler}

module _ {R K : Type 0} ⦃eq : Eq R⦄ (failures_tolerated : ℕ) where
  -- Where the last of 2 * failures_tolerated + 1 results of a running query arrives, a query is
  -- pending, and the timer IDs are as the manager gives them out (the next one is above the current
  -- timeout's and not cancelled), the handler ends the query, starts the pending one and then sets a
  -- second timer for it: the timer that start_query set is still known to the manager, is not
  -- cancelled, and is not the one that the server remembers.
  pub next_query_timer_lost :
      (s : Server R K) (q : ℕ) (message : AggregationMessage R) (p : QueryRequest)
      (ps : List QueryRequest)
      → s.query_num ≡ pos q
      → s.query_finished ≡ false
      → 2 * failures_tolerated ≤ length s.curr_query_results
      → s.pending_batch_queries ≡ p ∷ ps
      → s.query_timeout_timer < s.timers.next_id
      → contains s.timers.cancelled_timers s.timers.next_id ≡ false
      → (t : Server R K) × (actions : List (Action R K)) × (handle_aggregation_message
            failures_tolerated message s
          ≡ ok (t, actions))
        × (contains t.timers.timer_handles s.timers.next_id ≡ true)
        × (contains t.timers.cancelled_timers s.timers.next_id ≡ false)
        × (t.query_timeout_timer ≡ suc s.timers.next_id)
  unfolding end_query start_next start_query register_timer cancel_timer reset_timeout store_result
  next_query_timer_lost s q message p ps e running size pending old fresh =
      let received = receive_result message s in
      let result =
        query_result failures_tolerated received.curr_query_results received.curr_query_results in
      let ended = record received {
        curr_query_results = [];
        all_query_results = set_result q result s.all_query_results;
        query_finished = true;
      } in
      let next = start_next failures_tolerated (p ∷ ps) ended in
      let actions = run_callbacks s.query_callbacks s.query_num result ++ next.1 in
      let h : end_query failures_tolerated received ≡ ok (next.0, actions) = rw (e, pending) refl in
      (
        reset_timeout next.0,
        actions,
        full_handler failures_tolerated message s next.0 actions running
            (omega (arith, length-append s.curr_query_results (message ∷ []))) h,
        ground arith,
        ground (
          arith,
          fresh,
          old,
          contains-insert s.timers.cancelled_timers s.query_timeout_timer s.timers.next_id,
        ),
        ground arith,
      )
