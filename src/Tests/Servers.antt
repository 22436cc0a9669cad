-- ===== src/Tests/Servers.antt =====
-- The theorems on core/detail/QueryServer_impl.hpp at concrete inputs.
use adq.Common.{ℕ, pos, ◌≤◌, ◌≡◌, refl, arith, List, [], ◌∷◌, true, false, ok, some, contains}
use adq.Messages.{QueryRequest}
use adq.Aggregation.{AggregationMessage}
use adq.Common.Log.{ceil_log2}
use adq.Timers.{register_timer, waiting}
use adq.Server.{
  Server, Action, count, end_query, handle_aggregation_message, start_queries,
  handle_signature_request, start_query, sends_query, sends_signature, calls, times_out,
}
use adq.Server.Results.{result_is_reported}
use adq.Server.Signatures.{Event, starts, requests_signature, serve_all, one_signature_each}
use adq.Server.Accounts.{signatures}
use adq.Server.Timeouts.{next_query_timer_lost}
use adq.Server.Callbacks.{AllFrom, start_queries_in_order}
use adq.Tests.Agreements.{number_eq}
use mathlib.Core.List.{Permᴰ}

abbrev query : ℕ → QueryRequest
query n = record {
  query_number = pos n;
  select_function_opcode = 0;
  filter_function_opcode = 1;
  aggregate_function_opcode = 2;
  select_serialized_args = [];
  filter_serialized_args = [];
  aggregate_serialized_args = [];
}

abbrev report : ℕ → AggregationMessage ℕ
report value = record { sender_id = pos 0; query_num = pos 0; value = value; num_contributors = 4 }

-- A server that runs query 0 for two meters, of which one may fail. Callbacks are numbers.
abbrev running : List (AggregationMessage ℕ) → List QueryRequest → Server ℕ ℕ
running results pending = record {
  num_meters = 2;
  timers = record {
    next_id = 1;
    armed = 0 ∷ [];
    fired_timers = [];
    timer_handles = 0 ∷ [];
    timer_callbacks = (0, times_out) ∷ [];
    cancelled_timers = [];
    thread = waiting;
  };
  query_timeout_time = 100;
  query_timeout_timer = 0;
  query_num = pos 0;
  query_finished = false;
  query_callbacks = (3, 7) ∷ [];
  curr_query_results = results;
  all_query_results = [];
  curr_query_meters_signed = [];
  pending_batch_queries = pending;
}

next_query_timer_lost_example :
    (t : Server ℕ ℕ) × (actions : List (Action ℕ ℕ)) × (handle_aggregation_message 1
        (report 9)
        (running (report 9 ∷ report 5 ∷ []) (query 4 ∷ []))
      ≡ ok (t, actions))
    × (contains t.timers.timer_handles 1 ≡ true)
    × (contains t.timers.cancelled_timers 1 ≡ false)
    × (t.query_timeout_timer ≡ 2)
next_query_timer_lost_example =
    next_query_timer_lost 1 (running (report 9 ∷ report 5 ∷ []) (query 4 ∷ [])) 0 (report 9)
      (query 4) [] refl refl (omega arith) refl (omega arith) refl

start_queries_in_order_example :
    (top : QueryRequest) × ((start_queries 1
        (query 6 ∷ query 2 ∷ [])
        (running [] (query 4 ∷ []))).0.query_num
      ≡ top.query_number)
    × Permᴰ (query 4 ∷ query 6 ∷ query 2 ∷ []) (
        top
        ∷ (start_queries 1
            (query 6 ∷ query 2 ∷ [])
            (running [] (query 4 ∷ []))).0.pending_batch_queries)
    × AllFrom top.query_number
        (start_queries 1
          (query 6 ∷ query 2 ∷ [])
          (running [] (query 4 ∷ []))).0.pending_batch_queries
start_queries_in_order_example =
    start_queries_in_order 1 (query 6) (query 2 ∷ []) (running [] (query 4 ∷ []))

-- The server after query 0 has ended with the result 9.
abbrev finished : Server ℕ ℕ
finished = record (running [] []) { query_finished = true; all_query_results = some 9 ∷ [] }

ended :
    end_query 1 (running (report 5 ∷ report 9 ∷ report 9 ∷ []) [])
    ≡ ok (finished, calls 7 (pos 0) (some 9) ∷ [])
unfolding end_query number_eq
ended = refl

result_is_reported_example :
    (m : AggregationMessage ℕ) × (m.value ≡ 9) × (2 ≤ count m (report 5 ∷ report 9 ∷ report 9 ∷ []))
result_is_reported_example =
    result_is_reported 1 (running (report 5 ∷ report 9 ∷ report 9 ∷ []) []) finished
      (calls 7 (pos 0) (some 9) ∷ []) 0 9 refl ended refl

-- Two requests of meter 1, a new query, and a third request.
abbrev requests : List (Event ℕ)
requests =
    requests_signature (pos 1) (5 ∷ [])
    ∷ requests_signature (pos 1) (6 ∷ [])
    ∷ starts (query 1)
    ∷ requests_signature (pos 1) (7 ∷ [])
    ∷ []

abbrev requested : Server ℕ ℕ
requested = record (running [] []) {
  timers = record {
    next_id = 2;
    armed = 0 ∷ [];
    fired_timers = [];
    timer_handles = 1 ∷ 0 ∷ [];
    timer_callbacks = (1, times_out) ∷ (0, times_out) ∷ [];
    cancelled_timers = [];
    thread = waiting;
  };
  query_timeout_timer = 1;
  query_num = pos 1;
  curr_query_meters_signed = pos 1 ∷ [];
}

abbrev answers : List (Action ℕ ℕ)
answers =
    sends_signature (5 ∷ []) (pos 1)
    ∷ sends_query (query 1) 0
    ∷ sends_query (query 1) 1
    ∷ sends_signature (7 ∷ []) (pos 1)
    ∷ []

answered : serve_all 1 (λ bytes. bytes) requests (running [] []) ≡ ok (requested, answers)
unfolding serve_all handle_signature_request start_query register_timer ceil_log2
answered = refl

one_signature_each_example : signatures (pos 1) answers 0 ≤ 1
one_signature_each_example =
    one_signature_each 1 (pos 1) (λ bytes. bytes) requests (running [] []) requested answers
      (omega arith) refl answered
