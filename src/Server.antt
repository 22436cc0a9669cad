-- ===== src/Server.antt =====
-- QueryServer, the utility's side of a query: include/adq/core/QueryServer.hpp and its _impl.hpp,
-- with the operator== of AggregationMessage. Each handler runs to its end before the next one.
pub mod Results
pub mod Accounts
pub mod Signatures
pub mod Timeouts
pub mod Callbacks
use adq.Common.{
  ℕ, ℤ, pos, negsuc, zero, suc, ◌+◌, ◌*◌, ◌/◌, ◌-◌, List, [], ◌∷◌, ◌++◌, Bool, true, false, ◌&&◌,
  not, Option, none, some, Result, ok, err, undefined, ◌>>=◌, ltb, ltb_ℤ, leb, if◌then◌else◌, ◌==◌,
  ◌==ℤ◌, length, Eq,
}
use adq.Common.Log.{ceil_log2}
use adq.Messages.{QueryRequest}
use adq.Aggregation.{AggregationMessage}
use adq.Timers.{TimerManager, empty_manager, register_timer, cancel_timer, callback_round}

-- The callback of every timer of the server calls end_query.
pub data Timeout : Type 0 where
  times_out : Timeout

-- What the server does to others: the messages it sends, and the calls of registered callbacks,
-- which are of a type K.
pub data Action (R K : Type 0) : Type 0 where
  sends_query : QueryRequest → ℕ → Action R K
  sends_signature : List ℕ → ℤ → Action R K
  calls : K → ℤ → Option R → Action R K

-- A pending_batch_queries is in no order, and a std::set or std::multiset is the list of its
-- elements in the order of its iteration.
pub record Server (R K : Type 0) : Type 0 where
  pub num_meters : ℕ
  pub timers : TimerManager Timeout
  pub query_timeout_time : ℕ
  pub query_timeout_timer : ℕ
  pub query_num : ℤ
  pub query_finished : Bool
  pub query_callbacks : List (ℕ × K)
  pub curr_query_results : List (AggregationMessage R)
  pub all_query_results : List (Option R)
  pub curr_query_meters_signed : List ℤ
  pub pending_batch_queries : List QueryRequest

-- ceil(log2(num_meters / (2 * FAILURES_TOLERATED + 1))), where there is a meter for each group.
abbrev pub log2_group_size : ℕ → ℕ → ℕ
log2_group_size num_meters failures_tolerated =
    ceil_log2 ((num_meters + 2 * failures_tolerated) / (2 * failures_tolerated + 1))

abbrev pub compute_timeout_time : ℕ → ℕ → ℕ
compute_timeout_time num_meters failures_tolerated =
    log2_group_size num_meters failures_tolerated * 100

abbrev pub rounds_for_query : ℕ → ℕ → ℕ
rounds_for_query num_meters failures_tolerated =
    let log2n = ceil_log2 num_meters in
    6 * failures_tolerated + 3 * log2n * log2n + 3 + log2_group_size num_meters failures_tolerated

abbrev pub has_signed : List ℤ → ℤ → Bool
has_signed [] meter = false
has_signed (m ∷ ms) meter = if m ==ℤ meter then true else has_signed ms meter

-- resize and the assignment of one element.
unfoldable pub set_result {ℓ} : {A : Type ℓ} → ℕ → Option A → List (Option A) → List (Option A)
set_result zero result [] = result ∷ []
set_result zero result (r ∷ rs) = result ∷ rs
set_result (suc n) result [] = none ∷ set_result n result []
set_result (suc n) result (r ∷ rs) = r ∷ set_result n result rs

unfoldable pub store_result {ℓ} :
    {A : Type ℓ} → ℤ → Option A → List (Option A) → Result (List (Option A))
unfolding set_result
store_result (pos query_num) result all = ok (set_result query_num result all)
store_result (negsuc n) result all = err undefined

-- top and pop: the least query number, the first of its equals.
unfoldable pub pop_top : QueryRequest → List QueryRequest → QueryRequest × List QueryRequest
pop_top q [] = (q, [])
pop_top q (p ∷ ps) =
    let lower = ltb_ℤ p.query_number q.query_number in
    let (top, rest) = pop_top (if lower then p else q) ps in (top, (if lower then q else p) ∷ rest)

unfoldable pub erase_callback : {K : Type 0} → ℕ → List (ℕ × K) → List (ℕ × K)
erase_callback i [] = []
erase_callback i ((j, k) ∷ m) = if j == i then erase_callback i m else (j, k) ∷ erase_callback i m

abbrev pub next_callback_id : {K : Type 0} → List (ℕ × K) → ℕ
next_callback_id [] = 0
next_callback_id ((i, k) ∷ []) = i + 1
next_callback_id ((i, k) ∷ (j ∷ m)) = next_callback_id (j ∷ m)

unfoldable pub run_callbacks : {R K : Type 0} → List (ℕ × K) → ℤ → Option R → List (Action R K)
run_callbacks [] query_num result = []
run_callbacks ((i, callback) ∷ m) query_num result =
    calls callback query_num result ∷ run_callbacks m query_num result

module _ {R : Type 0} ⦃eq : Eq R⦄ where
  abbrev pub message_eq : AggregationMessage R → AggregationMessage R → Bool
  message_eq lhs rhs =
      (lhs.num_contributors == rhs.num_contributors && lhs.query_num ==ℤ rhs.query_num)
      && eq.beq lhs.value rhs.value

  abbrev pub count : AggregationMessage R → List (AggregationMessage R) → ℕ
  count m [] = 0
  count m (r ∷ rs) = (if message_eq r m then 1 else 0) + count m rs

  -- The loop of end_query over the results.
  unfoldable pub query_result :
      ℕ → List (AggregationMessage R) → List (AggregationMessage R) → Option R
  query_result failures_tolerated all [] = none
  query_result failures_tolerated all (r ∷ rs) =
      let rest = query_result failures_tolerated all rs in
      if leb (failures_tolerated + 1) (count r all) then some r.value else rest

unfoldable pub broadcast : {R K : Type 0} → QueryRequest → ℕ → ℕ → List (Action R K)
broadcast query meter_id zero = []
broadcast query meter_id (suc n) = sends_query query meter_id ∷ broadcast query (meter_id + 1) n

module _ {R K : Type 0} (failures_tolerated : ℕ) where
  unfoldable pub start_query : QueryRequest → Server R K → Server R K × List (Action R K)
  unfolding broadcast
  start_query query s =
      let delay_ms = rounds_for_query s.num_meters failures_tolerated * 100 in
      let (timer, timers) = register_timer delay_ms times_out s.timers in
      (
        record s {
          curr_query_meters_signed = [];
          query_num = query.query_number;
          curr_query_results = [];
          query_finished = false;
          timers = timers;
          query_timeout_timer = timer;
        },
        broadcast query 0 s.num_meters,
      )

  -- The pending query of the least number starts, if there is one.
  unfoldable pub start_next : List QueryRequest → Server R K → Server R K × List (Action R K)
  unfolding start_query pop_top
  start_next [] s = (s, [])
  start_next (q ∷ qs) s =
      let (next_query, rest) = pop_top q qs in
      start_query next_query (record s { pending_batch_queries = rest })

  unfoldable pub start_queries : List QueryRequest → Server R K → Server R K × List (Action R K)
  unfolding start_next
  start_queries [] s = (s, [])
  start_queries (q ∷ qs) s =
      start_next (s.pending_batch_queries ++ q ∷ qs)
        (record s { pending_batch_queries = s.pending_batch_queries ++ q ∷ qs })

module _ {R K : Type 0} where
  -- The blind signature is the library's, on the bytes of the request.
  unfoldable pub handle_signature_request :
      (List ℕ → List ℕ) → ℤ → List ℕ → Server R K → Server R K × List (Action R K)
  handle_signature_request rsa_sign_blinded sender_id body s =
      if has_signed s.curr_query_meters_signed sender_id then (s, []) else (
        record s { curr_query_meters_signed = sender_id ∷ s.curr_query_meters_signed },
        sends_signature (rsa_sign_blinded body) sender_id ∷ [],
      )

  -- The first two statements of the handler of AggregationMessages.
  abbrev pub receive_result : AggregationMessage R → Server R K → Server R K
  receive_result message s = record s {
    curr_query_results = s.curr_query_results ++ message ∷ [];
    timers = cancel_timer (pos s.query_timeout_timer) s.timers;
  }

  -- Its last statement.
  unfoldable pub reset_timeout : Server R K → Server R K
  reset_timeout s =
      let (timer, timers) = register_timer s.query_timeout_time times_out s.timers in
      if s.query_finished then s else record s { timers = timers; query_timeout_timer = timer }

  unfoldable pub register_query_callback : K → Server R K → ℕ × Server R K
  register_query_callback callback s =
      let next_id = next_callback_id s.query_callbacks in
      (next_id, record s { query_callbacks = s.query_callbacks ++ (next_id, callback) ∷ [] })

  unfoldable pub deregister_query_callback : ℕ → Server R K → Bool × Server R K
  unfolding erase_callback
  deregister_query_callback callback_id s =
      let rest = erase_callback callback_id s.query_callbacks in
      (length s.query_callbacks - length rest == 1, record s { query_callbacks = rest })

module _ {R K : Type 0} ⦃eq : Eq R⦄ (failures_tolerated : ℕ) where
  unfoldable pub end_query : Server R K → Result (Server R K × List (Action R K))
  unfolding query_result store_result start_next run_callbacks
  end_query s = do
    let result = query_result failures_tolerated s.curr_query_results s.curr_query_results
    stored ← store_result s.query_num result s.all_query_results
    let called = run_callbacks s.query_callbacks s.query_num result
    let (t, started) =
        start_next failures_tolerated s.pending_batch_queries
          (record s { curr_query_results = []; all_query_results = stored; query_finished = true })
    ok (t, called ++ started)

  unfoldable pub handle_aggregation_message :
      AggregationMessage R → Server R K → Result (Server R K × List (Action R K))
  unfolding end_query reset_timeout
  handle_aggregation_message message s = do
    let received = receive_result message s
    (t, actions) ←
        if not s.query_finished && ltb (2 * failures_tolerated) (length received.curr_query_results)
        then end_query received
        else ok (received, [])
    ok (reset_timeout t, actions)

  -- The callback of a timer, where one is run.
  unfoldable pub run_timeout : Option Timeout → Server R K → Result (Server R K × List (Action R K))
  unfolding end_query
  run_timeout none s = ok (s, [])
  run_timeout (some times_out) s = end_query s

  -- A round of the timer library's thread.
  unfoldable pub timer_round : Server R K → Result (Server R K × List (Action R K))
  unfolding run_timeout
  timer_round s = do
    (ran, timers) ← callback_round s.timers
    run_timeout ran (record s { timers = timers })
