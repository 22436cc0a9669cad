-- ===== src/Server/Accounts.antt =====
-- Each operation of core/detail/QueryServer_impl.hpp keeps the account of the blind signatures that
-- a meter got since the last query went out.
use adq.Common.{
  ℕ, ℤ, zero, suc, ◌+◌, ◌*◌, ◌<◌, List, [], ◌∷◌, ◌++◌, Bool, true, false, ◌&&◌, not, Option, none,
  some, ok, >>=-eq-ok, ltb, if◌then◌else◌, ◌==ℤ◌, ==ℤ_iff, length, Eq, ◌≡◌, refl, sym, ap, subst,
  ◌∙◌, inl, inr, arith, Bool-cases,
}
use adq.Aggregation.{AggregationMessage}
use adq.Messages.{QueryRequest}
use adq.Timers.{callback_round}
use adq.Server.{
  Timeout, times_out, Server, Action, sends_query, sends_signature, calls, has_signed, store_result,
  broadcast, pop_top, query_result, start_query, start_next, start_queries, end_query,
  handle_signature_request, receive_result, reset_timeout, handle_aggregation_message,
  run_callbacks, run_timeout, timer_round,
}

module _ {R K : Type 0} where
  -- The signatures sent to a meter since the last query went out, n of them before these actions.
  unfoldable pub signatures : ℤ → List (Action R K) → ℕ → ℕ
  signatures meter [] n = n
  signatures meter (sends_query query m ∷ actions) n = signatures meter actions 0
  signatures meter (sends_signature body m ∷ actions) n =
      signatures meter actions (if m ==ℤ meter then n + 1 else n)
  signatures meter (calls callback q result ∷ actions) n = signatures meter actions n

  -- The signatures that a state's set remembers.
  abbrev pub remembered : ℤ → Server R K → ℕ
  remembered meter s = if has_signed s.curr_query_meters_signed meter then 1 else 0

  -- The actions agree with the sets before and after, for a network with meters.
  pub record Accounts (meter : ℤ) (s t : Server R K) (actions : List (Action R K)) : Type 0 where
    pub meters : t.num_meters ≡ s.num_meters
    pub tally : signatures meter actions (remembered meter s) ≡ remembered meter t

  signatures-append :
      (meter : ℤ) (first later : List (Action R K)) (n : ℕ)
      → signatures meter (first ++ later) n ≡ signatures meter later (signatures meter first n)
  unfolding signatures
  signatures-append meter [] later n = refl
  signatures-append meter (sends_query query m ∷ first) later n =
      signatures-append meter first later 0
  signatures-append meter (sends_signature body m ∷ first) later n =
      signatures-append meter first later (if m ==ℤ meter then n + 1 else n)
  signatures-append meter (calls callback q result ∷ first) later n =
      signatures-append meter first later n

  pub compose :
      (meter : ℤ) (s t u : Server R K) (first later : List (Action R K))
      → Accounts meter s t first
      → Accounts meter t u later
      → Accounts meter s u (first ++ later)
  compose meter s t u first later a b = record {
    meters = b.meters ∙ a.meters;
    tally =
        signatures-append meter first later (remembered meter s)
        ∙ ap (signatures meter later) a.tally
        ∙ b.tally;
  }

  signatures-run_callbacks :
      (meter : ℤ) (m : List (ℕ × K)) (q : ℤ) (result : Option R) (n : ℕ)
      → signatures meter (run_callbacks m q result) n ≡ n
  unfolding signatures run_callbacks
  signatures-run_callbacks meter [] q result n = refl
  signatures-run_callbacks meter ((i, callback) ∷ m) q result n =
      signatures-run_callbacks meter m q result n

  pub handle_signature_request-Accounts :
      (meter : ℤ) (sign : List ℕ → List ℕ) (sender_id : ℤ) (body : List ℕ) (s : Server R K)
      → Accounts meter s
          (handle_signature_request sign sender_id body s).0
          (handle_signature_request sign sender_id body s).1
  unfolding handle_signature_request signatures
  handle_signature_request-Accounts meter sign sender_id body s =
      elim (Bool-cases (has_signed s.curr_query_meters_signed sender_id)) [
        | inl old ↦ rw old (record { meters = refl; tally = refl })
        | inr new ↦
            let same = ==ℤ_iff sender_id meter in
            rw new (record {
              meters = refl;
              tally = ground (
                arith,
                new,
                λ (e : sender_id ≡ meter). ap (has_signed s.curr_query_meters_signed) e,
                same,
              );
            })
      ]

signatures-broadcast :
    (R K : Type 0) (meter : ℤ) (query : QueryRequest) (i k n : ℕ)
    → 0 < k
    → signatures meter (broadcast {R = R} {K = K} query i k) n ≡ 0
unfolding signatures broadcast
signatures-broadcast R K meter query i zero n h = absurd (omega arith)
signatures-broadcast R K meter query i (suc zero) n h = refl
signatures-broadcast R K meter query i (suc (suc k)) n h =
    signatures-broadcast R K meter query (i + 1) (suc k) 0 (omega arith)

module _ {R K : Type 0} (failures_tolerated : ℕ) where
  pub start_query-Accounts :
      (meter : ℤ) (query : QueryRequest) (s : Server R K)
      → 0 < s.num_meters
      → Accounts meter s
          (start_query failures_tolerated query s).0
          (start_query failures_tolerated query s).1
  unfolding start_query
  start_query-Accounts meter query s h = record {
    meters = refl;
    tally = signatures-broadcast R K meter query 0 s.num_meters (remembered meter s) h;
  }

  start_next-Accounts :
      (meter : ℤ) (pending : List QueryRequest) (s : Server R K)
      → 0 < s.num_meters
      → Accounts meter s
          (start_next failures_tolerated pending s).0
          (start_next failures_tolerated pending s).1
  unfolding start_next signatures
  start_next-Accounts meter [] s h = record { meters = refl; tally = refl }
  start_next-Accounts meter (q ∷ qs) s h =
      let started =
        start_query-Accounts meter (pop_top q qs).0
          (record s { pending_batch_queries = (pop_top q qs).1 }) h in
      record { meters = started.meters; tally = started.tally }

module _ {R K : Type 0} ⦃eq : Eq R⦄ (failures_tolerated : ℕ) where
  end_query-Accounts :
      (meter : ℤ) (s t : Server R K) (actions : List (Action R K))
      → 0 < s.num_meters
      → end_query failures_tolerated s ≡ ok (t, actions)
      → Accounts meter s t actions
  unfolding end_query
  end_query-Accounts meter s t actions h e =
      let result = query_result failures_tolerated s.curr_query_results s.curr_query_results in
      let (stored, e₁, e₂) = >>=-eq-ok (store_result s.query_num result s.all_query_results) _ e in
      let ended = record s {
        curr_query_results = [];
        all_query_results = stored;
        query_finished = true;
      } in
      let called = run_callbacks s.query_callbacks s.query_num result in
      let next = start_next failures_tolerated s.pending_batch_queries ended in
      let same : next.0 ≡ t = ground arith in
      let these : called ++ next.1 ≡ actions = ground arith in
      let whole =
        compose meter s ended next.0 called next.1
          (record {
            meters = refl;
            tally =
                signatures-run_callbacks meter s.query_callbacks s.query_num result
                  (remembered meter s);
          })
          (start_next-Accounts failures_tolerated meter s.pending_batch_queries ended h) in
      subst (Accounts meter s t) these
        (subst (λ v. Accounts meter s v (called ++ next.1)) same whole)

  unchanged : (meter : ℤ) (s : Server R K) → Accounts meter s s []
  unfolding signatures
  unchanged meter s = record { meters = refl; tally = refl }

  pub start_queries-Accounts :
      (meter : ℤ) (queries : List QueryRequest) (s : Server R K)
      → 0 < s.num_meters
      → Accounts meter s
          (start_queries failures_tolerated queries s).0
          (start_queries failures_tolerated queries s).1
  unfolding start_queries
  start_queries-Accounts meter [] s h = unchanged meter s
  start_queries-Accounts meter (q ∷ qs) s h =
      let pending = s.pending_batch_queries ++ q ∷ qs in
      let started =
        start_next-Accounts failures_tolerated meter pending
          (record s { pending_batch_queries = pending }) h in
      record { meters = started.meters; tally = started.tally }

  reset_timeout-Accounts :
      (meter : ℤ) (s t : Server R K) (actions : List (Action R K))
      → Accounts meter s t actions
      → Accounts meter s (reset_timeout t) actions
  unfolding reset_timeout
  reset_timeout-Accounts meter s t actions a =
      let meters : (reset_timeout t).num_meters ≡ t.num_meters = ground arith in
      let signed : (reset_timeout t).curr_query_meters_signed ≡ t.curr_query_meters_signed =
        ground arith in
      record {
        meters = meters ∙ a.meters;
        tally = a.tally ∙ ap (λ ms. if has_signed ms meter then 1 else 0) (sym signed);
      }

  -- The two ways through a handler that ends the query on a test.
  pub ended_if-Accounts :
      (test : Bool) (meter : ℤ) (s t : Server R K) (actions : List (Action R K))
      → 0 < s.num_meters
      → (if test then end_query failures_tolerated s else ok (s, [])) ≡ ok (t, actions)
      → Accounts meter s t actions
  ended_if-Accounts true meter s t actions h e = end_query-Accounts meter s t actions h e
  ended_if-Accounts false meter s t actions h e =
      let same : s ≡ t = ground arith in
      let none : [] ≡ actions = ground arith in
      subst (Accounts meter s t) none (subst (λ v. Accounts meter s v []) same (unchanged meter s))

  pub handle_aggregation_message-Accounts :
      (meter : ℤ) (message : AggregationMessage R) (s t : Server R K) (actions : List (Action R K))
      → 0 < s.num_meters
      → handle_aggregation_message failures_tolerated message s ≡ ok (t, actions)
      → Accounts meter s t actions
  unfolding handle_aggregation_message
  handle_aggregation_message-Accounts meter message s t actions h e =
      let received = receive_result message s in
      let full =
        not s.query_finished && ltb (2 * failures_tolerated) (length received.curr_query_results) in
      let (r, e₁, e₂) =
        >>=-eq-ok (if full then end_query failures_tolerated received else ok (received, [])) _ e in
      let a = ended_if-Accounts full meter received r.0 r.1 h e₁ in
      let b =
        reset_timeout-Accounts meter s r.0 r.1 (record { meters = a.meters; tally = a.tally }) in
      let same : reset_timeout r.0 ≡ t = ground arith in
      let these : r.1 ≡ actions = ground arith in
      subst (Accounts meter s t) these (subst (λ v. Accounts meter s v r.1) same b)

  run_timeout-Accounts :
      (ran : Option Timeout) (meter : ℤ) (s t : Server R K) (actions : List (Action R K))
      → 0 < s.num_meters
      → run_timeout failures_tolerated ran s ≡ ok (t, actions)
      → Accounts meter s t actions
  unfolding run_timeout
  run_timeout-Accounts none meter s t actions h e = ended_if-Accounts false meter s t actions h e
  run_timeout-Accounts (some times_out) meter s t actions h e =
      end_query-Accounts meter s t actions h e

  pub timer_round-Accounts :
      (meter : ℤ) (s t : Server R K) (actions : List (Action R K))
      → 0 < s.num_meters
      → timer_round failures_tolerated s ≡ ok (t, actions)
      → Accounts meter s t actions
  unfolding timer_round
  timer_round-Accounts meter s t actions h e =
      let ((ran, timers), e₁, e₂) = >>=-eq-ok (callback_round s.timers) _ e in
      let a = run_timeout-Accounts ran meter (record s { timers = timers }) t actions h e₂ in
      record { meters = a.meters; tally = a.tally }
