-- ===== src/Server/Signatures.antt =====
-- The blind signatures that the server gives out (the handler of SignatureRequests in
-- core/detail/QueryServer_impl.hpp) over a history of the server.
use adq.Common.{
  ℕ, ℤ, ◌≤◌, ◌<◌, List, [], ◌∷◌, ◌++◌, false, Result, ok, ◌>>=◌, >>=-eq-ok, if◌then◌else◌, Eq, ◌≡◌,
  subst, arith,
}
use adq.Aggregation.{AggregationMessage}
use adq.Messages.{QueryRequest}
use adq.Server.{
  Server, Action, has_signed, start_query, start_queries, handle_signature_request,
  handle_aggregation_message, timer_round,
}
use adq.Server.Accounts.{
  signatures, remembered, Accounts, compose, start_query-Accounts,
  handle_signature_request-Accounts, start_queries-Accounts, handle_aggregation_message-Accounts,
  timer_round-Accounts, ended_if-Accounts,
}

-- What can happen to a server: the calls of the program, the two messages that it handles, and a
-- round of its timer thread.
pub data Event (R : Type 0) : Type 0 where
  starts : QueryRequest → Event R
  starts_batch : List QueryRequest → Event R
  requests_signature : ℤ → List ℕ → Event R
  reports : AggregationMessage R → Event R
  timer_thread : Event R

module _ {R K : Type 0} ⦃eq : Eq R⦄ (failures_tolerated : ℕ) where
  serve : (List ℕ → List ℕ) → Event R → Server R K → Result (Server R K × List (Action R K))
  serve rsa_sign_blinded (starts query) s = ok (start_query failures_tolerated query s)
  serve rsa_sign_blinded (starts_batch queries) s = ok (start_queries failures_tolerated queries s)
  serve rsa_sign_blinded (requests_signature sender_id body) s =
      ok (handle_signature_request rsa_sign_blinded sender_id body s)
  serve rsa_sign_blinded (reports message) s =
      handle_aggregation_message failures_tolerated message s
  serve rsa_sign_blinded timer_thread s = timer_round failures_tolerated s

  -- A history of the server: its state after, and all that it did, in order.
  unfoldable pub serve_all :
      (List ℕ → List ℕ) → List (Event R) → Server R K → Result (Server R K × List (Action R K))
  unfolding serve
  serve_all rsa_sign_blinded [] s = ok (s, [])
  serve_all rsa_sign_blinded (event ∷ events) s = do
    (t, first) ← serve rsa_sign_blinded event s
    (u, later) ← serve_all rsa_sign_blinded events t
    ok (u, first ++ later)

  returned-Accounts :
      (meter : ℤ) (s t : Server R K) (r : Server R K × List (Action R K))
      (actions : List (Action R K))
      → Accounts meter s r.0 r.1
      → ok r ≡ ok (t, actions)
      → Accounts meter s t actions
  returned-Accounts meter s t r actions a e =
      let same : r.0 ≡ t = ground arith in
      let these : r.1 ≡ actions = ground arith in
      subst (Accounts meter s t) these (subst (λ v. Accounts meter s v r.1) same a)

  serve-Accounts :
      (meter : ℤ) (sign : List ℕ → List ℕ) (event : Event R) (s t : Server R K)
      (actions : List (Action R K))
      → 0 < s.num_meters
      → serve sign event s ≡ ok (t, actions)
      → Accounts meter s t actions
  unfolding serve
  serve-Accounts meter sign (starts query) s t actions h e =
      returned-Accounts meter s t _ actions
        (start_query-Accounts failures_tolerated meter query s h) e
  serve-Accounts meter sign (starts_batch queries) s t actions h e =
      returned-Accounts meter s t _ actions
        (start_queries-Accounts failures_tolerated meter queries s h) e
  serve-Accounts meter sign (requests_signature sender_id body) s t actions h e =
      returned-Accounts meter s t _ actions
        (handle_signature_request-Accounts meter sign sender_id body s) e
  serve-Accounts meter sign (reports message) s t actions h e =
      handle_aggregation_message-Accounts failures_tolerated meter message s t actions h e
  serve-Accounts meter sign timer_thread s t actions h e =
      timer_round-Accounts failures_tolerated meter s t actions h e

  serve_all-Accounts :
      (meter : ℤ) (sign : List ℕ → List ℕ) (events : List (Event R)) (s t : Server R K)
      (actions : List (Action R K))
      → 0 < s.num_meters
      → serve_all sign events s ≡ ok (t, actions)
      → Accounts meter s t actions
  unfolding serve_all
  serve_all-Accounts meter sign [] s t actions h e =
      ended_if-Accounts failures_tolerated false meter s t actions h e
  serve_all-Accounts meter sign (event ∷ events) s t actions h e =
      let (first, e₁, e₂) = >>=-eq-ok (serve sign event s) _ e in
      let (later, e₃, e₄) = >>=-eq-ok (serve_all sign events first.0) _ e₂ in
      let a = serve-Accounts meter sign event s first.0 first.1 h e₁ in
      let b =
        serve_all-Accounts meter sign events first.0 later.0 later.1 (omega (arith, a.meters)) e₃ in
      let same : later.0 ≡ t = ground arith in
      let these : first.1 ++ later.1 ≡ actions = ground arith in
      subst (Accounts meter s t) these (
        subst (λ v. Accounts meter s v (first.1 ++ later.1)) same
          (compose meter s first.0 later.0 first.1 later.1 a b))

  -- In a network with meters, after any history of the server from a state in which no meter has
  -- had a signature, no meter has had two since the last query went out, however often it asked.
  pub one_signature_each :
      (meter : ℤ) (rsa_sign_blinded : List ℕ → List ℕ) (events : List (Event R)) (s t : Server R K)
      (actions : List (Action R K))
      → 0 < s.num_meters
      → s.curr_query_meters_signed ≡ []
      → serve_all rsa_sign_blinded events s ≡ ok (t, actions)
      → signatures meter actions 0 ≤ 1
  one_signature_each meter sign events s t actions h fresh e =
      let a = serve_all-Accounts meter sign events s t actions h e in
      let tally =
        subst
          (λ ms.
            signatures meter actions (if has_signed ms meter then 1 else 0) ≡ remembered meter t)
          fresh a.tally in
      ground (arith, tally)
