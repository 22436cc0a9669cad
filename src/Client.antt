-- ===== src/Client.antt =====
-- QueryClient, a meter's handlers for the messages that its network delivers:
-- include/adq/core/QueryClient.hpp and detail/QueryClient_impl.hpp.
use adq.Common.{
  ℕ, ℤ, List, [], ◌∷◌, ◌++◌, Bool, Option, none, some, Result, ok, err, out_of_range, ◌>>=◌,
  if◌then◌else◌, ltb_ℤ, ◌==◌, ◌==ℤ◌, as_u32, Eq,
}
use adq.Messages.{QueryRequest}
use adq.Crypto.{Crypto}
use adq.Overlay.{gossip_target, aggregation_group_for}
use adq.Overlay.Proxies.{Random}
use adq.PathFinder.{IterationOrder}
use adq.Aggregation.{AggregationMessage}
use adq.Protocol.{
  Protocol, OverlayTransportMessage, Packet, get_current_query_num, is_in_aggregate_phase,
  start_query, handle_aggregation_message,
}
use adq.Protocol.Rounds.{handle_overlay_message, end_overlay_round, buffer_future_message}

-- DataSource: the functions that a query names by opcodes. A missing opcode makes `at` throw.
pub record DataSource (R : Type 0) : Type 0 where
  pub select_functions : ℕ → Option (List ℕ → R)
  pub filter_functions : ℕ → Option (R → List ℕ → Bool)

-- map::at
unfoldable pub at {ℓ} : {A : Type ℓ} → Option A → Result A
at none = err out_of_range
at (some f) = ok f

-- Buffering an aggregation message for a later phase.
abbrev pub buffer_aggregation : {R : Type 0} → AggregationMessage R → Protocol R → Protocol R
buffer_aggregation message s = record s {
  future_aggregation_messages = s.future_aggregation_messages ++ message ∷ [];
}

module _ {R : Type 0} (reachable : List (Packet R × ℤ) → ℤ → Bool) where
  -- The handler of QueryRequests; the engine is that of the random draws.
  unfoldable pub handle_query_request :
      (random : Random)
      → Crypto R
      → DataSource R
      → R
      → QueryRequest
      → Random.Engine random
      → Protocol R
      → Result (Protocol R × Random.Engine random)
  unfolding at start_query
  handle_query_request random crypto data_source default message e s = do
    select_function ← at (data_source.select_functions message.select_function_opcode)
    filter_function ← at (data_source.filter_functions message.filter_function_opcode)
    let data_to_contribute = select_function message.select_serialized_args
    if filter_function data_to_contribute message.filter_serialized_args
        then start_query reachable random crypto message data_to_contribute default e s
        else ok (s, e)

  -- The handler of AggregationMessages: those of other groups are dropped.
  unfoldable pub receive_aggregation :
      (List R → R) → AggregationMessage R → ℕ → Protocol R → Result (Protocol R)
  unfolding handle_aggregation_message
  receive_aggregation aggregate_function message sender_id s =
      if aggregation_group_for sender_id s.num_aggregation_groups s.num_meters
        == aggregation_group_for s.meter_id s.num_aggregation_groups s.num_meters
      then (if is_in_aggregate_phase s
          then handle_aggregation_message reachable aggregate_function message s
          else (if message.query_num ==ℤ get_current_query_num s
              then ok (buffer_aggregation message s)
              else ok s))
      else ok s

-- What the client does with an overlay message.
pub data Fate : Type 0 where
  misdirected future_query obsolete current future_round too_old : Fate

unfoldable pub fate : {R : Type 0} → OverlayTransportMessage R → ℕ → Protocol R → Fate
fate message sender_id s =
    if gossip_target sender_id (as_u32 message.sender_round) s.num_meters == s.meter_id
    then (if ltb_ℤ (get_current_query_num s) message.body.query_num
        then future_query
        else (if ltb_ℤ message.body.query_num (get_current_query_num s)
            then obsolete
            else (if message.sender_round ==ℤ s.overlay_round
                then current
                else (if ltb_ℤ s.overlay_round message.sender_round
                    then future_round
                    else too_old))))
    else misdirected

module _ {R : Type 0} ⦃eq : Eq R⦄ (crypto : Crypto R) (order : IterationOrder)
    (aggregate_function : List R → R) (reachable : List (Packet R × ℤ) → ℤ → Bool)
    (failures_tolerated : ℕ) where
  -- The handler of OverlayTransportMessages.
  unfoldable pub receive_overlay :
      ℕ → OverlayTransportMessage R → ℕ → Protocol R → Result (Protocol R)
  unfolding fate handle_overlay_message end_overlay_round buffer_future_message
  receive_overlay fuel message sender_id s = elim (fate message sender_id s) [
    | current ↦
        handle_overlay_message crypto
          (end_overlay_round crypto order aggregate_function reachable failures_tolerated fuel)
          message s
    | future_query ↦ ok (buffer_future_message message s)
    | future_round ↦ ok (buffer_future_message message s)
    | _ ↦ ok s
  ]
