-- ===== src/Protocol.antt =====
-- ProtocolState, a meter's part in a query: include/adq/core/ProtocolState.hpp and its _impl.hpp,
-- as far as an overlay round does not end: start_query, the messages of the shuffle phase, pings,
-- the batch that is sent in a round, and the aggregation.
pub mod Batch
pub mod Shuffle
pub mod Rounds
use adq.Common.{
  ℕ, ℤ, pos, negsuc, suc, ◌+◌, ◌*◌, List, [], ◌∷◌, ◌++◌, map, Bool, true, false, ◌&&◌, ◌||◌, not,
  Option, none, some, Result, ok, err, undefined, ◌>>=◌, if◌then◌else◌, contains, insert, ◌==ℤ◌,
  as_u32, Eq,
}
use adq.Messages.{
  ValueTuple, ValueContribution, SignatureArray, MessageBody, Enclosed, null, enclosed,
  overlay_body, contribution_body, agreement_body, signed_body, aggregation_body, byte_body,
  OverlayMessage, overlay_message, QueryRequest,
}
use adq.Messages.Equality.{contribution_eq}
use adq.Crypto.{Crypto}
use adq.Overlay.{gossip_target, gossip_predecessor}
use adq.Overlay.Proxies.{Random, pick_proxies}
use adq.Agreement.{CrusaderState, handle_message}
use adq.Aggregation.{
  AggregationMessage, TreeState, tree_state, initialize, done_receiving_from_children,
  handle_aggregation, compute_and_send_aggregate,
}
use adq.Timers.{TimerManager, cancel_timer}

pub data ProtocolPhase : Type 0 where
  idle setup shuffle agreement aggregate : ProtocolPhase

-- OverlayTransportMessage
pub record OverlayTransportMessage (R : Type 0) : Type 0 where
  pub sender_id : ℤ
  pub sender_round : ℤ
  pub is_final_message : Bool
  pub body : OverlayMessage R

-- What a meter sends through its NetworkManager.
pub data Packet (R : Type 0) : Type 0 where
  overlay_batch : List (OverlayTransportMessage R) → Packet R
  ping_message : ℤ → Bool → Packet R
  aggregation_message : AggregationMessage R → Packet R
  signature_request : ℤ → List ℕ → Packet R

-- The callback of a meter's timer calls handle_round_timeout.
pub data RoundTimeout : Type 0 where
  times_out : RoundTimeout

-- `sent` is what went to the network so far, each with its target; -1 is the utility.
pub record Protocol (R : Type 0) : Type 0 where
  pub protocol_phase : ProtocolPhase
  pub meter_id : ℕ
  pub num_meters : ℕ
  pub num_aggregation_groups : ℕ
  pub overlay_round : ℤ
  pub is_last_round : Bool
  pub failed_meter_ids : List ℕ
  pub round_timeout_timer : ℤ
  pub ping_response_from_predecessor : Bool
  pub future_overlay_messages : List (OverlayTransportMessage R)
  pub future_aggregation_messages : List (AggregationMessage R)
  pub waiting_messages : List (OverlayMessage R)
  pub outgoing_messages : List (OverlayMessage R)
  pub my_contribution : Option (ValueTuple R)
  pub proxy_values : List (ValueContribution R)
  pub aggregation_phase_state : Option (TreeState R)
  pub timers : TimerManager RoundTimeout
  pub agreement_phase_state : Option (CrusaderState R)
  pub agreement_start_round : ℤ
  pub accepted_proxy_values : List (ValueContribution R)
  pub sent : List (Packet R × ℤ)

abbrev pub get_current_query_num : {R : Type 0} → Protocol R → ℤ
get_current_query_num s = elim s.my_contribution [ none ↦ negsuc 0 | some v ↦ v.query_num ]

abbrev pub is_in_aggregate_phase : {R : Type 0} → Protocol R → Bool
is_in_aggregate_phase s = elim s.protocol_phase [ aggregate ↦ true | _ ↦ false ]

-- The two loops over a list that take some elements and leave the others.
abbrev pub select {ℓ} : {A : Type ℓ} → (A → Bool) → List A → List A
select f [] = []
select f (x ∷ xs) = if f x then x ∷ select f xs else select f xs

abbrev pub reject {ℓ} : {A : Type ℓ} → (A → Bool) → List A → List A
reject f [] = []
reject f (x ∷ xs) = if f x then reject f xs else x ∷ reject f xs

module _ {R : Type 0} where
  -- Whether a waiting message, and whether an outgoing one, is sent to a meter now.
  abbrev pub is_for : ℕ → OverlayMessage R → Bool
  is_for comm_target m = m.destination ==ℤ pos comm_target

  abbrev pub is_due : ℕ → OverlayMessage R → Bool
  is_due comm_target m = m.flood || is_for comm_target m

  abbrev pub transport : ℤ → ℤ → OverlayMessage R → OverlayTransportMessage R
  transport sender_id sender_round m = record {
    sender_id = sender_id;
    sender_round = sender_round;
    is_final_message = false;
    body = m;
  }

  -- The last message of a batch is marked as final.
  unfoldable pub mark_final : List (OverlayTransportMessage R) → List (OverlayTransportMessage R)
  mark_final [] = []
  mark_final (m ∷ []) = record m { is_final_message = true } ∷ []
  mark_final (m ∷ (n ∷ ms)) = m ∷ mark_final (n ∷ ms)

  abbrev pub round_target : Protocol R → ℕ
  round_target s = gossip_target s.meter_id (as_u32 s.overlay_round) s.num_meters

  abbrev pub messages_to_send : Protocol R → List (OverlayMessage R)
  messages_to_send s =
      select (is_for (round_target s)) s.waiting_messages
      ++ select (is_due (round_target s)) s.outgoing_messages

  -- A batch with a dummy message where there is nothing to send.
  unfoldable pub batch_of : Protocol R → List (OverlayMessage R) → List (OverlayTransportMessage R)
  unfolding mark_final
  batch_of s [] =
      record {
        sender_id = pos s.meter_id;
        sender_round = s.overlay_round;
        is_final_message = true;
        body = overlay_message (get_current_query_num s) (pos (round_target s)) null;
      }
      ∷ []
  batch_of s (m ∷ ms) = mark_final (map (transport (pos s.meter_id) s.overlay_round) (m ∷ ms))

-- Whether a packet gets through may depend on all that was sent before.
module _ {R : Type 0} (reachable : List (Packet R × ℤ) → ℤ → Bool) where
  abbrev pub send : Packet R → ℤ → Protocol R → Bool × Protocol R
  send packet target s =
      (reachable s.sent target, record s { sent = s.sent ++ (packet, target) ∷ [] })

  -- A send that notes a target that is down.
  abbrev pub send_or_fail : Packet R → ℕ → Protocol R → Protocol R
  send_or_fail packet target s =
      let (success, t) = send packet (pos target) s in
      record t {
        failed_meter_ids = if success then s.failed_meter_ids else insert target s.failed_meter_ids;
      }

  unfoldable pub send_overlay_message_batch : Protocol R → Protocol R
  unfolding batch_of
  send_overlay_message_batch s =
      send_or_fail (overlay_batch (batch_of s (messages_to_send s))) (round_target s) (record s {
        waiting_messages =
            reject (is_for (round_target s)) s.waiting_messages
            ++ reject (is_due (round_target s)) s.outgoing_messages;
        outgoing_messages = [];
      })

  unfoldable pub handle_ping_message : ℤ → Bool → Protocol R → Protocol R
  handle_ping_message sender_id is_response s =
      if not is_response
      then (send (ping_message (pos s.meter_id) true) sender_id s).1
      else (if sender_id
            ==ℤ pos (gossip_predecessor s.meter_id (as_u32 s.overlay_round) s.num_meters)
          then record s { ping_response_from_predecessor = true }
          else s)

  -- `default` is the value of a default-constructed record.
  unfoldable pub start_query :
      (random : Random)
      → Crypto R
      → QueryRequest
      → R
      → R
      → Random.Engine random
      → Protocol R
      → Result (Protocol R × Random.Engine random)
  start_query random crypto query_request contributed_data default e s = do
    let query_num = query_request.query_number
    (proxies, e') ← pick_proxies random s.meter_id s.num_aggregation_groups s.num_meters e
    let contribution : ValueTuple R = record {
      query_num = query_num;
      value = contributed_data;
      proxies = map pos proxies;
    }
    let started = record s {
      overlay_round = negsuc 0;
      is_last_round = false;
      ping_response_from_predecessor = false;
      timers = cancel_timer s.round_timeout_timer s.timers;
      proxy_values = [];
      failed_meter_ids = [];
      aggregation_phase_state =
          some (tree_state s.meter_id s.num_aggregation_groups s.num_meters query_num default);
      my_contribution = some contribution;
      protocol_phase = setup;
      accepted_proxy_values = [];
      agreement_phase_state = some (record {
        node_id = s.meter_id;
        num_nodes = s.num_meters;
        query_num = query_num;
        phase_1_finished = false;
        signed_proxy_values = [];
      });
    }
    let request = signature_request (pos s.meter_id) (Crypto.blind crypto contribution)
    ok ((send request (negsuc 0) started).1, e')

  -- The parent is -1 at the root of a tree, which is the utility.
  unfoldable pub send_aggregate : (List R → R) → TreeState R → Protocol R → Protocol R
  send_aggregate aggregate_function tree s =
      if done_receiving_from_children tree
      then (let (after, (message, parent)) =
            compute_and_send_aggregate aggregate_function s.accepted_proxy_values tree in
          record (send (aggregation_message message) parent s).1 {
            aggregation_phase_state = some after;
            protocol_phase = idle;
          })
      else s

  unfoldable pub handle_aggregation_message :
      (List R → R) → AggregationMessage R → Protocol R → Result (Protocol R)
  unfolding send_aggregate
  handle_aggregation_message aggregate_function message s = elim s.aggregation_phase_state [
    | none ↦ err undefined
    | some tree ↦
        let received = handle_aggregation aggregate_function message tree in
        ok (
          send_aggregate aggregate_function received
            (record s { aggregation_phase_state = some received }))
  ]

  unfoldable pub handle_aggregation_messages :
      (List R → R) → List (AggregationMessage R) → Protocol R → Result (Protocol R)
  unfolding handle_aggregation_message
  handle_aggregation_messages aggregate_function [] s = ok s
  handle_aggregation_messages aggregate_function (message ∷ messages) s = do
    t ← handle_aggregation_message aggregate_function message s
    handle_aggregation_messages aggregate_function messages t

  unfoldable pub start_aggregate_phase : (List R → R) → Protocol R → Result (Protocol R)
  unfolding send_aggregate handle_aggregation_messages
  start_aggregate_phase aggregate_function s = elim s.aggregation_phase_state [
    | none ↦ err undefined
    | some tree ↦
        let ready = initialize s.failed_meter_ids tree in
        let sent = send_aggregate aggregate_function ready (record s {
          timers = cancel_timer s.round_timeout_timer s.timers;
          aggregation_phase_state = some ready;
        }) in
        (do
          t ←
              if is_in_aggregate_phase sent
              then handle_aggregation_messages aggregate_function s.future_aggregation_messages
                  (record sent { future_aggregation_messages = [] })
              else ok sent
          ok (record t { is_last_round = true }))
  ]

module _ {R : Type 0} ⦃eq : Eq R⦄ where
  -- std::unordered_set of contributions.
  abbrev pub has_value : List (ValueContribution R) → ValueContribution R → Bool
  has_value [] v = false
  has_value (w ∷ ws) v = if contribution_eq w v then true else has_value ws v

module _ {R : Type 0} ⦃eq : Eq R⦄ (crypto : Crypto R) where
  shuffle_value : ValueContribution R → ValueTuple R → Protocol R → Protocol R
  shuffle_value contribution mine s =
      if contribution.value_tuple.query_num ==ℤ mine.query_num
        && Crypto.verify_tuple crypto contribution.value_tuple contribution.signature
      then record s {
        proxy_values =
            if has_value s.proxy_values contribution
            then s.proxy_values
            else contribution ∷ s.proxy_values;
      }
      else s

  -- A contribution, where the meter has one of its own for the query.
  shuffle_contribution :
      ValueContribution R → Option (ValueTuple R) → Protocol R → Result (Protocol R)
  unfolding shuffle_value
  shuffle_contribution contribution none s = err undefined
  shuffle_contribution contribution (some mine) s = ok (shuffle_value contribution mine s)

  -- A body that is no ValueContribution is dropped.
  unfoldable pub handle_shuffle_phase_message : Enclosed R → Protocol R → Result (Protocol R)
  unfolding shuffle_contribution
  handle_shuffle_phase_message (enclosed (contribution_body contribution)) s =
      shuffle_contribution contribution s.my_contribution s
  handle_shuffle_phase_message _ s = ok s

  unfoldable pub handle_agreement_phase_message : Enclosed R → Protocol R → Result (Protocol R)
  handle_agreement_phase_message message s = elim s.agreement_phase_state [
    | none ↦ err undefined
    | some state ↦ do
      after ← handle_message crypto state message
      ok (record s { agreement_phase_state = some after })
  ]
