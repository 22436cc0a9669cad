-- ===== src/Protocol/Rounds.antt =====
-- The end of an overlay round and what it leads to (end_overlay_round, common_end_overlay_round,
-- handle_overlay_message, handle_round_timeout and encrypted_multicast_to_proxies in
-- core/detail/ProtocolState_impl.hpp, build_encrypted_onion in
-- messaging/detail/OverlayMessage_impl.hpp).
use adq.Common.{
  ℕ, ℤ, pos, negsuc, zero, suc, ◌+◌, ◌*◌, List, [], ◌∷◌, ◌++◌, Bool, true, false, ◌&&◌, not, Option,
  none, some, Result, ok, err, undefined, out_of_fuel, ◌>>=◌, if◌then◌else◌, ltb, ge_ℕ, suc_ℤ,
  contains, ◌==ℤ◌, as_u32, Eq,
}
use adq.Common.Log.{ceil_log2}
use adq.Messages.{
  ValueTuple, ValueContribution, SignedValue, MessageBody, Enclosed, null, enclosed, overlay_body,
  contribution_body, signed_body, OverlayMessage, overlay_message,
}
use adq.Crypto.{Crypto, rsa_encrypt, rsa_decrypt}
use adq.Overlay.{gossip_predecessor}
use adq.PathFinder.{IterationOrder, find_paths}
use adq.Agreement.{
  CrusaderState, other_proxies, target_ids, path_messages, finish_phase_1, finish_phase_2,
}
use adq.Timers.{register_timer, cancel_timer}
use adq.Protocol.{
  Protocol, ProtocolPhase, shuffle, agreement, aggregate, OverlayTransportMessage, Packet,
  ping_message, times_out, get_current_query_num, select, reject, send_or_fail,
  send_overlay_message_batch, start_aggregate_phase, handle_shuffle_phase_message,
  handle_agreement_phase_message,
}

-- A round as a start round for paths: it is not negative where this is used.
abbrev round_number : ℤ → ℕ
round_number (pos r) = r
round_number (negsuc r) = 0

-- `round >= start + n`
abbrev reached : ℤ → ℤ → ℕ → Bool
reached (pos round) (pos start) n = not (ltb round (start + n))
reached (pos round) (negsuc start) n = not (ltb (round + suc start) n)
reached (negsuc round) start n = false

abbrev pub is_in_overlay_phase : {R : Type 0} → Protocol R → Bool
is_in_overlay_phase s = elim s.protocol_phase [ shuffle ↦ true | agreement ↦ true | _ ↦ false ]

-- A body that holds a layer of an onion.
abbrev as_body : {R : Type 0} → OverlayMessage R → MessageBody R
as_body m =
    overlay_body m.query_num m.destination m.is_encrypted m.flood m.remaining_path m.enclosed_body

module _ {R : Type 0} (crypto : Crypto R) where
  -- build_encrypted_onion, for the hops behind the first one and around them.
  unfoldable pub build_encrypted_onion : ℕ → List ℕ → MessageBody R → ℤ → Result (OverlayMessage R)
  build_encrypted_onion first [] payload query_num =
      rsa_encrypt crypto (overlay_message query_num (pos first) (enclosed payload)) (pos first)
  build_encrypted_onion first (next ∷ rest) payload query_num = do
    inner ← build_encrypted_onion next rest payload query_num
    rsa_encrypt crypto (overlay_message query_num (pos first) (enclosed (as_body inner)))
        (pos first)

  unfoldable pub build_onions : List (List ℕ) → MessageBody R → ℤ → Result (List (OverlayMessage R))
  unfolding build_encrypted_onion
  build_onions [] payload query_num = ok []
  build_onions ([] ∷ paths) payload query_num = err undefined
  build_onions ((first ∷ rest) ∷ paths) payload query_num = do
    onion ← build_encrypted_onion first rest payload query_num
    onions ← build_onions paths payload query_num
    ok (onion ∷ onions)

-- Setting the timeout of a round: 100 ms.
unfoldable pub set_round_timeout : {R : Type 0} → Protocol R → Protocol R
set_round_timeout s =
    let (timer, timers) = register_timer 100 times_out s.timers in
    record s { timers = timers; round_timeout_timer = pos timer }

abbrev cancel_round_timeout : {R : Type 0} → Protocol R → Protocol R
cancel_round_timeout s = record s { timers = cancel_timer s.round_timeout_timer s.timers }

unfoldable pub buffer_future_message :
    {R : Type 0} → OverlayTransportMessage R → Protocol R → Protocol R
buffer_future_message message s = record s {
  future_overlay_messages = s.future_overlay_messages ++ message ∷ [];
}

abbrev round_predecessor : {R : Type 0} → Protocol R → ℕ
round_predecessor s = gossip_predecessor s.meter_id (as_u32 s.overlay_round) s.num_meters

-- Whether a future message is for the round and the query.
abbrev pub is_current : {R : Type 0} → Protocol R → OverlayTransportMessage R → Bool
is_current s m = m.sender_round ==ℤ s.overlay_round && m.body.query_num ==ℤ get_current_query_num s

-- The message with the next hop of its path as its destination, where it has one.
forward_path :
    {R : Type 0} → OverlayMessage R → Option (List ℤ) → Protocol R → OverlayMessage R × Protocol R
forward_path m none s = (m, s)
forward_path m (some []) s = (m, s)
forward_path m (some (hop ∷ hops)) s =
    let forwarded = record m { destination = hop; remaining_path = some hops } in
    (forwarded, record s { waiting_messages = s.waiting_messages ++ forwarded ∷ [] })

module _ {R : Type 0} (reachable : List (Packet R × ℤ) → ℤ → Bool) where
  -- common_end_overlay_round up to the future messages.
  unfoldable pub next_round : Protocol R → Protocol R
  unfolding send_overlay_message_batch set_round_timeout
  next_round s =
      let t = set_round_timeout (
        send_overlay_message_batch reachable (record s {
          overlay_round = suc_ℤ s.overlay_round;
          ping_response_from_predecessor = false;
        })) in
      if contains t.failed_meter_ids (round_predecessor t)
      then t
      else send_or_fail reachable (ping_message (pos t.meter_id) false) (round_predecessor t) t

module _ {R : Type 0} ⦃eq : Eq R⦄ (crypto : Crypto R) where
  -- The payload of a message: the next layer of an onion, or a message for this meter.
  handle_payload : OverlayMessage R → Enclosed R → Protocol R → Result (Protocol R)
  handle_payload m null s = ok s
  handle_payload m (enclosed (overlay_body query_num destination is_encrypted flood path b)) s =
      ok (record s {
        waiting_messages =
            s.waiting_messages
            ++ record {
              query_num = query_num;
              destination = destination;
              is_encrypted = is_encrypted;
              flood = flood;
              remaining_path = path;
              enclosed_body = b;
            }
              ∷ [];
      })
  handle_payload m (enclosed b) s =
      if m.destination ==ℤ pos s.meter_id
      then (elim s.protocol_phase [
        | shuffle ↦ handle_shuffle_phase_message crypto (enclosed b) s
        | agreement ↦ handle_agreement_phase_message crypto (enclosed b) s
        | _ ↦ ok s
      ])
      else ok s

  -- `end_round` is end_overlay_round.
  unfoldable pub handle_overlay_message :
      (Protocol R → Result (Protocol R))
      → OverlayTransportMessage R
      → Protocol R
      → Result (Protocol R)
  unfolding set_round_timeout forward_path handle_payload
  handle_overlay_message end_round message s = do
    let timed = if is_in_overlay_phase s then set_round_timeout (cancel_round_timeout s) else s
    opened ← if message.body.is_encrypted then rsa_decrypt crypto message.body else ok message.body
    let (m, forwarded) = forward_path opened opened.remaining_path timed
    t ← handle_payload m m.enclosed_body forwarded
    if message.is_final_message && is_in_overlay_phase t then end_round t else ok t

  handle_overlay_messages :
      (Protocol R → Result (Protocol R))
      → List (OverlayTransportMessage R)
      → Protocol R
      → Result (Protocol R)
  unfolding handle_overlay_message
  handle_overlay_messages end_round [] s = ok s
  handle_overlay_messages end_round (message ∷ messages) s = do
    t ← handle_overlay_message end_round message s
    handle_overlay_messages end_round messages t

module _ {R : Type 0} ⦃eq : Eq R⦄ (crypto : Crypto R) (order : IterationOrder)
    (aggregate_function : List R → R) (reachable : List (Packet R × ℤ) → ℤ → Bool)
    (failures_tolerated : ℕ) where
  -- The signed values that a meter sends at the end of the shuffle phase.
  unfoldable pub signed_value_messages :
      Protocol R → List (ValueContribution R) → Result (List (OverlayMessage R))
  signed_value_messages s [] = ok []
  signed_value_messages s (proxy_value ∷ proxy_values) = do
    let signed : SignedValue R = record {
      value = proxy_value;
      signatures = (pos s.meter_id, Crypto.sign crypto proxy_value) ∷ [];
    }
    others ← other_proxies s.meter_id proxy_value.value_tuple.proxies
    targets ← target_ids others
    paths ← find_paths order s.meter_id targets s.num_meters (round_number s.overlay_round + 1)
    first ← path_messages crypto (get_current_query_num s) paths (signed_body signed)
    rest ← signed_value_messages s proxy_values
    ok (first ++ rest)

  abbrev squared_log2n : Protocol R → ℕ
  squared_log2n s = ceil_log2 s.num_meters * ceil_log2 s.num_meters

  end_agreement_round : CrusaderState R → Protocol R → Result (Protocol R)
  end_agreement_round state s =
      if reached s.overlay_round s.agreement_start_round
          (4 * failures_tolerated + 2 * squared_log2n s + 2)
        && state.phase_1_finished
      then start_aggregate_phase reachable aggregate_function (record s {
        accepted_proxy_values = finish_phase_2 crypto state;
        protocol_phase = aggregate;
      })
      else (if reached s.overlay_round s.agreement_start_round
              (2 * failures_tolerated + squared_log2n s + 1)
            && not state.phase_1_finished
          then (do
            (messages, after) ← finish_phase_1 crypto order state (round_number s.overlay_round)
            ok (record s {
              agreement_phase_state = some after;
              outgoing_messages = s.outgoing_messages ++ messages;
            }))
          else ok s)

  -- The phase changes of end_overlay_round, before common_end_overlay_round.
  unfoldable pub end_phase : ProtocolPhase → Protocol R → Result (Protocol R)
  unfolding signed_value_messages end_agreement_round
  end_phase shuffle s =
      if ge_ℕ s.overlay_round (2 * failures_tolerated + squared_log2n s + 1)
      then (do
        messages ← signed_value_messages s s.proxy_values
        ok (record s {
          outgoing_messages = s.outgoing_messages ++ messages;
          agreement_start_round = s.overlay_round;
          protocol_phase = agreement;
        }))
      else ok s
  end_phase agreement s = elim s.agreement_phase_state [
    | none ↦ err undefined
    | some state ↦ end_agreement_round state s
  ]
  end_phase _ s = ok s

  -- The rounds that end in one another's course take one unit of fuel each.
  unfoldable pub end_overlay_round : ℕ → Protocol R → Result (Protocol R)
  unfolding end_phase next_round handle_overlay_messages
  end_overlay_round zero s = err out_of_fuel
  end_overlay_round (suc fuel) s = do
    ended ← end_phase s.protocol_phase s
    let cancelled = cancel_round_timeout ended
    elim cancelled.is_last_round [
      | true ↦ ok cancelled
      | false ↦ do
        let started = next_round reachable cancelled
        let held = reject (is_current started) started.future_overlay_messages
        t ←
            handle_overlay_messages crypto (end_overlay_round fuel)
              (select (is_current started) started.future_overlay_messages)
              (record started { future_overlay_messages = held })
        elim (started.overlay_round ==ℤ t.overlay_round
            && contains t.failed_meter_ids (round_predecessor started)) [
              | true ↦ end_overlay_round fuel t
              | false ↦ ok t
            ]
    ]

  unfoldable pub encrypted_multicast_to_proxies :
      ℕ → ValueContribution R → Protocol R → Result (Protocol R)
  unfolding build_onions end_overlay_round
  encrypted_multicast_to_proxies fuel contribution s = do
    targets ← target_ids contribution.value_tuple.proxies
    paths ← find_paths order s.meter_id targets s.num_meters 0
    onions ←
        build_onions crypto paths (contribution_body contribution)
          contribution.value_tuple.query_num
    end_overlay_round fuel (record s { outgoing_messages = s.outgoing_messages ++ onions })

  signature_for : ℕ → Option (ValueTuple R) → List ℕ → Protocol R → Result (Protocol R)
  unfolding encrypted_multicast_to_proxies
  signature_for fuel none body s = err undefined
  signature_for fuel (some mine) body s =
      encrypted_multicast_to_proxies fuel
        (record { value_tuple = mine; signature = Crypto.unblind crypto mine body })
        (record s { protocol_phase = shuffle })

  unfoldable pub handle_signature_response : ℕ → List ℕ → Protocol R → Result (Protocol R)
  unfolding signature_for
  handle_signature_response fuel body s = signature_for fuel s.my_contribution body s

  unfoldable pub handle_round_timeout : ℕ → Protocol R → Result (Protocol R)
  unfolding end_overlay_round set_round_timeout
  handle_round_timeout fuel s =
      if s.ping_response_from_predecessor
      then ok (
          send_or_fail reachable (ping_message (pos s.meter_id) false) (round_predecessor s)
            (set_round_timeout (record s { ping_response_from_predecessor = false })))
      else end_overlay_round fuel s
