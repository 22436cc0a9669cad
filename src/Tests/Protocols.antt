-- ===== src/Tests/Protocols.antt =====
-- The theorems on core/detail/ProtocolState_impl.hpp at concrete inputs.
use adq.Common.{true, ℕ, pos, negsuc, List, [], ◌∷◌, false, some, none, ok, ◌≡◌, refl}
use adq.Common.{list_eq}
use adq.Messages.{ValueContribution, Enclosed, enclosed, null, contribution_body, overlay_message}
use adq.Messages.Equality.{contribution_eq}
use adq.Timers.{empty_manager}
use adq.Protocol.{Protocol, OverlayTransportMessage, shuffle, handle_shuffle_phase_message}
use adq.Protocol.Shuffle.{AllVerified, shuffle_all, shuffle_verified}
use adq.Overlay.{gossip_target}
use adq.Client.{fate, future_round}
use adq.Tests.Agreements.{number_eq, byte_crypto, reading}

-- Meter 1 of 11 in round 2 of the shuffle phase, with a message for 5 waiting and one for 7 going out.
abbrev meter : List (ValueContribution ℕ) → Protocol ℕ
meter values = record {
  protocol_phase = shuffle;
  meter_id = 1;
  num_meters = 11;
  num_aggregation_groups = 3;
  overlay_round = pos 2;
  is_last_round = false;
  failed_meter_ids = [];
  round_timeout_timer = negsuc 0;
  ping_response_from_predecessor = false;
  future_overlay_messages = [];
  future_aggregation_messages = [];
  waiting_messages = overlay_message (pos 0) (pos 5) null ∷ [];
  outgoing_messages = overlay_message (pos 0) (pos 7) null ∷ [];
  my_contribution = some (record { query_num = pos 0; value = 6; proxies = pos 2 ∷ [] });
  proxy_values = values;
  aggregation_phase_state = none;
  timers = empty_manager;
  agreement_phase_state = none;
  agreement_start_round = pos 0;
  accepted_proxy_values = [];
  sent = [];
}

-- A reading twice, and a body of another kind.
abbrev shuffled : List (Enclosed ℕ)
shuffled = enclosed (contribution_body reading) ∷ enclosed (contribution_body reading) ∷ null ∷ []

collected : shuffle_all byte_crypto shuffled (meter []) ≡ ok (meter (reading ∷ []))
unfolding shuffle_all handle_shuffle_phase_message number_eq list_eq contribution_eq
collected = refl

shuffle_verified_example : AllVerified byte_crypto (pos 0) (reading ∷ [])
shuffle_verified_example =
    shuffle_verified byte_crypto shuffled
      (record { query_num = pos 0; value = 6; proxies = pos 2 ∷ [] }) (meter [])
      (meter (reading ∷ [])) refl refl collected

-- A message of meter 2 for round 5.
abbrev early : OverlayTransportMessage ℕ
early = record {
  sender_id = pos 2;
  sender_round = pos 5;
  is_final_message = true;
  body = overlay_message (pos 0) (pos 1) null;
}

fate-early : fate early 2 (meter []) ≡ future_round
unfolding fate gossip_target
fate-early = refl
