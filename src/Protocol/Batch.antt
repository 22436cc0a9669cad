-- ===== src/Protocol/Batch.antt =====
-- The batch that a meter sends in a round (send_overlay_message_batch in
-- core/detail/ProtocolState_impl.hpp).
use adq.Common.{ℕ, ℤ, pos, List, [], ◌∷◌, map, true, false, ◌≡◌, ◌⊎◌}
use mathlib.Core.List.{Permᴰ}
use mathlib.Core.List.Permᴰ
use adq.Messages.{OverlayMessage, null, overlay_message}
use adq.Protocol.{
  Protocol, OverlayTransportMessage, is_for, is_due, round_target, get_current_query_num,
}

module _ {R : Type 0} where
  -- Only the last message of a batch is marked as final, and there is one.
  abbrev pub HasFinal : List (OverlayTransportMessage R) → Type 0
  HasFinal [] = ⊥
  HasFinal (m ∷ []) = m.is_final_message ≡ true
  HasFinal (m ∷ (n ∷ ms)) = (m.is_final_message ≡ false) × HasFinal (n ∷ ms)

  abbrev pub bodies : List (OverlayTransportMessage R) → List (OverlayMessage R)
  bodies = map (λ m. m.body)

  -- Every message has the sender and the round, and is flooded or meant for the target.
  abbrev pub AllFrom : ℤ → ℤ → ℕ → List (OverlayTransportMessage R) → Type 0
  AllFrom sender round target [] = Unit {0}
  AllFrom sender round target (m ∷ ms) =
      (m.sender_id ≡ sender)
      × (m.sender_round ≡ round)
      × (is_due target m.body ≡ true)
      × AllFrom sender round target ms

  abbrev pub NoneFor : ℕ → List (OverlayMessage R) → Type 0
  NoneFor target [] = Unit {0}
  NoneFor target (m ∷ ms) = (is_for target m ≡ false) × NoneFor target ms

  AllDue : ℕ → List (OverlayMessage R) → Type 0
  AllDue target [] = Unit {0}
  AllDue target (m ∷ ms) = (is_due target m ≡ true) × AllDue target ms

  -- The message that is sent when there is no other.
  abbrev pub dummy : Protocol R → OverlayMessage R
  dummy s = overlay_message (get_current_query_num s) (pos (round_target s)) null

  -- What a batch is for the messages that a list holds.
  record IsBatch (s : Protocol R) (ms : List (OverlayMessage R))
      (batch : List (OverlayTransportMessage R)) : Type 0 where
    final : HasFinal batch
    from : AllFrom (pos s.meter_id) s.overlay_round (round_target s) batch
    carries : (bodies batch ≡ ms) ⊎ ((ms ≡ []) × (bodies batch ≡ dummy s ∷ []))
