-- ===== src/Agreement/Quorum.antt =====
-- A value that the agreement accepts has a quorum of signers, with evidence for each; and what a
-- phase 1 message with more than one signature does to that.
use adq.Common.{
  ℕ, ℤ, suc, ◌+◌, ◌≤◌, List, [], ◌∷◌, true, Result, ok, ◌>>=◌, >>=-eq-ok, leb, leb→le, length, Eq,
  ◌≡◌, refl, sym, ap, subst, ◌∙◌, inl, inr, arith, Bool-cases, le→leb,
}
use mathlib.Core.List.{Memᴰ}
use mathlib.Core.List.Memᴰ
use adq.Messages.{
  SignatureArray, SignatureMap, ValueContribution, SignedValue, Enclosed, enclosed, signed_body,
  null, agreement_body, overlay_body, contribution_body, aggregation_body, byte_body,
}
use adq.Crypto.{Crypto}
use adq.Agreement.{
  CrusaderState, log2n, store_phase_1, phase_1_from, handle_message, has_enough, accepted_values,
  finish_phase_2,
}
use adq.Agreement.Maps.{find_value, set_value}
use adq.Agreement.Evidence.{IsMap, AllEvidence, AllEntries}
use adq.Agreement.Soundness.{IsMessage, IsSound, handle_message-IsSound}

module _ {R : Type 0} ⦃eq : Eq R⦄ (crypto : Crypto R) where
  -- Messages handled one after another.
  unfoldable pub run : CrusaderState R → List (Enclosed R) → Result (CrusaderState R)
  run s [] = ok s
  run s (message ∷ messages) = do t ← handle_message crypto s message; run t messages

  abbrev pub AllMessages : (SignedValue R → Type 0) → List (Enclosed R) → Type 0
  AllMessages Received [] = Unit {0}
  AllMessages Received (m ∷ ms) = IsMessage Received m × AllMessages Received ms

  run-IsSound :
      (Received : SignedValue R → Type 0) (s t : CrusaderState R) (messages : List (Enclosed R))
      → AllMessages Received messages
      → IsSound crypto Received s
      → run s messages ≡ ok t
      → IsSound crypto Received t
  unfolding run
  run-IsSound Received s t [] proper sound e =
      let unchanged : s ≡ t = ground arith in subst (IsSound crypto Received) unchanged sound
  run-IsSound Received s t (message ∷ messages) proper sound e =
      let (u, e₁, e₂) = >>=-eq-ok (handle_message crypto s message) _ e in
      run-IsSound Received u t messages proper.1
        (handle_message-IsSound crypto Received s u message proper.0 sound e₁) e₂

  -- The SignedValues that are among the messages.
  abbrev pub Among : List (Enclosed R) → SignedValue R → Type 0
  Among messages signed = Memᴰ (enclosed (signed_body signed)) messages

  -- Every map of signatures in a message is a std::map.
  abbrev pub HasMaps : Enclosed R → Type 0
  HasMaps = IsMessage (λ signed. Unit {0})

  abbrev pub AllHaveMaps : List (Enclosed R) → Type 0
  AllHaveMaps [] = Unit {0}
  AllHaveMaps (m ∷ ms) = HasMaps m × AllHaveMaps ms

  IsMessage-Among :
      (all : List (Enclosed R)) (m : Enclosed R) → Memᴰ m all → HasMaps m → IsMessage (Among all) m
  IsMessage-Among all (enclosed (signed_body signed)) there maps = (there, maps.1)
  IsMessage-Among all (enclosed (agreement_body agreement)) there maps = maps
  IsMessage-Among all (enclosed (overlay_body q d c f p b)) there maps = tt
  IsMessage-Among all (enclosed (contribution_body v)) there maps = tt
  IsMessage-Among all (enclosed (aggregation_body v)) there maps = tt
  IsMessage-Among all (enclosed (byte_body v)) there maps = tt
  IsMessage-Among all null there maps = tt

  AllMessages-Among :
      (all ms : List (Enclosed R))
      → ((m : Enclosed R) → Memᴰ m ms → Memᴰ m all)
      → AllHaveMaps ms
      → AllMessages (Among all) ms
  AllMessages-Among all [] among maps = tt
  AllMessages-Among all (m ∷ ms) among maps = (
    IsMessage-Among all m (among m (Memᴰ.head refl)) maps.0,
    AllMessages-Among all ms (λ x there. among x (Memᴰ.tail there)) maps.1,
  )

  -- What stands behind an accepted value.
  pub record HasQuorum (Received : SignedValue R → Type 0) (quorum : ℕ)
      (value : ValueContribution R) : Type 0 where
    pub signatures : SignatureMap
    pub distinct : IsMap signatures
    pub enough : quorum ≤ length signatures
    pub evidence : AllEvidence crypto Received value signatures

  accepted-HasQuorum :
      (Received : SignedValue R → Type 0) (s : CrusaderState R)
      (m : List (ValueContribution R × SignedValue R)) (value : ValueContribution R)
      → AllEntries crypto Received m
      → Memᴰ value (accepted_values crypto s m)
      → HasQuorum Received (log2n s + 1) value
  unfolding accepted_values
  accepted-HasQuorum Received s [] value all mem = absurd (Memᴰ.not-nil mem)
  accepted-HasQuorum Received s ((key, signed) ∷ m) value all mem =
      elim (Bool-cases (has_enough crypto s signed)) [
        | inr few ↦ accepted-HasQuorum Received s m value all.1 (rw (few, accepted_values) at mem)
        | inl many ↦ elim (Memᴰ.cases_cons (rw (many, accepted_values) at mem)) [
          | inr later ↦ accepted-HasQuorum Received s m value all.1 later
          | inl e ↦ record {
            signatures = signed.signatures;
            distinct = all.0.map;
            enough = leb→le _ _ many;
            evidence =
                subst (λ (v : ValueContribution R). AllEvidence crypto Received v signed.signatures)
                  (sym all.0.same ∙ sym e) all.0.evidence;
          }
        ]
      ]

-- From an empty table, whatever messages arrive in whatever order, if none of them makes the handler
-- throw, every value that finish_phase_2 accepts has log2(n) + 1 distinct signers. For each of
-- them, the signer signed the value, or signed a set of signatures for it, or its signature came in
-- one of the messages, a SignedValue of the value, behind a first signature that verifies. The
-- messages' maps of signatures ascend, as a std::map does.
pub accepted_quorum :
    {R : Type 0} ⦃eq : Eq R⦄ (crypto : Crypto R) (s t : CrusaderState R)
    (messages : List (Enclosed R)) (value : ValueContribution R)
    → s.signed_proxy_values ≡ []
    → AllHaveMaps crypto messages
    → run crypto s messages ≡ ok t
    → Memᴰ value (finish_phase_2 crypto t)
    → HasQuorum crypto (Among crypto messages) (log2n t + 1) value
unfolding finish_phase_2
accepted_quorum crypto s t messages value empty maps e mem =
    let Received = Among crypto messages in
    accepted-HasQuorum crypto Received t t.signed_proxy_values value
      (run-IsSound crypto Received s t messages
        (AllMessages-Among crypto messages messages (λ m there. there) maps)
        (subst (AllEntries crypto Received) (sym empty) tt) e)
      mem

-- The code takes a SignedValue with more signatures by its first one alone: when that verifies and
-- the value is new, log2(n) further signatures make it accepted, whether or not any of them is
-- valid.
pub unchecked_signatures_accepted :
    {R : Type 0} ⦃eq : Eq R⦄ (crypto : Crypto R) (s : CrusaderState R) (value : ValueContribution R)
    (signer : ℤ) (signature : SignatureArray) (forged : SignatureMap)
    → s.signed_proxy_values ≡ []
    → Crypto.verify crypto value signature signer ≡ ok true
    → log2n s ≤ length forged
    → let message : SignedValue R = record {
      value = value;
      signatures = (signer, signature) ∷ forged;
    } in
      (t : CrusaderState R) × (handle_message crypto s (enclosed (signed_body message)) ≡ ok t)
      × (finish_phase_2 crypto t ≡ value ∷ [])
unfolding handle_message phase_1_from store_phase_1 finish_phase_2 accepted_values find_value
    set_value
unchecked_signatures_accepted {R} crypto s value signer signature forged empty valid enough =
    let message : SignedValue _ = record {
      value = value;
      signatures = (signer, signature) ∷ forged;
    } in
    let many : leb (log2n s + 1) (suc (length forged)) ≡ true = le→leb _ _ (omega arith) in
    (
      record s { signed_proxy_values = (value, message) ∷ [] },
      rw valid (
          ap
            (λ (m : List (ValueContribution R × SignedValue R)).
              ok (record s {
                signed_proxy_values = store_phase_1 crypto signer signature message m;
              }))
            empty),
      rw many,
    )
