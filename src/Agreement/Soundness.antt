-- ===== src/Agreement/Soundness.antt =====
-- Every handler of the agreement keeps evidence for the signatures that the table of values holds.
use adq.Common.{
  ℕ, ℤ, List, [], ◌∷◌, Bool, true, ok, >>=-eq-ok, leb, Eq, ◌==ℤ◌, ==ℤ_iff, ◌≡◌, refl, sym, ap,
  subst, ◌∙◌, inl, inr, arith, Bool-cases, Option-cases,
}
use mathlib.Core.List.{Memᴰ}
use adq.Messages.{
  SignatureArray, SignatureMap, ValueContribution, SignedValue, AgreementValue, Enclosed, null,
  enclosed, agreement_body, signed_body, overlay_body, contribution_body, aggregation_body,
  byte_body,
}
use adq.Crypto.{Crypto}
use adq.Agreement.{
  CrusaderState, log2n, store_phase_1, phase_1_from, check_signatures, store_phase_2,
  handle_phase_2_message, handle_message,
}
use adq.Agreement.Maps.{find_value}
use adq.Agreement.Evidence.{
  AllAbove, IsMap, sig_insert-IsMap, sig_insert_all-IsMap, Evidence, signed_it, accepted_it,
  came_along, AllEvidence, sig_insert-AllEvidence, sig_insert_all-AllEvidence, IsEntry, AllEntries,
  set_value-AllEntries, find_value-IsEntry,
}

-- A message that has come, as its types make it: signatures stand in a std::map.
abbrev pub IsMessage : {R : Type 0} → (SignedValue R → Type 0) → Enclosed R → Type 0
IsMessage Received (enclosed (signed_body signed)) = Received signed × IsMap signed.signatures
IsMessage Received (enclosed (agreement_body agreement)) = IsMap agreement.signed_value.signatures
IsMessage Received _ = Unit {0}

module _ {R : Type 0} ⦃eq : Eq R⦄ (crypto : Crypto R) (Received : SignedValue R → Type 0) where
  abbrev pub IsSound : CrusaderState R → Type 0
  IsSound s = AllEntries crypto Received s.signed_proxy_values

  store_phase_1-AllEntries :
      (signer : ℤ) (signature : SignatureArray) (signed : SignedValue R)
      (m : List (ValueContribution R × SignedValue R))
      → IsEntry crypto Received signed.value signed
      → Evidence crypto Received signed.value signer signature
      → AllEntries crypto Received m
      → AllEntries crypto Received (store_phase_1 crypto signer signature signed m)
  unfolding store_phase_1
  store_phase_1-AllEntries signer signature signed m entry e all =
      elim (Option-cases (find_value signed.value m)) [
        | inl new ↦
            rw (new, store_phase_1)
              (set_value-AllEntries crypto Received signed.value signed m entry all)
        | inr (w, old) ↦
            let known = find_value-IsEntry crypto Received signed.value m w all old in
            rw (old, store_phase_1)
              (set_value-AllEntries crypto Received signed.value _ m
                (record {
                  same = known.same;
                  map = sig_insert-IsMap signer signature w.signatures known.map;
                  evidence =
                      sig_insert-AllEvidence crypto Received signed.value signer signature
                        w.signatures e known.evidence;
                })
                all)
      ]

  -- What comes after a signature that verifies has only come along.
  all_came :
      (signed : SignedValue R) (first_signer : ℤ) (first : SignatureArray) (others m : SignatureMap)
      → Received signed
      → signed.signatures ≡ (first_signer, first) ∷ others
      → Crypto.verify crypto signed.value first first_signer ≡ ok true
      → ((entry : ℤ × SignatureArray) → Memᴰ entry m → Memᴰ entry others)
      → AllEvidence crypto Received signed.value m
  all_came signed first_signer first others [] received same valid among = tt
  all_came signed first_signer first others ((signer, signature) ∷ m) received same valid among = (
    came_along signed first_signer first others received refl same valid
        (among (signer, signature) (Memᴰ.head refl)),
    all_came signed first_signer first others m received same valid
        (λ entry there. among entry (Memᴰ.tail there)),
  )

  phase_1-IsSound :
      (s t : CrusaderState R) (signed : SignedValue R) (m : SignatureMap)
      → signed.signatures ≡ m
      → Received signed
      → IsMap signed.signatures
      → IsSound s
      → phase_1_from crypto s signed m ≡ ok t
      → IsSound t
  unfolding phase_1_from
  phase_1-IsSound s t signed [] same received map sound e =
      let unchanged : s ≡ t = ground arith in subst IsSound unchanged sound
  phase_1-IsSound s t signed ((signer, signature) ∷ others) same received map sound e =
      let (valid, checked, after) =
        >>=-eq-ok (Crypto.verify crypto signed.value signature signer) _ e in
      elim (Bool-cases valid) [
        | inr bad ↦ let unchanged : s ≡ t = ground arith in subst IsSound unchanged sound
        | inl good ↦
            let verified = checked ∙ ap (λ (b : Bool). ok b) good in
            let proof : Evidence crypto Received signed.value signer signature =
              signed_it verified in
            let rest =
              all_came signed signer signature others others received same verified
                (λ entry there. there) in
            let stored : record s {
              signed_proxy_values =
                  store_phase_1 crypto signer signature signed s.signed_proxy_values;
            }
                ≡ t =
              ground arith in
            subst IsSound stored (
              store_phase_1-AllEntries signer signature signed s.signed_proxy_values
                (record {
                  same = refl;
                  map = map;
                  evidence =
                      subst (AllEvidence crypto Received signed.value) (sym same) (proof, rest);
                })
                proof sound)
      ]

  -- What check_signatures keeps: valid signatures, and those of the sender.
  record IsChecked (value : ValueContribution R) (m kept : SignatureMap) : Type 0 where
    evidence : AllEvidence crypto Received value kept
    map : IsMap m → IsMap kept
    above : (k : ℤ) → AllAbove k m → AllAbove k kept

  check_signatures-IsChecked :
      (value : ValueContribution R) (accepter_id : ℤ) (m : SignatureMap) (n : ℕ)
      (kept : SignatureMap)
      → ((signature : SignatureArray) → Evidence crypto Received value accepter_id signature)
      → check_signatures crypto value accepter_id m ≡ ok (n, kept)
      → IsChecked value m kept
  unfolding check_signatures
  check_signatures-IsChecked value accepter_id [] n kept sender e =
      let none_kept : [] ≡ kept = ground arith in
      subst (IsChecked value []) none_kept
        (record { evidence = tt; map = λ _. tt; above = λ k _. tt })
  check_signatures-IsChecked value accepter_id ((signer, signature) ∷ m) n kept sender e =
      let keep =
        λ (rest : SignatureMap) (c : IsChecked value m rest)
            (p : Evidence crypto Received value signer signature).
          let whole : IsChecked value ((signer, signature) ∷ m) ((signer, signature) ∷ rest) =
            record {
              evidence = (p, c.evidence);
              map = λ h. (c.above signer h.0, c.map h.1);
              above = λ k h. (h.0, c.above k h.1);
            } in
          whole in
      elim (Bool-cases (signer ==ℤ accepter_id)) [
        | inl own ↦
            let (rest, e₁, e₂) =
              >>=-eq-ok (check_signatures crypto value accepter_id m) _
                (rw (own, check_signatures) at e) in
            let c = check_signatures-IsChecked value accepter_id m rest.0 rest.1 sender e₁ in
            let result : (signer, signature) ∷ rest.1 ≡ kept = ground arith in
            subst (IsChecked value ((signer, signature) ∷ m)) result (
              keep rest.1 c (
                subst (λ (i : ℤ). Evidence crypto Received value i signature)
                  (sym ((==ℤ_iff signer accepter_id).0 own)) (sender signature)))
        | inr other ↦
            let (valid, e₁, e₂) =
              >>=-eq-ok (Crypto.verify crypto value signature signer) _
                (rw (other, check_signatures) at e) in
            let (rest, e₃, e₄) = >>=-eq-ok (check_signatures crypto value accepter_id m) _ e₂ in
            let c = check_signatures-IsChecked value accepter_id m rest.0 rest.1 sender e₃ in
            elim (Bool-cases valid) [
              | inl good ↦
                  let result : (signer, signature) ∷ rest.1 ≡ kept = ground arith in
                  subst (IsChecked value ((signer, signature) ∷ m)) result
                    (keep rest.1 c (signed_it (e₁ ∙ ap (λ (b : Bool). ok b) good)))
              | inr bad ↦
                  let result : rest.1 ≡ kept = ground arith in
                  subst (IsChecked value ((signer, signature) ∷ m)) result (record {
                    evidence = c.evidence;
                    map = λ h. c.map h.1;
                    above = λ k h. c.above k h.1;
                  })
            ]
      ]

  store_phase_2-AllEntries :
      (signed : SignedValue R) (m : List (ValueContribution R × SignedValue R))
      → IsEntry crypto Received signed.value signed
      → AllEntries crypto Received m
      → AllEntries crypto Received (store_phase_2 crypto signed m)
  unfolding store_phase_2
  store_phase_2-AllEntries signed m entry all = elim (Option-cases (find_value signed.value m)) [
    | inl new ↦
        rw (new, store_phase_2)
          (set_value-AllEntries crypto Received signed.value signed m entry all)
    | inr (w, old) ↦
        let known = find_value-IsEntry crypto Received signed.value m w all old in
        rw (old, store_phase_2)
          (set_value-AllEntries crypto Received signed.value _ m
            (record {
              same = known.same;
              map = sig_insert_all-IsMap signed.signatures w.signatures known.map;
              evidence =
                  sig_insert_all-AllEvidence crypto Received signed.value signed.signatures
                    w.signatures entry.evidence known.evidence;
            })
            all)
  ]

  phase_2-IsSound :
      (s t : CrusaderState R) (agreement : AgreementValue R)
      → IsMap agreement.signed_value.signatures
      → IsSound s
      → handle_phase_2_message crypto s agreement ≡ ok t
      → IsSound t
  unfolding handle_phase_2_message
  phase_2-IsSound s t agreement proper sound e =
      let signed = agreement.signed_value in
      let (sender, e₁, e₂) =
        >>=-eq-ok
          (Crypto.verify_signed crypto signed agreement.accepter_signature agreement.accepter_id) _
          e in
      elim (Bool-cases sender) [
        | inr bad ↦ let unchanged : s ≡ t = ground arith in subst IsSound unchanged sound
        | inl good ↦
            let vouched = λ (signature : SignatureArray).
              let p : Evidence crypto Received signed.value agreement.accepter_id signature =
                accepted_it signed agreement.accepter_signature refl
                  (e₁ ∙ ap (λ (b : Bool). ok b) good) in
              p in
            let (rest, e₃, e₄) =
              >>=-eq-ok
                (check_signatures crypto signed.value agreement.accepter_id signed.signatures) _
                (rw good at e₂) in
            let c =
              check_signatures-IsChecked signed.value agreement.accepter_id signed.signatures rest.0
                rest.1 vouched e₃ in
            elim (Bool-cases (leb (log2n s) rest.0)) [
              | inr few ↦ let unchanged : s ≡ t = ground arith in subst IsSound unchanged sound
              | inl many ↦
                  let stored : record s {
                    signed_proxy_values =
                        store_phase_2 crypto (record signed { signatures = rest.1 })
                          s.signed_proxy_values;
                  }
                      ≡ t =
                    ground arith in
                  subst IsSound stored (
                    store_phase_2-AllEntries (record signed { signatures = rest.1 })
                      s.signed_proxy_values
                      (record { same = refl; map = c.map proper; evidence = c.evidence }) sound)
            ]
      ]

  pub handle_message-IsSound :
      (s t : CrusaderState R) (message : Enclosed R)
      → IsMessage Received message
      → IsSound s
      → handle_message crypto s message ≡ ok t
      → IsSound t
  unfolding handle_message
  handle_message-IsSound s t (enclosed (signed_body signed)) proper sound e =
      phase_1-IsSound s t signed signed.signatures refl proper.0 proper.1 sound e
  handle_message-IsSound s t (enclosed (agreement_body agreement)) proper sound e =
      phase_2-IsSound s t agreement proper sound e
  handle_message-IsSound s t null proper sound e =
      let unchanged : s ≡ t = ground arith in subst IsSound unchanged sound
  handle_message-IsSound s t (enclosed (overlay_body q d c f p b)) proper sound e =
      let unchanged : s ≡ t = ground arith in subst IsSound unchanged sound
  handle_message-IsSound s t (enclosed (contribution_body v)) proper sound e =
      let unchanged : s ≡ t = ground arith in subst IsSound unchanged sound
  handle_message-IsSound s t (enclosed (aggregation_body v)) proper sound e =
      let unchanged : s ≡ t = ground arith in subst IsSound unchanged sound
  handle_message-IsSound s t (enclosed (byte_body v)) proper sound e =
      let unchanged : s ≡ t = ground arith in subst IsSound unchanged sound
