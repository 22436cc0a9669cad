-- ===== src/Agreement.antt =====
-- Crusader agreement: include/adq/core/CrusaderAgreementState.hpp and its _impl.hpp.
pub mod Maps
pub mod Evidence
pub mod Soundness
pub mod Quorum
use Maps.{sig_insert, sig_insert_all, find_value, set_value, remove_copy}
use adq.Common.{
  ℕ, ℤ, pos, suc, ◌+◌, ◌≤◌, List, [], ◌∷◌, ◌++◌, Bool, true, false, Option, none, some, Result, ok,
  err, undefined, ◌>>=◌, if◌then◌else◌, not, ltb, leb, length, Eq, replicate, negsuc, no_path, ◌-◌,
  ◌==ℤ◌, map,
}
use adq.Common.Log.{ceil_log2}
use adq.PathFinder.{IterationOrder, find_paths}
use adq.Messages.{
  SignatureArray, SignatureMap, ValueContribution, SignedValue, AgreementValue, MessageBody,
  Enclosed, null, enclosed, agreement_body, signed_body, OverlayMessage,
}
use adq.Crypto.{Crypto, rsa_encrypt}

pub record CrusaderState (R : Type 0) : Type 0 where
  pub node_id : ℕ
  pub num_nodes : ℕ
  pub query_num : ℤ
  pub phase_1_finished : Bool
  pub signed_proxy_values : List (ValueContribution R × SignedValue R)

abbrev pub log2n : {R : Type 0} → CrusaderState R → ℕ
log2n s = ceil_log2 s.num_nodes

-- The proxies of a value besides this node: std::remove_copy into a vector with one element less.
unfoldable pub other_proxies : ℕ → List ℤ → Result (List ℤ)
other_proxies node_id proxies =
    let others = remove_copy proxies (pos node_id) in
    if ltb (length others) (length proxies)
    then ok (others ++ replicate (length proxies - 1 - length others) (pos 0))
    else err undefined

-- Proxy IDs as targets of find_paths, which finds no path to a negative ID.
unfoldable pub target_ids : List ℤ → Result (List ℕ)
target_ids [] = ok []
target_ids (pos i ∷ is) = do rest ← target_ids is; ok (i ∷ rest)
target_ids (negsuc i ∷ is) = err no_path

-- The last node of a path.
abbrev pub back : ℕ → List ℕ → ℕ
back first [] = first
back first (x ∷ xs) = back x xs

-- A PathOverlayMessage, encrypted for the last node of its path.
unfoldable pub path_message :
    {R : Type 0} → Crypto R → ℤ → List ℕ → MessageBody R → Result (OverlayMessage R)
path_message crypto query_num [] b = err undefined
path_message crypto query_num (first ∷ rest) b =
    rsa_encrypt crypto
      (record {
        query_num = query_num;
        destination = pos first;
        is_encrypted = false;
        flood = false;
        remaining_path = some (map pos rest);
        enclosed_body = enclosed b;
      })
      (pos (back first rest))

unfoldable pub path_messages :
    {R : Type 0} → Crypto R → ℤ → List (List ℕ) → MessageBody R → Result (List (OverlayMessage R))
unfolding path_message
path_messages crypto query_num [] b = ok []
path_messages crypto query_num (path ∷ paths) b = do
  first ← path_message crypto query_num path b
  rest ← path_messages crypto query_num paths b
  ok (first ∷ rest)

module _ {R : Type 0} ⦃eq : Eq R⦄ (crypto : Crypto R) where
  -- The entry of a value after a signature for it was accepted in phase 1.
  store_phase_1 :
      ℤ
      → SignatureArray
      → SignedValue R
      → List (ValueContribution R × SignedValue R)
      → List (ValueContribution R × SignedValue R)
  store_phase_1 signer signature signed m = elim (find_value signed.value m) [
    | none ↦ set_value signed.value signed m
    | some w ↦
        set_value signed.value (record w { signatures = sig_insert signer signature w.signatures })
          m
  ]

  -- A message is checked by its first signature alone.
  phase_1_from : CrusaderState R → SignedValue R → SignatureMap → Result (CrusaderState R)
  unfolding store_phase_1
  phase_1_from s signed [] = ok s
  phase_1_from s signed ((signer, signature) ∷ _) = do
    valid ← Crypto.verify crypto signed.value signature signer
    if valid
        then ok (record s {
          signed_proxy_values = store_phase_1 signer signature signed s.signed_proxy_values;
        })
        else ok s

  unfoldable pub handle_phase_1_message : CrusaderState R → SignedValue R → Result (CrusaderState R)
  unfolding phase_1_from
  handle_phase_1_message s signed = phase_1_from s signed signed.signatures

  -- The loop over the signatures of an AgreementValue: the number of valid ones besides the
  -- sender's, and the map without the invalid ones.
  unfoldable pub check_signatures :
      ValueContribution R → ℤ → SignatureMap → Result (ℕ × SignatureMap)
  check_signatures value accepter_id [] = ok (0, [])
  check_signatures value accepter_id ((signer, signature) ∷ m) =
      let rest = check_signatures value accepter_id m in
      if signer ==ℤ accepter_id
      then (do (valid_signatures, kept) ← rest; ok (valid_signatures, (signer, signature) ∷ kept))
      else (do
        valid ← Crypto.verify crypto value signature signer
        (valid_signatures, kept) ← rest
        ok (
            if valid
            then (suc valid_signatures, (signer, signature) ∷ kept)
            else (valid_signatures, kept)))

  store_phase_2 :
      SignedValue R
      → List (ValueContribution R × SignedValue R)
      → List (ValueContribution R × SignedValue R)
  store_phase_2 signed m = elim (find_value signed.value m) [
    | none ↦ set_value signed.value signed m
    | some w ↦
        set_value signed.value
          (record w { signatures = sig_insert_all signed.signatures w.signatures }) m
  ]

  unfoldable pub handle_phase_2_message :
      CrusaderState R → AgreementValue R → Result (CrusaderState R)
  unfolding check_signatures store_phase_2
  handle_phase_2_message s agreement = do
    let signed = agreement.signed_value
    sender ← Crypto.verify_signed crypto signed agreement.accepter_signature agreement.accepter_id
    if sender
        then (do
          (valid_signatures, kept) ←
              check_signatures signed.value agreement.accepter_id signed.signatures
          ok (
              if leb (log2n s) valid_signatures
              then record s {
                signed_proxy_values =
                    store_phase_2 (record signed { signatures = kept }) s.signed_proxy_values;
              }
              else s))
        else ok s

  -- handle_message: by the type of the enclosed body.
  unfoldable pub handle_message : CrusaderState R → Enclosed R → Result (CrusaderState R)
  unfolding handle_phase_1_message handle_phase_2_message
  handle_message s (enclosed (signed_body signed)) = handle_phase_1_message s signed
  handle_message s (enclosed (agreement_body agreement)) = handle_phase_2_message s agreement
  handle_message s _ = ok s

  -- The accept messages for one value.
  accept_messages_for :
      IterationOrder
      → CrusaderState R
      → ℕ
      → ValueContribution R
      → SignedValue R
      → Result (List (OverlayMessage R))
  unfolding other_proxies target_ids path_messages
  accept_messages_for order s current_round key signed = do
    accepter_signature ← Crypto.sign_signed crypto signed
    let accepted : AgreementValue R = record {
      signed_value = signed;
      accepter_id = pos s.node_id;
      accepter_signature = accepter_signature;
    }
    others ← other_proxies s.node_id key.value_tuple.proxies
    targets ← target_ids others
    paths ← find_paths order s.node_id targets s.num_nodes (current_round + 1)
    path_messages crypto s.query_num paths (agreement_body accepted)

  -- Whether a value has enough signatures.
  abbrev pub has_enough : CrusaderState R → SignedValue R → Bool
  has_enough s signed = leb (log2n s + 1) (length signed.signatures)

  accept_messages :
      IterationOrder
      → CrusaderState R
      → ℕ
      → List (ValueContribution R × SignedValue R)
      → Result (List (OverlayMessage R))
  unfolding accept_messages_for
  accept_messages order s current_round [] = ok []
  accept_messages order s current_round ((key, signed) ∷ m) =
      let rest = accept_messages order s current_round m in
      if has_enough s signed
      then (do
        first ← accept_messages_for order s current_round key signed
        later ← rest
        ok (first ++ later))
      else rest

  unfoldable pub finish_phase_1 :
      IterationOrder → CrusaderState R → ℕ → Result (List (OverlayMessage R) × CrusaderState R)
  unfolding accept_messages
  finish_phase_1 order s current_round = do
    messages ← accept_messages order s current_round s.signed_proxy_values
    ok (messages, record s { phase_1_finished = true })

  accepted_values :
      CrusaderState R → List (ValueContribution R × SignedValue R) → List (ValueContribution R)
  accepted_values s [] = []
  accepted_values s ((key, signed) ∷ m) =
      let rest = accepted_values s m in if has_enough s signed then signed.value ∷ rest else rest

  unfoldable pub finish_phase_2 : CrusaderState R → List (ValueContribution R)
  unfolding accepted_values
  finish_phase_2 s = accepted_values s s.signed_proxy_values
