-- ===== src/Tests/Agreements.antt =====
-- The theorems on core/detail/CrusaderAgreementState_impl.hpp at concrete inputs.
use adq.Common.{
  ℕ, ℤ, pos, ◌+◌, ◌≤◌, ◌≡◌, refl, arith, List, [], ◌∷◌, Bool, true, false, ok, Eq, ◌==◌, ==_iff,
  list_eq,
}
use adq.Common.Log.{ceil_log2}
use adq.Messages.{
  ValueContribution, SignedValue, Enclosed, enclosed, signed_body, agreement_body, byte_body,
}
use adq.Messages.Equality.{contribution_eq}
use adq.Crypto.{Crypto}
use adq.Agreement.{CrusaderState, log2n, handle_message, finish_phase_2}
use adq.Agreement.Maps.{find_value, set_value, sig_insert_all}
use adq.Agreement.Quorum.{run, Among, HasQuorum, accepted_quorum, unchecked_signatures_accepted}
use mathlib.Core.List.{Memᴰ}

instance unfoldable pub number_eq : Eq ℕ
number_eq = record { beq = ◌==◌; beq_iff = ==_iff }

-- Signatures by number: node i signs with the byte i.
abbrev is_signature : List ℕ → ℤ → Bool
is_signature (b ∷ []) (pos i) = b == i
is_signature signature signer = false

abbrev pub byte_crypto : Crypto ℕ
byte_crypto = record {
  sign = λ v. 0 ∷ [];
  sign_signed = λ v. ok (0 ∷ []);
  verify = λ v signature signer. ok (is_signature signature signer);
  verify_signed = λ v signature signer. ok (is_signature signature signer);
  verify_tuple = λ v signature. true;
  seal = λ target b. ok [];
  unseal = λ sealed. ok (byte_body sealed);
  blind = λ v. [];
  unblind = λ v signature. signature;
  sign_blinded = λ v. v;
}

abbrev pub reading : ValueContribution ℕ
reading = record {
  value_tuple = record { query_num = pos 0; value = 4; proxies = pos 1 ∷ pos 2 ∷ [] };
  signature = [];
}

abbrev start : CrusaderState ℕ
start = record {
  node_id = 0;
  num_nodes = 2;
  query_num = pos 0;
  phase_1_finished = false;
  signed_proxy_values = [];
}

-- A value signed by node 1, and by node 2 as well in a message that node 3 accepted it with.
abbrev from_one : Enclosed ℕ
from_one = enclosed (signed_body (record { value = reading; signatures = (pos 1, 1 ∷ []) ∷ [] }))

abbrev from_three : Enclosed ℕ
from_three = enclosed (
    agreement_body (record {
      signed_value = record {
        value = reading;
        signatures = (pos 1, 1 ∷ []) ∷ (pos 2, 2 ∷ []) ∷ [];
      };
      accepter_id = pos 3;
      accepter_signature = 3 ∷ [];
    }))

abbrev ended : CrusaderState ℕ
ended = record start {
  signed_proxy_values =
      (reading, record { value = reading; signatures = (pos 1, 1 ∷ []) ∷ (pos 2, 2 ∷ []) ∷ [] })
      ∷ [];
}

two_messages : run byte_crypto start (from_one ∷ from_three ∷ []) ≡ ok ended
unfolding run handle_message ceil_log2 number_eq list_eq contribution_eq find_value set_value
    sig_insert_all
two_messages = refl

accepted : finish_phase_2 byte_crypto ended ≡ reading ∷ []
unfolding finish_phase_2 ceil_log2
accepted = refl

reading_accepted : Memᴰ reading (finish_phase_2 byte_crypto ended)
reading_accepted = rw accepted (Memᴰ.head refl)

accepted_quorum_example :
    HasQuorum byte_crypto (Among byte_crypto (from_one ∷ from_three ∷ [])) (log2n ended + 1) reading
accepted_quorum_example =
    accepted_quorum byte_crypto start ended (from_one ∷ from_three ∷ []) reading refl
      ((tt, (tt, tt)), (((refl, tt), (tt, tt)), tt)) two_messages reading_accepted

one_enough : log2n start ≤ 1
unfolding ceil_log2
one_enough = omega arith

-- The second signature is none of node 2's.
unchecked_signatures_accepted_example :
    let message : SignedValue ℕ = record {
      value = reading;
      signatures = (pos 1, 1 ∷ []) ∷ (pos 2, 9 ∷ []) ∷ [];
    } in
    (t : CrusaderState ℕ) × (handle_message byte_crypto start (enclosed (signed_body message))
      ≡ ok t)
    × (finish_phase_2 byte_crypto t ≡ reading ∷ [])
unchecked_signatures_accepted_example =
    unchecked_signatures_accepted byte_crypto start reading (pos 1) (1 ∷ []) ((pos 2, 9 ∷ []) ∷ [])
      refl refl one_enough
