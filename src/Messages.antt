-- ===== src/Messages.antt =====
-- The messages and their bodies: include/adq/messaging. RecordType is the parameter `R`.
pub mod Equality
pub mod Bodies
use adq.Common.{ℕ, List, [], ◌∷◌, Bool, false, Option, none, some, ℤ}

-- std::array<uint8_t, 256>
abbrev pub SignatureArray : Type 0
SignatureArray = List ℕ

pub record ValueTuple (R : Type 0) : Type 0 where
  pub query_num : ℤ
  pub value : R
  pub proxies : List ℤ

pub record ValueContribution (R : Type 0) : Type 0 where
  pub value_tuple : ValueTuple R
  pub signature : SignatureArray

-- std::map<int, SignatureArray>: entries with distinct keys, in order of the keys.
abbrev pub SignatureMap : Type 0
SignatureMap = List (ℤ × SignatureArray)

pub record SignedValue (R : Type 0) : Type 0 where
  pub value : ValueContribution R
  pub signatures : SignatureMap

pub record AgreementValue (R : Type 0) : Type 0 where
  pub signed_value : SignedValue R
  pub accepter_id : ℤ
  pub accepter_signature : SignatureArray

-- MessageBody and its subclasses. An OverlayMessage and a PathOverlayMessage have the same fields
-- but for the remaining path, which only the latter has.
mutual
  pub data MessageBody (R : Type 0) : Type 0 where
    overlay_body : ℤ → ℤ → Bool → Bool → Option (List ℤ) → Enclosed R → MessageBody R
    agreement_body : AgreementValue R → MessageBody R
    signed_body : SignedValue R → MessageBody R
    contribution_body : ValueContribution R → MessageBody R
    aggregation_body : R → MessageBody R
    byte_body : List ℕ → MessageBody R

  pub data Enclosed (R : Type 0) : Type 0 where
    null : Enclosed R
    enclosed : MessageBody R → Enclosed R

-- OverlayMessage, and PathOverlayMessage where there is a remaining path.
pub record OverlayMessage (R : Type 0) : Type 0 where
  pub query_num : ℤ
  pub destination : ℤ
  pub is_encrypted : Bool
  pub flood : Bool
  pub remaining_path : Option (List ℤ)
  pub enclosed_body : Enclosed R

abbrev pub overlay_message : {R : Type 0} → ℤ → ℤ → Enclosed R → OverlayMessage R
overlay_message query_num dest_id b = record {
  query_num = query_num;
  destination = dest_id;
  is_encrypted = false;
  flood = false;
  remaining_path = none;
  enclosed_body = b;
}

-- QueryRequest; its sender is always the utility.
pub record QueryRequest : Type 0 where
  pub query_number : ℤ
  pub select_function_opcode : ℕ
  pub filter_function_opcode : ℕ
  pub aggregate_function_opcode : ℕ
  pub select_serialized_args : List ℕ
  pub filter_serialized_args : List ℕ
  pub aggregate_serialized_args : List ℕ
