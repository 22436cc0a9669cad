-- ===== src/Agreement/Maps.antt =====
-- The containers of the agreement: std::map of signatures, std::unordered_map of values.
use adq.Common.{ℤ, List, [], ◌∷◌, Option, none, some, if◌then◌else◌, Eq, ◌==ℤ◌, ltb_ℤ}
use adq.Messages.{SignatureArray, SignatureMap, ValueContribution, SignedValue}
use adq.Messages.Equality.{contribution_eq}

-- std::map::insert of an entry, which keeps an entry that is there.
unfoldable pub sig_insert : ℤ → SignatureArray → SignatureMap → SignatureMap
sig_insert k v [] = (k, v) ∷ []
sig_insert k v ((j, w) ∷ m) =
    if k ==ℤ j
    then (j, w) ∷ m
    else (if ltb_ℤ k j then (k, v) ∷ (j, w) ∷ m else (j, w) ∷ sig_insert k v m)

-- std::map::insert of a range.
unfoldable pub sig_insert_all : SignatureMap → SignatureMap → SignatureMap
unfolding sig_insert
sig_insert_all [] m = m
sig_insert_all ((k, v) ∷ new) m = sig_insert_all new (sig_insert k v m)

-- std::remove_copy.
unfoldable pub remove_copy : List ℤ → ℤ → List ℤ
remove_copy [] i = []
remove_copy (p ∷ ps) i = if p ==ℤ i then remove_copy ps i else p ∷ remove_copy ps i

module _ {R : Type 0} ⦃eq : Eq R⦄ where
  -- std::unordered_map::find, with the equality of contributions.
  unfoldable pub find_value :
      ValueContribution R → List (ValueContribution R × SignedValue R) → Option (SignedValue R)
  find_value k [] = none
  find_value k ((j, w) ∷ m) = if contribution_eq j k then some w else find_value k m

  -- An assignment through operator[] or an iterator.
  unfoldable pub set_value :
      ValueContribution R
      → SignedValue R
      → List (ValueContribution R × SignedValue R)
      → List (ValueContribution R × SignedValue R)
  set_value k v [] = (k, v) ∷ []
  set_value k v ((j, w) ∷ m) = if contribution_eq j k then (j, v) ∷ m else (j, w) ∷ set_value k v m
