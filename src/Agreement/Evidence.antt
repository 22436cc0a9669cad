-- ===== src/Agreement/Evidence.antt =====
-- The signatures that the agreement keeps, and what stands behind each.
use adq.Common.{
  ℤ, pos, negsuc, List, [], ◌∷◌, true, false, some, ok, Eq, ◌==ℤ◌, ltb_ℤ, ◌≡◌, refl, sym, subst,
  inl, inr, arith, Bool-cases,
}
use mathlib.Core.List.{Memᴰ}
use adq.Messages.{SignatureArray, SignatureMap, ValueContribution, SignedValue}
use adq.Messages.Equality.{contribution_eq, contribution_eq_iff}
use adq.Crypto.{Crypto}
use adq.Agreement.Maps.{sig_insert, sig_insert_all, find_value, set_value}

-- Every key of a map is above k.
abbrev pub AllAbove : ℤ → SignatureMap → Type 0
AllAbove k [] = Unit {0}
AllAbove k ((j, w) ∷ m) = (ltb_ℤ k j ≡ true) × AllAbove k m

-- A std::map: the keys ascend, so they are distinct.
abbrev pub IsMap : SignatureMap → Type 0
IsMap [] = Unit {0}
IsMap ((k, v) ∷ m) = AllAbove k m × IsMap m

ltb_ℤ-trans : (a b c : ℤ) → ltb_ℤ a b ≡ true → ltb_ℤ b c ≡ true → ltb_ℤ a c ≡ true
ltb_ℤ-trans (pos a) (pos b) (pos c) h k = ground arith
ltb_ℤ-trans (pos a) (pos b) (negsuc c) h k = cc
ltb_ℤ-trans (pos a) (negsuc b) c h k = cc
ltb_ℤ-trans (negsuc a) (pos b) (pos c) h k = refl
ltb_ℤ-trans (negsuc a) (pos b) (negsuc c) h k = cc
ltb_ℤ-trans (negsuc a) (negsuc b) (pos c) h k = refl
ltb_ℤ-trans (negsuc a) (negsuc b) (negsuc c) h k = ground arith

ltb_ℤ-total : (a b : ℤ) → (a ==ℤ b) ≡ false → ltb_ℤ a b ≡ false → ltb_ℤ b a ≡ true
ltb_ℤ-total (pos a) (pos b) h k = ground arith
ltb_ℤ-total (pos a) (negsuc b) h k = refl
ltb_ℤ-total (negsuc a) (pos b) h k = cc
ltb_ℤ-total (negsuc a) (negsuc b) h k = ground arith

AllAbove-lower : (a b : ℤ) (m : SignatureMap) → ltb_ℤ a b ≡ true → AllAbove b m → AllAbove a m
AllAbove-lower a b [] h all = tt
AllAbove-lower a b ((j, w) ∷ m) h all = (ltb_ℤ-trans a b j h all.0, AllAbove-lower a b m h all.1)

AllAbove-insert :
    (a k : ℤ) (v : SignatureArray) (m : SignatureMap)
    → ltb_ℤ a k ≡ true
    → AllAbove a m
    → AllAbove a (sig_insert k v m)
unfolding sig_insert
AllAbove-insert a k v [] h all = (h, tt)
AllAbove-insert a k v ((j, w) ∷ m) h all = elim (Bool-cases (k ==ℤ j)) [
  | inl e ↦ rw e all
  | inr n ↦ elim (Bool-cases (ltb_ℤ k j)) [
    | inl l ↦ rw (n, l) (h, all)
    | inr g ↦ rw (n, g) (all.0, AllAbove-insert a k v m h all.1)
  ]
]

pub sig_insert-IsMap :
    (k : ℤ) (v : SignatureArray) (m : SignatureMap) → IsMap m → IsMap (sig_insert k v m)
unfolding sig_insert
sig_insert-IsMap k v [] h = (tt, tt)
sig_insert-IsMap k v ((j, w) ∷ m) h = elim (Bool-cases (k ==ℤ j)) [
  | inl e ↦ rw e h
  | inr n ↦ elim (Bool-cases (ltb_ℤ k j)) [
    | inl l ↦ rw (n, l) ((l, AllAbove-lower k j m l h.0), h)
    | inr g ↦
        rw (n, g) (AllAbove-insert j k v m (ltb_ℤ-total k j n g) h.0, sig_insert-IsMap k v m h.1)
  ]
]

pub sig_insert_all-IsMap : (new m : SignatureMap) → IsMap m → IsMap (sig_insert_all new m)
unfolding sig_insert_all
sig_insert_all-IsMap [] m h = h
sig_insert_all-IsMap ((k, v) ∷ new) m h =
    sig_insert_all-IsMap new (sig_insert k v m) (sig_insert-IsMap k v m h)

-- `Received` tells which SignedValues have come in phase 1.
module _ {R : Type 0} (crypto : Crypto R) (Received : SignedValue R → Type 0) where
  -- What stands behind a signer of a value: the signer's signature on the value, or on a set of
  -- signatures for it that the signer accepted; or no more than that the entry came in phase 1, with
  -- a signature before it that verifies.
  pub data Evidence (value : ValueContribution R) (signer : ℤ) (signature : SignatureArray)
      : Type 0 where
    signed_it :
        Crypto.verify crypto value signature signer ≡ ok true → Evidence value signer signature
    accepted_it :
        (signed : SignedValue R) (accepter_signature : SignatureArray)
        → signed.value ≡ value
        → Crypto.verify_signed crypto signed accepter_signature signer ≡ ok true
        → Evidence value signer signature
    came_along :
        (signed : SignedValue R) (first_signer : ℤ) (first : SignatureArray) (others : SignatureMap)
        → Received signed
        → signed.value ≡ value
        → signed.signatures ≡ (first_signer, first) ∷ others
        → Crypto.verify crypto value first first_signer ≡ ok true
        → Memᴰ (signer, signature) others
        → Evidence value signer signature

  abbrev pub AllEvidence : ValueContribution R → SignatureMap → Type 0
  AllEvidence value [] = Unit {0}
  AllEvidence value ((signer, signature) ∷ m) =
      Evidence value signer signature × AllEvidence value m

  pub sig_insert-AllEvidence :
      (value : ValueContribution R) (k : ℤ) (v : SignatureArray) (m : SignatureMap)
      → Evidence value k v
      → AllEvidence value m
      → AllEvidence value (sig_insert k v m)
  unfolding sig_insert
  sig_insert-AllEvidence value k v [] e all = (e, tt)
  sig_insert-AllEvidence value k v ((j, w) ∷ m) e all = elim (Bool-cases (k ==ℤ j)) [
    | inl same ↦ rw same all
    | inr n ↦ elim (Bool-cases (ltb_ℤ k j)) [
      | inl l ↦ rw (n, l) (e, all)
      | inr g ↦ rw (n, g) (all.0, sig_insert-AllEvidence value k v m e all.1)
    ]
  ]

  pub sig_insert_all-AllEvidence :
      (value : ValueContribution R) (new m : SignatureMap)
      → AllEvidence value new
      → AllEvidence value m
      → AllEvidence value (sig_insert_all new m)
  unfolding sig_insert_all
  sig_insert_all-AllEvidence value [] m n all = all
  sig_insert_all-AllEvidence value ((k, v) ∷ new) m n all =
      sig_insert_all-AllEvidence value new (sig_insert k v m) n.1
        (sig_insert-AllEvidence value k v m n.0 all)

  -- An entry of the table of signed values.
  pub record IsEntry (key : ValueContribution R) (signed : SignedValue R) : Type 0 where
    pub same : signed.value ≡ key
    pub map : IsMap signed.signatures
    pub evidence : AllEvidence key signed.signatures

  abbrev pub AllEntries : List (ValueContribution R × SignedValue R) → Type 0
  AllEntries [] = Unit {0}
  AllEntries ((key, signed) ∷ m) = IsEntry key signed × AllEntries m

module _ {R : Type 0} ⦃eq : Eq R⦄ (crypto : Crypto R) (Received : SignedValue R → Type 0) where
  pub set_value-AllEntries :
      (k : ValueContribution R) (v : SignedValue R) (m : List (ValueContribution R × SignedValue R))
      → IsEntry crypto Received k v
      → AllEntries crypto Received m
      → AllEntries crypto Received (set_value k v m)
  unfolding set_value
  set_value-AllEntries k v [] e all = (e, tt)
  set_value-AllEntries k v ((j, w) ∷ m) e all = elim (Bool-cases (contribution_eq j k)) [
    | inl same ↦ rw same (
      subst (λ (x : ValueContribution R). IsEntry crypto Received x v)
          (sym ((contribution_eq_iff j k).0 same)) e,
      all.1,
    )
    | inr other ↦ rw other (all.0, set_value-AllEntries k v m e all.1)
  ]

  pub find_value-IsEntry :
      (k : ValueContribution R) (m : List (ValueContribution R × SignedValue R)) (w : SignedValue R)
      → AllEntries crypto Received m
      → find_value k m ≡ some w
      → IsEntry crypto Received k w
  unfolding find_value
  find_value-IsEntry k [] w all e = cc
  find_value-IsEntry k ((j, v) ∷ m) w all e = elim (Bool-cases (contribution_eq j k)) [
    | inl same ↦
        let found : v ≡ w = ground arith in
        subst (λ (x : ValueContribution R). IsEntry crypto Received x w)
          ((contribution_eq_iff j k).0 same) (subst (IsEntry crypto Received j) found all.0)
    | inr other ↦ find_value-IsEntry k m w all.1 (rw other at e)
  ]
