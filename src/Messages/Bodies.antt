-- ===== src/Messages/Bodies.antt =====
-- operator== of the bodies of messages: messaging/detail. A comparison of an OverlayMessage does not
-- look at the remaining path of a PathOverlayMessage.
use adq.Common.{
  ℕ, List, [], ◌∷◌, Bool, true, false, ◌&&◌, none, ==_iff, list_eq_iff, if◌then◌else◌, ◌==◌, ◌==ℤ◌,
  ==ℤ_refl, Eq, list_eq, ◌≡◌, refl, arith,
}
use adq.Messages.{
  SignatureMap, SignedValue, AgreementValue, MessageBody, Enclosed, null, enclosed, overlay_body,
  agreement_body, signed_body, contribution_body, aggregation_body, byte_body,
}
use adq.Messages.Equality.{contribution_eq, contribution_eq_iff}

abbrev bool_eq : Bool → Bool → Bool
bool_eq true b = b
bool_eq false b = if b then false else true

-- operator== of a vector or an array of bytes.
unfoldable pub bytes_eq : List ℕ → List ℕ → Bool
unfolding list_eq
bytes_eq lhs rhs = list_eq ◌==◌ lhs rhs

-- operator== of a std::map.
unfoldable pub map_eq : SignatureMap → SignatureMap → Bool
unfolding bytes_eq
map_eq [] [] = true
map_eq ((i, signature) ∷ m) ((j, signature') ∷ n) =
    (i ==ℤ j && bytes_eq signature signature') && map_eq m n
map_eq _ _ = false

module _ {R : Type 0} ⦃eq : Eq R⦄ where
  unfoldable pub signed_eq : SignedValue R → SignedValue R → Bool
  unfolding contribution_eq map_eq
  signed_eq lhs rhs = contribution_eq lhs.value rhs.value && map_eq lhs.signatures rhs.signatures

  unfoldable pub agreement_eq : AgreementValue R → AgreementValue R → Bool
  unfolding signed_eq bytes_eq
  agreement_eq lhs rhs =
      (signed_eq lhs.signed_value rhs.signed_value && lhs.accepter_id ==ℤ rhs.accepter_id)
      && bytes_eq lhs.accepter_signature rhs.accepter_signature

  unfoldable mutual
    unfolding agreement_eq

    pub body_eq : MessageBody R → MessageBody R → Bool
    body_eq (overlay_body q d c f p b) (overlay_body q' d' c' f' p' b') =
        (q ==ℤ q' && d ==ℤ d') && (bool_eq c c' && bool_eq f f') && enclosed_eq b b'
    body_eq (agreement_body v) (agreement_body w) = agreement_eq v w
    body_eq (signed_body v) (signed_body w) = signed_eq v w
    body_eq (contribution_body v) (contribution_body w) = contribution_eq v w
    body_eq (aggregation_body v) (aggregation_body w) = eq.beq v w
    body_eq (byte_body bytes) (byte_body bytes') = bytes_eq bytes bytes'
    body_eq _ _ = false

    pub enclosed_eq : Enclosed R → Enclosed R → Bool
    enclosed_eq null null = true
    enclosed_eq (enclosed b) (enclosed b') = body_eq b b'
    enclosed_eq _ _ = false

module _ {R : Type 0} where
  mutual
    -- A body without the remaining paths of it and of what it holds.
    pub without_path : MessageBody R → MessageBody R
    without_path (overlay_body q d c f p b) = overlay_body q d c f none (without_paths b)
    without_path b = b

    pub without_paths : Enclosed R → Enclosed R
    without_paths null = null
    without_paths (enclosed b) = enclosed (without_path b)

bool_eq_refl : (b : Bool) → bool_eq b b ≡ true
bool_eq_refl true = refl
bool_eq_refl false = refl

bytes_eq_refl : (bytes : List ℕ) → bytes_eq bytes bytes ≡ true
unfolding bytes_eq
bytes_eq_refl bytes = (list_eq_iff ◌==◌ ==_iff bytes bytes).1 refl

map_eq_refl : (m : SignatureMap) → map_eq m m ≡ true
unfolding map_eq
map_eq_refl [] = refl
map_eq_refl ((i, signature) ∷ m) =
    ground (arith, ==ℤ_refl i, bytes_eq_refl signature, map_eq_refl m)

module _ {R : Type 0} ⦃eq : Eq R⦄ where
  signed_eq_refl : (v : SignedValue R) → signed_eq v v ≡ true
  unfolding signed_eq
  signed_eq_refl v =
      ground (arith, (contribution_eq_iff v.value v.value).1 refl, map_eq_refl v.signatures)

  agreement_eq_refl : (v : AgreementValue R) → agreement_eq v v ≡ true
  unfolding agreement_eq
  agreement_eq_refl v = ground (
    arith,
    signed_eq_refl v.signed_value,
    ==ℤ_refl v.accepter_id,
    bytes_eq_refl v.accepter_signature,
  )

  mutual
    unfolding body_eq without_path

    ignores_path : (b : MessageBody R) → body_eq b (without_path b) ≡ true
    ignores_path (overlay_body q d c f p b) =
        ground (arith, ==ℤ_refl q, ==ℤ_refl d, bool_eq_refl c, bool_eq_refl f, ignores_paths b)
    ignores_path (agreement_body v) = agreement_eq_refl v
    ignores_path (signed_body v) = signed_eq_refl v
    ignores_path (contribution_body v) = (contribution_eq_iff v v).1 refl
    ignores_path (aggregation_body v) = (eq.beq_iff v v).1 refl
    ignores_path (byte_body bytes) = bytes_eq_refl bytes

    ignores_paths : (b : Enclosed R) → enclosed_eq b (without_paths b) ≡ true
    ignores_paths null = refl
    ignores_paths (enclosed b) = ignores_path b

  -- operator== takes any body for equal to the same body without any remaining path: it does not
  -- tell a PathOverlayMessage from one that is at another place of its path.
  pub body_eq-without_path : (b : MessageBody R) → body_eq b (without_path b) ≡ true
  body_eq-without_path b = ignores_path b
