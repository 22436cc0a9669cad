-- ===== src/Protocol/Shuffle.antt =====
-- What the shuffle phase collects (handle_shuffle_phase_message in
-- core/detail/ProtocolState_impl.hpp).
use adq.Common.{
  ℤ, List, [], ◌∷◌, true, false, ◌&&◌, some, Result, ok, ◌>>=◌, >>=-eq-ok, ◌==ℤ◌, ==ℤ_iff, Eq, ◌≡◌,
  sym, subst, inl, inr, arith, Bool-cases,
}
use adq.Messages.{
  ValueTuple, ValueContribution, Enclosed, null, enclosed, overlay_body, contribution_body,
  agreement_body, signed_body, aggregation_body, byte_body,
}
use adq.Crypto.{Crypto}
use adq.Protocol.{
  Protocol, has_value, shuffle_value, shuffle_contribution, handle_shuffle_phase_message,
}

module _ {R : Type 0} ⦃eq : Eq R⦄ (crypto : Crypto R) where
  -- Each value bears the utility's signature and the number of the query, and occurs once.
  abbrev pub AllVerified : ℤ → List (ValueContribution R) → Type 0
  AllVerified query_num [] = Unit {0}
  AllVerified query_num (v ∷ vs) =
      (v.value_tuple.query_num ≡ query_num)
      × (Crypto.verify_tuple crypto v.value_tuple v.signature ≡ true)
      × (has_value vs v ≡ false)
      × AllVerified query_num vs

  -- The messages of a shuffle phase, one after another.
  unfoldable pub shuffle_all : List (Enclosed R) → Protocol R → Result (Protocol R)
  shuffle_all [] s = ok s
  shuffle_all (message ∷ messages) s = do
    t ← handle_shuffle_phase_message crypto message s
    shuffle_all messages t

  record Keeps (mine : ValueTuple R) (s : Protocol R) : Type 0 where
    own : s.my_contribution ≡ some mine
    verified : AllVerified mine.query_num s.proxy_values

  shuffle_value-Keeps :
      (v : ValueContribution R) (mine : ValueTuple R) (s : Protocol R)
      → Keeps mine s
      → Keeps mine (shuffle_value crypto v mine s)
  unfolding shuffle_value
  shuffle_value-Keeps v mine s k =
      elim (Bool-cases (
        v.value_tuple.query_num ==ℤ mine.query_num
        && Crypto.verify_tuple crypto v.value_tuple v.signature)) [
          | inr rejected ↦ rw rejected k
          | inl taken ↦ elim (Bool-cases (has_value s.proxy_values v)) [
            | inl old ↦ rw (taken, old) (record { own = k.own; verified = k.verified })
            | inr new ↦
                let query = ==ℤ_iff v.value_tuple.query_num mine.query_num in
                let current : v.value_tuple.query_num ≡ mine.query_num = ground (arith, query) in
                let signed : Crypto.verify_tuple crypto v.value_tuple v.signature ≡ true =
                  ground arith in
                rw (taken, new)
                  (record { own = k.own; verified = (current, signed, new, k.verified) })
          ]
        ]

  handle-Keeps :
      (message : Enclosed R) (mine : ValueTuple R) (s t : Protocol R)
      → Keeps mine s
      → handle_shuffle_phase_message crypto message s ≡ ok t
      → Keeps mine t
  unfolding handle_shuffle_phase_message shuffle_contribution
  handle-Keeps (enclosed (contribution_body v)) mine s t k e =
      let taken = subst (λ own. shuffle_contribution crypto v own s ≡ ok t) k.own e in
      let same : shuffle_value crypto v mine s ≡ t = ground (arith, taken) in
      subst (Keeps mine) same (shuffle_value-Keeps v mine s k)
  handle-Keeps null mine s t k e = let same : s ≡ t = ground arith in subst (Keeps mine) same k
  handle-Keeps (enclosed (overlay_body q d c f p b)) mine s t k e =
      let same : s ≡ t = ground arith in subst (Keeps mine) same k
  handle-Keeps (enclosed (agreement_body v)) mine s t k e =
      let same : s ≡ t = ground arith in subst (Keeps mine) same k
  handle-Keeps (enclosed (signed_body v)) mine s t k e =
      let same : s ≡ t = ground arith in subst (Keeps mine) same k
  handle-Keeps (enclosed (aggregation_body v)) mine s t k e =
      let same : s ≡ t = ground arith in subst (Keeps mine) same k
  handle-Keeps (enclosed (byte_body v)) mine s t k e =
      let same : s ≡ t = ground arith in subst (Keeps mine) same k

  all-Keeps :
      (messages : List (Enclosed R)) (mine : ValueTuple R) (s t : Protocol R)
      → Keeps mine s
      → shuffle_all messages s ≡ ok t
      → Keeps mine t
  unfolding shuffle_all
  all-Keeps [] mine s t k e = let same : s ≡ t = ground arith in subst (Keeps mine) same k
  all-Keeps (message ∷ messages) mine s t k e =
      let (u, e₁, e₂) = >>=-eq-ok (handle_shuffle_phase_message crypto message s) _ e in
      all-Keeps messages mine u t (handle-Keeps message mine s u k e₁) e₂

  -- From a state with a contribution of its own and no proxy values, whatever messages reach the
  -- meter in the shuffle phase, every proxy value it then has is of the contribution's query and
  -- bears a signature that verifies, and none occurs twice.
  pub shuffle_verified :
      (messages : List (Enclosed R)) (mine : ValueTuple R) (s t : Protocol R)
      → s.my_contribution ≡ some mine
      → s.proxy_values ≡ []
      → shuffle_all messages s ≡ ok t
      → AllVerified mine.query_num t.proxy_values
  shuffle_verified messages mine s t own empty e =
      let kept =
        all-Keeps messages mine s t
          (record { own = own; verified = subst (AllVerified mine.query_num) (sym empty) tt }) e in
      kept.verified
