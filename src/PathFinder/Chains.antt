-- ===== src/PathFinder/Chains.antt =====
-- The chains of parents of a search's infected nodes (find_path of src/util/PathFinder.cpp), and the
-- routes through the gossip overlay that they stand for.
use adq.Common.{
  ℕ, suc, ◌+◌, ◌-◌, ◌≤◌, false, List, [], ◌∷◌, ◌++◌, contains, ◌≡◌, ◌≢◌, refl, ap, subst, arith,
  inl, inr, ◌⊎◌,
}
use mathlib.Core.List.{Memᴰ}
use adq.Overlay.{gossip_target}
use adq.PathFinder.{
  InfectedNode, source, infected_by, id, infected_on_round, path_to, Verdict, skip, hit, infect,
  Round, reached, spread, Search, verdict, end_point, min_path_length,
}

-- From a node at some time, the hops: at a round not before that time the node sends to its
-- gossip target of the round, which has the message one round later. The last hop is made between
-- two bounds.
pub data Route (n first last : ℕ) : ℕ → ℕ → List ℕ → Type 0 where
  arrive : {t a : ℕ} → first ≤ t → t ≤ last → Route n first last t a []
  hop :
      {t a b : ℕ} {rest : List ℕ} (r : ℕ)
      → t ≤ r
      → gossip_target a r n ≡ b
      → Route n first last (suc r) b rest
      → Route n first last t a (b ∷ rest)

-- A node that a path may pass through.
pub record IsFresh (s : Search) (from i : ℕ) : Type 0 where
  pub unused : contains s.exclude_nodes i ≡ false
  pub not_target : i ≢ s.target
  pub not_source : i ≢ from

abbrev pub AllFresh : Search → ℕ → List ℕ → Type 0
AllFresh s from [] = Unit {0}
AllFresh s from (i ∷ is) = IsFresh s from i × AllFresh s from is

-- What a path found by a search is.
pub record IsPath (s : Search) (from last : ℕ) (path : List ℕ) : Type 0 where
  pub between : List ℕ
  pub shape : path ≡ from ∷ (between ++ s.target ∷ [])
  pub fresh : AllFresh s from between
  pub route :
      Route s.nodes
        (s.starting_round + min_path_length + 1)
        last
        s.starting_round
        from
        (between ++ s.target ∷ [])

pub Verdict-cases : (v : Verdict) → (v ≡ skip) ⊎ ((v ≡ hit) ⊎ (v ≡ infect))
Verdict-cases skip = inl refl
Verdict-cases hit = inr (inl refl)
Verdict-cases infect = inr (inr refl)

pub Round-cases :
    (r : Round)
    → ((path : List ℕ) × (r ≡ reached path)) ⊎ ((fresh : List InfectedNode) × (r ≡ spread fresh))
Round-cases (reached path) = inl (path, refl)
Round-cases (spread fresh) = inr (fresh, refl)

module _ (s : Search) (from : ℕ) where
  -- The chain of parents of an infected node is a route to it.
  abbrev pub IsInfected : InfectedNode → Type 0
  IsInfected (source i t) = (i ≡ from) × (t ≡ s.starting_round)
  IsInfected (infected_by i t parent) =
      (r : ℕ) × (t ≡ suc r)
      × (infected_on_round parent ≤ r)
      × (gossip_target (id parent) r s.nodes ≡ i)
      × IsFresh s from i
      × IsInfected parent

  pub path_to-IsPath :
      (last : ℕ) (x : InfectedNode) (between : List ℕ)
      → IsInfected x
      → AllFresh s from between
      → Route s.nodes
          (s.starting_round + min_path_length + 1)
          last
          (infected_on_round x)
          (id x)
          (between ++ s.target ∷ [])
      → IsPath s from last (path_to x (between ++ s.target ∷ []))
  unfolding path_to
  path_to-IsPath last (source i t) between (e, f) fresh route = record {
    between = between;
    shape = ap (λ (j : ℕ). j ∷ (between ++ s.target ∷ [])) e;
    fresh = fresh;
    route =
        subst
          (λ (j : ℕ).
            Route s.nodes (s.starting_round + min_path_length + 1) last s.starting_round j
              (between ++ s.target ∷ []))
          e
          (subst
            (λ (k : ℕ).
              Route s.nodes (s.starting_round + min_path_length + 1) last k i
                (between ++ s.target ∷ []))
            f route);
  }
  path_to-IsPath last (infected_by i t parent) between (r, e, l, g, clean, above) fresh route =
      path_to-IsPath last parent (i ∷ between) above (clean, fresh)
        (hop r l g (
          subst
            (λ (k : ℕ).
              Route s.nodes (s.starting_round + min_path_length + 1) last k i
                (between ++ s.target ∷ []))
            e route))

  -- Nodes that a round may add, before those with a known ID are dropped.
  unfoldable pub IsCandidate : ℕ → InfectedNode → Type 0
  IsCandidate time y =
      (x : InfectedNode) × (y ≡ end_point s time x)
      × IsInfected x
      × (infected_on_round x ≤ time)
      × (verdict s time (id y) ≡ infect)

  abbrev pub AllInfected : ℕ → List InfectedNode → Type 0
  AllInfected time xs = (x : InfectedNode) → Memᴰ x xs → IsInfected x × (infected_on_round x ≤ time)

  abbrev pub AllCandidates : ℕ → List InfectedNode → Type 0
  AllCandidates time ys = (y : InfectedNode) → Memᴰ y ys → IsCandidate time y

  pub verdict-hit :
      (time i : ℕ)
      → verdict s time i ≡ hit
      → (i ≡ s.target) × (min_path_length ≤ time - s.starting_round)
  unfolding verdict
  verdict-hit time i e = ground arith

  pub verdict-infect :
      (time i : ℕ)
      → verdict s time i ≡ infect
      → (contains s.exclude_nodes i ≡ false) × (i ≢ s.target)
  unfolding verdict
  verdict-infect time i e = ground arith
