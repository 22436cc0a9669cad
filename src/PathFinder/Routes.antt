-- ===== src/PathFinder/Routes.antt =====
-- Every path that find_path returns can be walked in the gossip overlay.
use adq.Common.{
  ℕ, zero, suc, ◌+◌, ◌-◌, ◌≤◌, ◌<◌, true, false, List, [], ◌∷◌, contains, ok, ◌≡◌, ◌≢◌, refl, sym,
  ap, subst, arith, inl, inr, Bool-cases, ==_refl,
}
use mathlib.Core.List.{Memᴰ}
use mathlib.Core.List.Memᴰ
use adq.Overlay.{gossip_target}
use adq.PathFinder.{
  InfectedNode, source, id, infected_on_round, has_id, insert_node, insert_all, IterationOrder,
  path_to, hit, Round, reached, spread, Search, verdict, end_point, infect_round, find_path_loop,
  find_path,
}
use adq.PathFinder.Chains.{
  arrive, hop, IsFresh, IsPath, Verdict-cases, Round-cases, IsInfected, IsCandidate, AllInfected,
  AllCandidates, path_to-IsPath, verdict-hit, verdict-infect,
}

module _ (s : Search) (from : ℕ) where
  -- What a round yields.
  abbrev IsRound : ℕ → ℕ → Round → Type 0
  IsRound last time (reached path) = IsPath s from last path
  IsRound last time (spread fresh) = AllCandidates s from time fresh

  insert_node-candidates :
      (time : ℕ) (y : InfectedNode) (fresh : List InfectedNode)
      → IsCandidate s from time y
      → AllCandidates s from time fresh
      → AllCandidates s from time (insert_node y fresh)
  unfolding insert_node
  insert_node-candidates time y fresh h all = elim (Bool-cases (has_id fresh (id y))) [
    | inl old ↦ rw (old, insert_node) all
    | inr new ↦
        rw (new, insert_node)
          (λ z m. elim (Memᴰ.cases_cons m) [
            | inl e ↦ subst (IsCandidate s from time) (sym e) h
            | inr later ↦ all z later
          ])
  ]

  hit-IsPath :
      (last time : ℕ) (x : InfectedNode)
      → s.starting_round ≤ time
      → time < last
      → IsInfected s from x
      → infected_on_round x ≤ time
      → verdict s time (gossip_target (id x) time s.nodes) ≡ hit
      → IsPath s from last (path_to x (gossip_target (id x) time s.nodes ∷ []))
  hit-IsPath last time x lo hi h l v =
      let (arrived, late) = verdict-hit s from time _ v in
      subst (λ (j : ℕ). IsPath s from last (path_to x (j ∷ []))) (sym arrived)
        (path_to-IsPath s from last x [] h tt
          (hop time l arrived (arrive (omega arith) (omega arith))))

  infect_round-IsRound :
      (last time : ℕ) (xs fresh : List InfectedNode)
      → s.starting_round ≤ time
      → time < last
      → AllInfected s from time xs
      → AllCandidates s from time fresh
      → IsRound last time (infect_round s time xs fresh)
  unfolding infect_round IsCandidate
  infect_round-IsRound last time [] fresh lo hi all new = new
  infect_round-IsRound last time (x ∷ xs) fresh lo hi all new =
      let y = end_point s time x in
      let (good, early) = all x (Memᴰ.head refl) in
      let rest = λ (z : InfectedNode) (m : Memᴰ z xs). all z (Memᴰ.tail m) in
      elim (Verdict-cases (verdict s time (id y))) [
        | inl e ↦ rw (e, infect_round) (infect_round-IsRound last time xs fresh lo hi rest new)
        | inr (inl e) ↦ rw (e, infect_round) (hit-IsPath last time x lo hi good early e)
        | inr (inr e) ↦
            rw (e, infect_round)
              (infect_round-IsRound last time xs (insert_node y fresh) lo hi rest
                (insert_node-candidates time y fresh (x, refl, good, early, e) new))
      ]

  has_id-other :
      (xs : List InfectedNode) (i : ℕ) → has_id xs from ≡ true → has_id xs i ≡ false → i ≢ from
  has_id-other xs i known unknown e = cc (ap (has_id xs) e)

  -- A candidate with a new ID is infected.
  candidate-IsInfected :
      (time : ℕ) (y : InfectedNode)
      → IsCandidate s from time y
      → id y ≢ from
      → IsInfected s from y × (infected_on_round y ≤ suc time)
  unfolding IsCandidate end_point
  candidate-IsInfected time y (x, e, good, early, v) other =
      let i = gossip_target (id x) time s.nodes in
      let named : id y ≡ i = ap id e in
      let (unused, not_target) = verdict-infect s from time (id y) v in
      let clean : IsFresh s from i = record {
        unused = subst (λ (j : ℕ). contains s.exclude_nodes j ≡ false) named unused;
        not_target = subst (λ (j : ℕ). j ≢ s.target) named not_target;
        not_source = subst (λ (j : ℕ). j ≢ from) named other;
      } in
      subst (λ (z : InfectedNode). IsInfected s from z × (infected_on_round z ≤ suc time)) (sym e)
        ((time, refl, early, refl, clean, good), omega arith)

  insert_node-infected :
      (time : ℕ) (y : InfectedNode) (xs : List InfectedNode)
      → IsCandidate s from time y
      → AllInfected s from (suc time) xs
      → has_id xs from ≡ true
      → AllInfected s from (suc time) (insert_node y xs) × (has_id (insert_node y xs) from ≡ true)
  unfolding insert_node has_id
  insert_node-infected time y xs h all known = elim (Bool-cases (has_id xs (id y))) [
    | inl old ↦ rw (old, insert_node) (all, known)
    | inr new ↦
        let other = has_id-other xs (id y) known new in
        let good = candidate-IsInfected time y h other in
        rw (new, insert_node)
          (
            λ z m. elim (Memᴰ.cases_cons m) [
              | inl e ↦
                  subst
                    (λ (w : InfectedNode). IsInfected s from w × (infected_on_round w ≤ suc time))
                    (sym e) good
              | inr later ↦ all z later
            ],
            ground arith,
          )
  ]

  -- After a round the infected set is the old one and the candidates with new IDs.
  insert_all-infected :
      (time : ℕ) (ys xs : List InfectedNode)
      → AllCandidates s from time ys
      → AllInfected s from (suc time) xs
      → has_id xs from ≡ true
      → AllInfected s from (suc time) (insert_all ys xs) × (has_id (insert_all ys xs) from ≡ true)
  unfolding insert_all
  insert_all-infected time [] xs new all known = (all, known)
  insert_all-infected time (y ∷ ys) xs new all known =
      let (all', known') = insert_node-infected time y xs (new y (Memᴰ.head refl)) all known in
      insert_all-infected time ys (insert_node y xs) (λ z m. new z (Memᴰ.tail m)) all' known'

  -- The rounds: what they return is a path.
  find_path_loop-IsPath :
      (o : IterationOrder) (last rounds time : ℕ) (xs : List InfectedNode) (path : List ℕ)
      → s.starting_round ≤ time
      → time + rounds ≤ last
      → AllInfected s from time xs
      → has_id xs from ≡ true
      → find_path_loop o s rounds time xs ≡ ok path
      → IsPath s from last path
  unfolding find_path_loop
  find_path_loop-IsPath o last zero time xs path lo hi all known e = cc
  find_path_loop-IsPath o last (suc rounds) time xs path lo hi all known e =
      let sound =
        infect_round-IsRound last time (IterationOrder.order o xs) [] lo (omega arith)
          (λ x m. all x (IterationOrder.order_mem o xs x m)) (λ y m. absurd (Memᴰ.not-nil m)) in
      elim (Round-cases (infect_round s time (IterationOrder.order o xs) [])) [
        | inl (found, r) ↦
            let same : found ≡ path = ground arith in
            subst (IsPath s from last) same (subst (IsRound last time) r sound)
        | inr (fresh, r) ↦
            let new = subst (IsRound last time) r sound in
            let (all', known') =
              insert_all-infected time fresh xs new
                (λ x m. ((all x m).0, omega (arith, (all x m).1))) known in
            find_path_loop-IsPath o last rounds (suc time) (insert_all fresh xs) path (omega arith)
              (omega arith) all' known' (rw (r, find_path_loop) at e)
      ]

-- A path that find_path returns starts at the source and ends at the target, passes only through
-- nodes that are neither excluded nor an end of it, and can be walked in time: each hop is one to
-- the gossip target of a round that is not before the message's arrival, and the last one arrives
-- more than MIN_PATH_LENGTH rounds after the start and not after max_round.
pub find_path-IsPath :
    (o : IterationOrder) (from target n starting_round max_round : ℕ) (exclude_nodes path : List ℕ)
    → starting_round ≤ max_round
    → find_path o from target n starting_round max_round exclude_nodes ≡ ok path
    → IsPath
        (record {
          target = target;
          nodes = n;
          starting_round = starting_round;
          exclude_nodes = exclude_nodes;
        })
        from
        max_round
        path
unfolding find_path has_id
find_path-IsPath o from target n starting_round max_round exclude_nodes path h e =
    let s : Search = record {
      target = target;
      nodes = n;
      starting_round = starting_round;
      exclude_nodes = exclude_nodes;
    } in
    find_path_loop-IsPath s from o max_round (max_round - starting_round) starting_round
      (source from starting_round ∷ []) path (omega arith) (omega arith)
      (λ x m.
        subst (λ (w : InfectedNode). IsInfected s from w × (infected_on_round w ≤ starting_round))
          (sym (Memᴰ.eq_of_singleton m)) ((refl, refl), omega arith))
      (rw ==_refl) e
