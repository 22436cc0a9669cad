-- ===== src/PathFinder/Disjoint.antt =====
-- The paths of one find_paths call share no node but the source.
use adq.Common.{
  ℕ, ◌+◌, ◌*◌, ◌≤◌, true, false, not, ◌&&◌, List, [], ◌∷◌, ◌++◌, ◌==◌, length, contains,
  contains-insert, mem-contains, ok, >>=-eq-ok, ◌≡◌, ◌≢◌, refl, sym, ap, subst, ◌∙◌, arith, inl,
  inr, Bool-cases, ◌⊎◌,
}
use mathlib.Core.List.{Memᴰ}
use mathlib.Core.List.Memᴰ
use adq.Common.Log.{ceil_log2}
use adq.PathFinder.{
  IterationOrder, Search, find_path, find_another, find_paths_loop, find_paths, mark_used,
  pop_front, min_path_length,
}
use adq.PathFinder.Chains.{IsPath, IsFresh, AllFresh}
use adq.PathFinder.Routes.{find_path-IsPath}

abbrev pub Distinct : List ℕ → Type 0
Distinct [] = Unit {0}
Distinct (t ∷ ts) = (¬ Memᴰ t ts) × Distinct ts

-- No node lies on two of the paths.
abbrev pub AreDisjoint : List (List ℕ) → Type 0
AreDisjoint [] = Unit {0}
AreDisjoint (p ∷ ps) = ((x : ℕ) (q : List ℕ) → Memᴰ x p → Memᴰ q ps → ¬ Memᴰ x q) × AreDisjoint ps

-- Path i leads from the source to target i and avoids some nodes, all of the targets among them.
abbrev pub LeadTo : ℕ → ℕ → ℕ → ℕ → List ℕ → List ℕ → List (List ℕ) → Type 0
LeadTo from n start last all [] [] = Unit {0}
LeadTo from n start last all [] (p ∷ ps) = ⊥
LeadTo from n start last all (t ∷ ts) [] = ⊥
LeadTo from n start last all (t ∷ ts) (p ∷ ps) =
    ((used : List ℕ) × IsPath
        (record { target = t; nodes = n; starting_round = start; exclude_nodes = used }) from last
        (from ∷ p)
      × ((x : ℕ) → Memᴰ x all → contains used x ≡ true))
    × LeadTo from n start last all ts ps

mark_used_mono :
    (from target : ℕ) (path used : List ℕ) (x : ℕ)
    → contains used x ≡ true
    → contains (mark_used from target path used) x ≡ true
unfolding mark_used
mark_used_mono from target [] used x h = h
mark_used_mono from target (hop ∷ path) used x h =
    mark_used_mono from target path _ x
      (elim (Bool-cases (not (hop == from) && not (hop == target))) [
        | inl new ↦ rw new (ground (arith, contains-insert used hop x))
        | inr old ↦ rw old h
      ])

mark_used-covers :
    (from target : ℕ) (path used : List ℕ) (x : ℕ)
    → Memᴰ x path
    → x ≢ from
    → x ≢ target
    → contains (mark_used from target path used) x ≡ true
unfolding mark_used
mark_used-covers from target [] used x m f t = absurd (Memᴰ.not-nil m)
mark_used-covers from target (hop ∷ path) used x m f t = elim (Memᴰ.cases_cons m) [
  | inl e ↦ mark_used_mono from target path _ x (
      let new : (not (hop == from) && not (hop == target)) ≡ true = ground arith in
      rw new (ground (arith, contains-insert used hop x)))
  | inr later ↦ mark_used-covers from target path _ x later f t
]

AllFresh-mem :
    (s : Search) (from : ℕ) (is : List ℕ) (i : ℕ)
    → AllFresh s from is
    → Memᴰ i is
    → IsFresh s from i
AllFresh-mem s from [] i all m = absurd (Memᴰ.not-nil m)
AllFresh-mem s from (j ∷ is) i all m = elim (Memᴰ.cases_cons m) [
  | inl e ↦ subst (IsFresh s from) (sym e) all.0
  | inr later ↦ AllFresh-mem s from is i all.1 later
]

-- What find_another returns.
find_another-inv :
    (o : IterationOrder) (from target n start last : ℕ) (used path used_after : List ℕ)
    → find_another o from target n start last used ≡ ok (path, used_after)
    → (find_path o from target n start last used ≡ ok path)
      × (used_after ≡ mark_used from target path used)
unfolding find_another
find_another-inv o from target n start last used path used_after e = ground arith

module _ (o : IterationOrder) (from n start last : ℕ) (later : start ≤ last) (all : List ℕ) where
  -- A node of a path found after `used` was unused, or is one of the targets left.
  abbrev IsNew : List ℕ → List ℕ → List (List ℕ) → Type 0
  IsNew used ts ps =
      (x : ℕ) (q : List ℕ) → Memᴰ q ps → Memᴰ x q → (contains used x ≡ false) ⊎ Memᴰ x ts

  abbrev Covers : List ℕ → List ℕ → Type 0
  Covers used ts = (x : ℕ) → Memᴰ x ts → contains used x ≡ true

  abbrev search_for : ℕ → List ℕ → Search
  search_for t used = record { target = t; nodes = n; starting_round = start; exclude_nodes = used }

  -- The first path: its nodes were unused, or are its target; afterwards they are used.
  first_nodes :
      (t : ℕ) (used path : List ℕ) (x : ℕ)
      → IsPath (search_for t used) from last path
      → Memᴰ x (pop_front path)
      → (IsFresh (search_for t used) from x × Memᴰ x path) ⊎ (x ≡ t)
  first_nodes t used path x p m =
      let inside : Memᴰ x (p.between ++ t ∷ []) =
        subst (λ (l : List ℕ). Memᴰ x (pop_front l)) p.shape m in
      elim (Memᴰ.append_cases p.between inside) [
        | inl middle ↦ inl (
          AllFresh-mem (search_for t used) from p.between x p.fresh middle,
          subst (Memᴰ x) (sym p.shape) (Memᴰ.tail inside),
        )
        | inr end ↦ inr (Memᴰ.eq_of_singleton end)
      ]

  -- The three facts of a call of the loop.
  record Found (used ts : List ℕ) (ps : List (List ℕ)) : Type 0 where
    new : IsNew used ts ps
    disjoint : AreDisjoint ps
    lead : LeadTo from n start last all ts ps

  used_after :
      (t : ℕ) (used path : List ℕ) (x : ℕ)
      → IsPath (search_for t used) from last path
      → contains used t ≡ true
      → Memᴰ x (pop_front path)
      → contains (mark_used from t path used) x ≡ true
  used_after t used path x p h m = elim (first_nodes t used path x p m) [
    | inl (fresh, on) ↦ mark_used-covers from t path used x on fresh.not_source fresh.not_target
    | inr e ↦ mark_used_mono from t path used x (rw e h)
  ]

  extend :
      (t : ℕ) (ts used path : List ℕ) (ps : List (List ℕ))
      → Distinct (t ∷ ts)
      → Covers used (t ∷ ts)
      → Covers used all
      → IsPath (search_for t used) from last path
      → Found (mark_used from t path used) ts ps
      → Found used (t ∷ ts) (pop_front path ∷ ps)
  extend t ts used path ps distinct covers known p found = record {
    new = λ x q mq mx. elim (Memᴰ.cases_cons mq) [
      | inl e ↦ elim (first_nodes t used path x p (subst (Memᴰ x) e mx)) [
        | inl (fresh, _) ↦ inl fresh.unused
        | inr same ↦ inr (Memᴰ.head same)
      ]
      | inr rest ↦ elim (found.new x q rest mx) [
        | inl unused ↦ inl (still_unused x unused)
        | inr target ↦ inr (Memᴰ.tail target)
      ]
    ];
    disjoint = (
      λ x q mx mq both. elim (found.new x q mq both) [
        | inl unused ↦ cc (used_after t used path x p (covers t (Memᴰ.head refl)) mx)
        | inr target ↦ elim (first_nodes t used path x p mx) [
          | inl (fresh, _) ↦ cc (fresh.unused, covers x (Memᴰ.tail target))
          | inr same ↦ distinct.0 (subst (λ (y : ℕ). Memᴰ y ts) same target)
        ]
      ],
      found.disjoint,
    );
    lead = (
      (
        used,
        subst (IsPath (search_for t used) from last)
            (p.shape ∙ ap (λ (l : List ℕ). from ∷ l) (sym (ap pop_front p.shape))) p,
        known,
      ),
      found.lead,
    );
  }
    where
      still_unused :
          (x : ℕ) → contains (mark_used from t path used) x ≡ false → contains used x ≡ false
      still_unused x h = elim (Bool-cases (contains used x)) [
        | inl old ↦ cc (mark_used_mono from t path used x old)
        | inr fine ↦ fine
      ]

  loop-Found :
      (ts used : List ℕ) (ps : List (List ℕ))
      → Distinct ts
      → Covers used ts
      → Covers used all
      → find_paths_loop o from ts n start last used ≡ ok ps
      → Found used ts ps
  unfolding find_paths_loop
  loop-Found [] used ps distinct covers known e =
      let none_found : [] ≡ ps = ground arith in
      subst (Found used []) none_found
        (record { new = λ x q m. absurd (Memᴰ.not-nil m); disjoint = tt; lead = tt })
  loop-Found (t ∷ ts) used ps distinct covers known e =
      let (first, e₁, e₂) = >>=-eq-ok (find_another o from t n start last used) _ e in
      let (rest, e₃, e₄) = >>=-eq-ok (find_paths_loop o from ts n start last first.1) _ e₂ in
      let (path_found, marked) = find_another-inv o from t n start last used first.0 first.1 e₁ in
      let used' = mark_used from t first.0 used in
      let keep = λ (x : ℕ) (h : contains used x ≡ true). mark_used_mono from t first.0 used x h in
      let found =
        loop-Found ts used' rest distinct.1 (λ x m. keep x (covers x (Memᴰ.tail m)))
          (λ x m. keep x (known x m))
          (subst (λ (u : List ℕ). find_paths_loop o from ts n start last u ≡ ok rest) marked e₃) in
      let whole : (pop_front first.0 ∷ rest) ≡ ps = ground arith in
      subst (Found used (t ∷ ts)) whole (
        extend t ts used first.0 rest distinct covers known
          (find_path-IsPath o from t n start last used first.0 later path_found) found)

-- When find_paths returns for distinct targets, there is one path for each target, in order; each
-- can be walked in time through the gossip overlay from the start round on, within
-- ceil(log2 N) * (number of targets) + 3 rounds, and avoids the other targets and the source; and
-- no node lies on two of the paths.
pub find_paths-disjoint :
    (o : IterationOrder) (from : ℕ) (targets : List ℕ) (n start : ℕ) (paths : List (List ℕ))
    → Distinct targets
    → find_paths o from targets n start ≡ ok paths
    → LeadTo from n start
        (start + (ceil_log2 n * length targets + min_path_length))
        targets
        targets
        paths
      × AreDisjoint paths
unfolding find_paths
find_paths-disjoint o from targets n start paths distinct e =
    let last = start + (ceil_log2 n * length targets + min_path_length) in
    let known = λ (x : ℕ) (m : Memᴰ x targets). mem-contains m in
    let found =
      loop-Found o from n start last (omega arith) targets targets targets paths distinct known
        known e in
    (found.lead, found.disjoint)
