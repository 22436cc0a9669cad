-- ===== src/Tests/Paths.antt =====
-- The theorems on src/util/PathFinder.cpp at concrete inputs.
use adq.Common.{ℕ, ◌+◌, ◌*◌, ◌≡◌, refl, arith, [], ◌∷◌, ok}
use adq.Common.Log.{ceil_log2}
use adq.PathFinder.{
  IterationOrder, find_path, find_paths, find_paths_loop, find_another, mark_used, min_path_length,
}
use adq.Overlay.{gossip_target}
use adq.PathFinder.Chains.{IsPath}
use adq.PathFinder.Routes.{find_path-IsPath}
use adq.PathFinder.Disjoint.{Distinct, AreDisjoint, LeadTo, find_paths-disjoint}
use mathlib.Core.List.{Memᴰ}
use mathlib.Core.List.Memᴰ

not_empty : ¬ Memᴰ {A = ℕ} 5 []
not_empty = Memᴰ.not-nil

not_single : ¬ Memᴰ {A = ℕ} 3 (5 ∷ [])
not_single (Memᴰ.head e) = absurd (omega (arith, e))
not_single (Memᴰ.tail m) = Memᴰ.not-nil m

abbrev in_order : IterationOrder
in_order = record { order = λ xs. xs; order_mem = λ xs x m. m; mem_order = λ xs x m. m }

paths_found : find_paths in_order 0 (3 ∷ 5 ∷ []) 11 0 ≡ ok ((2 ∷ 6 ∷ 3 ∷ []) ∷ (5 ∷ []) ∷ [])
unfolding find_paths find_paths_loop find_another find_path mark_used gossip_target ceil_log2
paths_found = refl

-- 3 and 5 are different targets.
Distinct-targets : Distinct (3 ∷ 5 ∷ [])
Distinct-targets = (not_single, (not_empty, tt))

find_paths-disjoint_example :
    LeadTo 0 11 0
      (0 + (ceil_log2 11 * 2 + min_path_length))
      (3 ∷ 5 ∷ [])
      (3 ∷ 5 ∷ [])
      ((2 ∷ 6 ∷ 3 ∷ []) ∷ (5 ∷ []) ∷ [])
    × AreDisjoint ((2 ∷ 6 ∷ 3 ∷ []) ∷ (5 ∷ []) ∷ [])
unfolding ceil_log2
find_paths-disjoint_example =
    find_paths-disjoint in_order 0 (3 ∷ 5 ∷ []) 11 0 ((2 ∷ 6 ∷ 3 ∷ []) ∷ (5 ∷ []) ∷ [])
      Distinct-targets paths_found

path_found : find_path in_order 0 5 11 0 9 (3 ∷ []) ≡ ok (0 ∷ 5 ∷ [])
unfolding find_path gossip_target
path_found = refl

find_path-IsPath_example :
    IsPath
      (record { target = 5; nodes = 11; starting_round = 0; exclude_nodes = 3 ∷ [] })
      0
      9
      (0 ∷ 5 ∷ [])
find_path-IsPath_example =
    find_path-IsPath in_order 0 5 11 0 9 (3 ∷ []) (0 ∷ 5 ∷ []) (omega arith) path_found
