-- ===== src/PathFinder.antt =====
-- Node-disjoint paths through the gossip overlay: include/adq/util/PathFinder.hpp,
-- src/util/PathFinder.cpp.
pub mod Chains
pub mod Routes
pub mod Disjoint
use adq.Common.{
  ℕ, zero, suc, ◌+◌, ◌-◌, ◌*◌, ◌≤◌, ◌<◌, Bool, true, false, not, ◌&&◌, List, [], ◌∷◌, ◌++◌, map,
  ltb, leb, ◌==◌, if◌then◌else◌, contains, insert, Result, ok, err, no_path, invalid_node, ◌>>=◌,
  length, ◌≡◌,
}
use mathlib.Core.List.{Memᴰ}
use adq.Common.Log.{ceil_log2}
use adq.Overlay.{gossip_target}

abbrev pub min_path_length : ℕ
min_path_length = 3

-- InfectedNode. The sets that hold the nodes never move or change them, so the parent pointer is
-- the parent itself; `source` is the node with a null parent.
pub data InfectedNode : Type 0 where
  source : ℕ → ℕ → InfectedNode
  infected_by : ℕ → ℕ → InfectedNode → InfectedNode

abbrev pub id : InfectedNode → ℕ
id (source i t) = i
id (infected_by i t parent) = i

abbrev pub infected_on_round : InfectedNode → ℕ
infected_on_round (source i t) = t
infected_on_round (infected_by i t parent) = t

-- std::unordered_set<InfectedNode>, whose equality is that of the IDs.
pub has_id : List InfectedNode → ℕ → Bool
has_id [] i = false
has_id (x ∷ xs) i = if id x == i then true else has_id xs i

pub insert_node : InfectedNode → List InfectedNode → List InfectedNode
unfolding has_id
insert_node x xs = if has_id xs (id x) then xs else x ∷ xs

pub insert_all : List InfectedNode → List InfectedNode → List InfectedNode
unfolding insert_node
insert_all [] xs = xs
insert_all (y ∷ ys) xs = insert_all ys (insert_node y xs)

-- The order in which the standard library iterates over an unordered_set: any order of its
-- elements.
pub record IterationOrder : Type 0 where
  pub order : List InfectedNode → List InfectedNode
  pub order_mem : (xs : List InfectedNode) (x : InfectedNode) → Memᴰ x (order xs) → Memᴰ x xs
  pub mem_order : (xs : List InfectedNode) (x : InfectedNode) → Memᴰ x xs → Memᴰ x (order xs)

-- The path to a node, from the parent pointers, in front of the hops that follow.
pub path_to : InfectedNode → List ℕ → List ℕ
path_to (source i t) hops = i ∷ hops
path_to (infected_by i t parent) hops = path_to parent (i ∷ hops)

-- What the loop body does with an end point: the two `continue`s, the `return`, or the insertion.
pub data Verdict : Type 0 where
  skip hit infect : Verdict

pub data Round : Type 0 where
  reached : List ℕ → Round
  spread : List InfectedNode → Round

-- The parameters that every call of a search shares: target, n, starting_round, exclude_nodes.
pub record Search : Type 0 where
  pub target : ℕ
  pub nodes : ℕ
  pub starting_round : ℕ
  pub exclude_nodes : List ℕ

pub verdict : Search → ℕ → ℕ → Verdict
verdict s time i =
    if contains s.exclude_nodes i && not (i == s.target)
    then skip
    else (if i == s.target && ltb (time - s.starting_round) min_path_length
        then skip
        else (if i == s.target then hit else infect))

-- One node of the infected set spreads the infection in a round.
pub end_point : Search → ℕ → InfectedNode → InfectedNode
end_point s time x = infected_by (gossip_target (id x) time s.nodes) (suc time) x

-- The `for` loop over the infected set in one round.
pub infect_round : Search → ℕ → List InfectedNode → List InfectedNode → Round
unfolding verdict end_point path_to insert_node
infect_round s time [] fresh = spread fresh
infect_round s time (x ∷ xs) fresh =
    let y = end_point s time x in
    elim (verdict s time (id y)) [
      | skip ↦ infect_round s time xs fresh
      | hit ↦ reached (path_to y [])
      | infect ↦ infect_round s time xs (insert_node y fresh)
    ]

-- The `for` loop over the rounds: `rounds` of them are left.
unfoldable pub find_path_loop :
    IterationOrder → Search → ℕ → ℕ → List InfectedNode → Result (List ℕ)
unfolding infect_round insert_all
find_path_loop o s zero time infected = err no_path
find_path_loop o s (suc rounds) time infected =
    elim (infect_round s time (IterationOrder.order o infected) []) [
      | reached path ↦ ok path
      | spread fresh ↦ find_path_loop o s rounds (suc time) (insert_all fresh infected)
    ]

unfoldable pub find_path : IterationOrder → ℕ → ℕ → ℕ → ℕ → ℕ → List ℕ → Result (List ℕ)
unfolding find_path_loop
find_path o from target n starting_round max_round exclude_nodes =
    find_path_loop o
      (record {
        target = target;
        nodes = n;
        starting_round = starting_round;
        exclude_nodes = exclude_nodes;
      })
      (max_round - starting_round) starting_round (source from starting_round ∷ [])

-- The hops of a path other than its ends join the used nodes.
unfoldable pub mark_used : ℕ → ℕ → List ℕ → List ℕ → List ℕ
mark_used from target [] used_nodes = used_nodes
mark_used from target (hop ∷ path) used_nodes =
    mark_used from target path
      (if not (hop == from) && not (hop == target) then insert hop used_nodes else used_nodes)

-- The path, and the used nodes afterwards.
unfoldable pub find_another : IterationOrder → ℕ → ℕ → ℕ → ℕ → ℕ → List ℕ → Result (List ℕ × List ℕ)
find_another o from target n starting_round max_round used_nodes =
    if leb n target then err invalid_node else (do
      path ← find_path o from target n starting_round max_round used_nodes
      ok (path, mark_used from target path used_nodes))

-- list::pop_front, on a list that is not empty.
abbrev pub pop_front : List ℕ → List ℕ
pop_front [] = []
pop_front (x ∷ xs) = xs

unfoldable pub find_paths_loop :
    IterationOrder → ℕ → List ℕ → ℕ → ℕ → ℕ → List ℕ → Result (List (List ℕ))
find_paths_loop o from [] n start_round max_round used_nodes = ok []
find_paths_loop o from (target ∷ targets) n start_round max_round used_nodes = do
  (path, used_after) ← find_another o from target n start_round max_round used_nodes
  rest ← find_paths_loop o from targets n start_round max_round used_after
  ok (pop_front path ∷ rest)

unfoldable pub find_paths : IterationOrder → ℕ → List ℕ → ℕ → ℕ → Result (List (List ℕ))
find_paths o source_id target_ids num_nodes start_round =
    let rounds_limit = ceil_log2 num_nodes * length target_ids + min_path_length in
    find_paths_loop o source_id target_ids num_nodes start_round (start_round + rounds_limit)
      target_ids
