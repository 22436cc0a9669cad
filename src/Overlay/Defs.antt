-- ===== src/Overlay/Defs.antt =====
-- The functions of src/util/Overlay.cpp. An `int` that is never negative is a number; the
-- `uint32_t` and `uint64_t` arithmetic of `mod_pow` wraps as in the source.
use adq.Common.{
  ℕ, zero, suc, ◌+◌, ◌-◌, ◌*◌, ◌/◌, ◌%◌, true, false, List, [], ◌∷◌, Option, none, some, ℤ, pos,
  negsuc, ltb, leb, ◌==◌, if◌then◌else◌, ◌&&◌,
}

abbrev pub u32 : ℕ
u32 = 0x100000000

abbrev pub u64 : ℕ
u64 = 0x10000000000000000

-- The `while` loop of `mod_pow`. Each round halves `pow`, so `pow` rounds are enough.
unfoldable pub mod_pow_loop : ℕ → ℕ → ℕ → ℕ → ℕ → ℕ
mod_pow_loop zero num pow modulus result = result
mod_pow_loop (suc fuel) num pow modulus result = elim (ltb 0 pow) [
  | true ↦
      mod_pow_loop fuel (((num * num) % u32) % modulus) (pow / 2) modulus
        (if pow % 2 == 1 then ((result * num) % u64) % modulus else result)
  | false ↦ result
]

unfoldable pub mod_pow : ℕ → ℕ → ℕ → ℕ
unfolding mod_pow_loop
mod_pow num pow modulus = mod_pow_loop pow num pow modulus 1 % u32

-- g(i, t) = i + 2^t mod N, as an `unsigned` sum.
unfoldable pub gossip_target : ℕ → ℕ → ℕ → ℕ
unfolding mod_pow
gossip_target source_id round group_size =
    ((source_id + mod_pow 2 round group_size) % u32) % group_size

-- (x - y) % m + (x >= y ? 0 : m): C++ rounds the quotient towards zero.
unfoldable pub mod_subtract : ℕ → ℕ → ℕ → ℕ
mod_subtract x y m = if leb y x then (x - y) % m else m - (y - x) % m

unfoldable pub gossip_predecessor : ℕ → ℕ → ℕ → ℕ
unfolding mod_pow mod_subtract
gossip_predecessor target_id round group_size =
    mod_subtract target_id (mod_pow 2 round group_size) group_size

-- The memo tables: a map from (N, t, i) to a value.
pub record MemoKey : Type 0 where
  pub size : ℕ
  pub time : ℕ
  pub node : ℕ

abbrev pub Memo : Type 0
Memo = List (MemoKey × ℕ)

unfoldable pub memo_find : MemoKey → Memo → Option ℕ
memo_find k [] = none
memo_find k ((j, v) ∷ m) =
    if (j.size == k.size && j.time == k.time) && j.node == k.node then some v else memo_find k m

-- A call with its memo table: the value, and the table afterwards.
unfoldable pub gossip_target_memo : Memo → ℕ → ℕ → ℕ → ℕ × Memo
gossip_target_memo m source_id round group_size =
    let key : MemoKey = record { size = group_size; time = round; node = source_id } in
    let target = gossip_target source_id round group_size in
    elim (memo_find key m) [ some v ↦ (v, m) | none ↦ (target, (key, target) ∷ m) ]

unfoldable pub gossip_predecessor_memo : Memo → ℕ → ℕ → ℕ → ℕ × Memo
gossip_predecessor_memo m target_id round group_size =
    let key : MemoKey = record { size = group_size; time = round; node = target_id } in
    let source = gossip_predecessor target_id round group_size in
    elim (memo_find key m) [ some v ↦ (v, m) | none ↦ (source, (key, source) ∷ m) ]

unfoldable pub standard_group_size : ℕ → ℕ → ℕ
standard_group_size num_groups num_meters = num_meters / num_groups

unfoldable pub second_last_group_size : ℕ → ℕ → ℕ
unfolding standard_group_size
second_last_group_size num_groups num_meters =
    let group_size = standard_group_size num_groups num_meters in
    let leftover_size = num_meters - (num_groups - 1) * group_size in
    (group_size + leftover_size) / 2

unfoldable pub aggregation_group_for : ℕ → ℕ → ℕ → ℕ
unfolding standard_group_size second_last_group_size
aggregation_group_for node_id num_groups num_meters =
    let group_size = standard_group_size num_groups num_meters in
    let second_last_size = second_last_group_size num_groups num_meters in
    let group_num = node_id / group_size in
    if leb (num_groups - 2) group_num
    then (if leb (group_size * (num_groups - 2)) node_id
          && ltb node_id (group_size * (num_groups - 2) + second_last_size)
        then num_groups - 2
        else num_groups - 1)
    else group_num

-- The first ID of the group of a node, as `aggregation_tree_parent` computes it.
unfoldable pub tree_parent_first_id : ℕ → ℕ → ℕ → ℕ
unfolding standard_group_size
tree_parent_first_id node_id num_groups num_meters =
    let group_size = standard_group_size num_groups num_meters in
    if aggregation_group_for node_id num_groups num_meters == num_groups - 1
    then (num_groups - 2) * group_size + second_last_group_size num_groups num_meters
    else aggregation_group_for node_id num_groups num_meters * group_size

unfoldable pub aggregation_tree_parent : ℕ → ℕ → ℕ → ℤ
unfolding tree_parent_first_id
aggregation_tree_parent node_id num_groups num_meters =
    let first_id = tree_parent_first_id node_id num_groups num_meters in
    if node_id == first_id then negsuc 0 else pos ((node_id - first_id - 1) / 2 + first_id)

-- The first ID and the size of the group of a node, as `aggregation_tree_children` computes them.
unfoldable pub tree_children_group : ℕ → ℕ → ℕ → ℕ × ℕ
unfolding standard_group_size
tree_children_group node_id num_groups num_meters =
    let group_size = standard_group_size num_groups num_meters in
    let second_last_size = second_last_group_size num_groups num_meters in
    let group = aggregation_group_for node_id num_groups num_meters in
    let last_first_id = (num_groups - 2) * group_size + second_last_size in
    if group == num_groups - 1
    then (last_first_id, num_meters - last_first_id)
    else (if group == num_groups - 2
        then (group * group_size, second_last_size)
        else (group * group_size, group_size))

-- The children in a group that starts at `first_id` and has `group_size` members.
unfoldable pub children_in_group : ℕ → ℕ → ℕ → ℤ × ℤ
children_in_group node_id first_id group_size =
    let right_child_relative = (node_id - first_id + 1) * 2 in
    let left_child_relative = right_child_relative - 1 in
    if leb group_size left_child_relative
    then (negsuc 0, negsuc 0)
    else (if leb group_size right_child_relative
        then (pos (left_child_relative + first_id), negsuc 0)
        else (pos (left_child_relative + first_id), pos (right_child_relative + first_id)))

unfoldable pub aggregation_tree_children : ℕ → ℕ → ℕ → ℤ × ℤ
unfolding tree_children_group children_in_group
aggregation_tree_children node_id num_groups num_meters =
    let (first_id, group_size) = tree_children_group node_id num_groups num_meters in
    children_in_group node_id first_id group_size
