-- ===== src/Tests/Overlays.antt =====
-- The theorems on src/util/Overlay.cpp at concrete inputs.
use adq.Common.{
  ℕ, pos, negsuc, ◌+◌, ◌%◌, ◌^◌, ◌≤◌, ◌<◌, ◌≡◌, refl, ◌↔◌, ◌⊎◌, arith, List, [], ◌∷◌, map, ok,
}
use adq.Overlay.{
  mod_pow, gossip_target, gossip_predecessor, aggregation_group_for, aggregation_tree_parent,
  aggregation_tree_children, gossip_target_memo,
}
use adq.Overlay.ModPow.{mod_pow-eq-pow, gossip_target_overflow}
use adq.Overlay.Gossip.{gossip_target-eq, gossip_inverse}
use adq.Overlay.Memo.{GossipCall, answers, gossip_target_memo-transparent}
use adq.Overlay.Groups.{group_begin, group_partition}
use adq.Overlay.Tree.{Above, tree_parent_iff_child, tree_rooted}
use adq.Overlay.Primes.{valid_prime_moduli, get_valid_prime_modulus, valid_prime_modulus_least}
use mathlib.Core.List.{Memᴰ}
use adq.Overlay.Proxies.{Random, pick_proxies}
use adq.Overlay.Proxies.Correct.{AreProxies, pick_proxies_valid}

group_partition_example :
    (aggregation_group_for 6 3 10 ≡ 2) ↔ ((group_begin 2 3 10 ≤ 6) × (6 < group_begin 3 3 10))
group_partition_example =
    group_partition 6 2 3 10 (omega arith) (omega arith) (omega arith) (omega arith)

tree_parent_iff_child_example : (aggregation_tree_parent 8 3 10 ≡ pos 6) ↔ (
    ((aggregation_tree_children 6 3 10).0 ≡ pos 8) ⊎ ((aggregation_tree_children 6 3 10).1 ≡ pos 8))
tree_parent_iff_child_example =
    tree_parent_iff_child 3 10 6 8 (omega arith) (omega arith) (omega arith) (omega arith)

right_child : (aggregation_tree_children 6 3 10).1 ≡ pos 8
unfolding aggregation_tree_children aggregation_group_for
right_child = refl

tree_rooted_example :
    Above 3 10 9 (group_begin (aggregation_group_for 9 3 10) 3 10)
    × ((aggregation_tree_parent 9 3 10 ≡ negsuc 0)
        ↔ (9 ≡ group_begin (aggregation_group_for 9 3 10) 3 10))
tree_rooted_example = tree_rooted 3 10 9 (omega arith) (omega arith) (omega arith)

gossip_inverse_example :
    (gossip_predecessor (gossip_target 9 3 10) 3 10 ≡ 9)
    × (gossip_target (gossip_predecessor 9 3 10) 3 10 ≡ 9)
gossip_inverse_example = gossip_inverse 9 3 10 (omega arith) (omega arith) (omega arith)

gossip_target-eq_example : gossip_target 9 3 10 ≡ (9 + 2 ^ 3) % 10
gossip_target-eq_example = gossip_target-eq 9 3 10 (omega arith) (omega arith) (omega arith)

abbrev calls : List GossipCall
calls =
    record { node = 1; round = 2; size = 5 }
    ∷ record { node = 1; round = 2; size = 7 }
    ∷ record { node = 1; round = 2; size = 5 }
    ∷ []

gossip_target_memo-transparent_example :
    answers gossip_target_memo [] calls ≡ map (λ c. gossip_target c.node c.round c.size) calls
gossip_target_memo-transparent_example = gossip_target_memo-transparent calls

mod_pow-eq-pow_example : mod_pow 2 20 1000 ≡ 2 ^ 20 % 1000
mod_pow-eq-pow_example = mod_pow-eq-pow 2 20 1000 (omega arith) (omega arith) (omega arith)

gossip_target_overflow_example : gossip_target 3 32 65537 ≡ 3
gossip_target_overflow_example =
    gossip_target_overflow 3 32 65537 (omega arith) (omega arith) (omega arith) (omega arith)

-- An engine that always draws the largest number.
abbrev largest : Random
largest = record {
  Engine = ℕ;
  uniform = λ min max e. (max, e);
  uniform_bounds = λ min max e h. (h, omega arith);
}

pick_proxies_valid_example :
    (ps : List ℕ) × (e : ℕ) × (pick_proxies largest 5 3 10 0 ≡ ok (ps, e)) × AreProxies 5 3 10 ps
pick_proxies_valid_example = pick_proxies_valid largest 5 3 10 0 (omega arith) (omega arith)

five_listed : Memᴰ 5 valid_prime_moduli
unfolding valid_prime_moduli
five_listed = Memᴰ.tail (Memᴰ.head refl)

valid_prime_modulus_least_example :
    (r : ℕ) × (get_valid_prime_modulus 4 ≡ ok r) × Memᴰ r valid_prime_moduli × (4 ≤ r) × (r ≤ 5)
valid_prime_modulus_least_example = valid_prime_modulus_least 5 4 five_listed (omega arith)
