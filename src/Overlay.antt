-- ===== src/Overlay.antt =====
-- The gossip overlay and the aggregation trees: include/adq/util/Overlay.hpp, src/util/Overlay.cpp.
pub mod Defs
pub mod ModPow
pub mod Gossip
pub mod Memo
pub mod Groups
pub mod Tree
pub mod Proxies
pub mod Primes
unfoldable pub use Defs.*
