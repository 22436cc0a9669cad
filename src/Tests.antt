-- ===== src/Tests.antt =====
-- The theorems at concrete inputs.
pub mod Overlays
pub mod Paths
pub mod Agreements
pub mod Totals
pub mod Clocks
pub mod Servers
pub mod Protocols
pub mod Wires
pub mod Deliveries
pub mod Groups
pub mod Meters
