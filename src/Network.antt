-- ===== src/Network.antt =====
-- NetworkManager: include/adq/core/NetworkManager.hpp and its _impl.hpp.
pub mod Frames
pub mod Delivery
pub mod Utility
pub mod Connections
pub mod Reads
