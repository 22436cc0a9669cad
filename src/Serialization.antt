-- ===== src/Serialization.antt =====
-- The wire format of messages: include/adq/messaging and its detail folder.
pub mod Bytes
pub mod Values
pub mod Bodies
pub mod RoundTrip
pub mod Sizes
pub mod Signatures
pub mod Envelopes
pub mod Termination
