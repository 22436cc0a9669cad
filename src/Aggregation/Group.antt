-- ===== src/Aggregation/Group.antt =====
-- The aggregation phase of a whole group: every meter's TreeAggregationState of
-- core/detail/TreeAggregationState_impl.hpp, and the messages from child to parent.
pub mod Course
pub mod Conserved
pub mod Waiting
pub mod Members
pub mod Total
pub mod Progress
