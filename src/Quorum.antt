-- ===== src/Quorum.antt =====
-- Quorums in src/consensus.rs: when a vote sets one off, and what two of them have in common.
pub mod Pigeonhole
pub mod Counting
pub mod Intersection
