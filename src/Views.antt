-- ===== src/Views.antt =====
-- The view change (src/consensus.rs): what a replica reports, and what the new leader lists in the new view.
pub mod Survival
pub mod Report
pub mod Carry
