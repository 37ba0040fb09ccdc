-- ===== src/Network/Calm.antt =====
-- src/consensus.rs: the engines while no view change completes. The view stays 0, and only the leader
-- proposes.
pub mod Defs
pub mod Votes
pub mod Execution
pub mod Handle
