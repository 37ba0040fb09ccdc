-- ===== src/Consensus/Invariant.antt =====
-- src/consensus.rs: an invariant of a replica's state.
pub mod Defs
pub mod Steps
pub mod Execution
pub mod Checkpoints
pub mod Preserved
