-- ===== src/Consensus.antt =====
-- src/consensus.rs: the consensus engine, one handler for each command. What a handler sends is
-- collected in order: commands to the network task, commands to the engine's own queue, and timer
-- tasks that it starts.
pub mod Defs
pub mod Proposals
pub mod Votes
pub mod Changes
pub mod Execution
pub mod Handle
pub mod Invariant
