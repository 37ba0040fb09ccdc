-- ===== src/Execution.antt =====
-- How the engine applies committed requests (src/consensus.rs and src/state.rs).
pub mod Order
pub mod Mismatch
pub mod Stable
pub mod Due
