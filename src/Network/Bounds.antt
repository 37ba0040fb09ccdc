-- ===== src/Network/Bounds.antt =====
-- src/consensus.rs, src/state.rs: no replica gets beyond the sequence numbers used so far, whatever it
-- handles.
pub mod Defs
pub mod Votes
pub mod Handle
