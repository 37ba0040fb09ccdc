-- ===== src/Network/Changes.antt =====
-- src/consensus.rs: a view change completes only if enough nodes asked for it.
pub mod Defs
pub mod Votes
pub mod Handle
pub mod Quorum
