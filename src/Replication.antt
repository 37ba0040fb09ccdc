-- ===== src/Replication.antt =====
-- State machine replication by src/consensus.rs: what a replica's store is, given the request that
-- the cluster decided for each sequence number.
pub mod Agreed
pub mod Stores
pub mod Sends
pub mod Cluster
pub mod Reads
