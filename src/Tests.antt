-- ===== src/Tests.antt =====
-- Tests, and one run of each theorem at a concrete input, on a cluster of four nodes.
mod Schedule
pub mod World
pub mod Replicas
pub mod Engines
pub mod Counts
pub mod Order
pub mod Changes
pub mod Network
pub mod Cluster
pub mod Lines
pub mod Sessions
pub mod Programs
pub mod Bytes
pub mod Printed
pub mod Requests
pub mod Pair
pub mod Executed
pub mod Stores
