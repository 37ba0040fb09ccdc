-- ===== src/Messages.antt =====
-- src/messages.rs: the messages between nodes and clients, and the commands of the two tasks.
pub mod ClientRequest
pub mod ClientResponse
pub mod PrePrepare
pub mod Prepare
pub mod Commit
pub mod CheckPoint
pub mod ViewChange
pub mod NewView
pub mod Message
pub mod Command
