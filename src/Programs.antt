-- ===== src/Programs.antt =====
-- The node programs of a cluster together (src/bin/pbft_node.rs, started once for each node): the network
-- task and the engine of each, which talk over connections in bytes (src/node.rs). Bytes that were
-- written, for whatever address, may be read by any node, at any time, any number of times or never.
pub mod Parts
pub mod Refinement
use p_bft.Base.{
  ℕ, ◌+◌, ◌<◌, ◌≡◌, Option, some, List, ◌++◌, [], ◌∷◌, Has, length, nat_beq, if◌then◌else◌,
  usize_mod,
}
use p_bft.Collections.BTreeMap.{Bytes}
use p_bft.External.{External, SocketAddr}
use p_bft.Config.{Config}
use p_bft.Messages.ClientRequest.{ClientRequest}
use p_bft.Messages.Message.{client_request_message}
use p_bft.Messages.Command.{NodeCommand, ConsensusCommand, broad_cast_message}
use p_bft.Engine.{Engine, start, capacity}
use p_bft.Engine.Reach.{Step, handles, receives, expires, fires, queued}
use p_bft.Node.{InnerNode, learns, passes, identity}
use p_bft.Node.Wire.{Json, Link, send_bytes, write_command, read_connection}
use p_bft.Main.Program.{main}

-- the two tasks of a node
pub record Running : Type 0 where
  pub inner : InnerNode
  pub engine : Engine

-- the program of each node, by its id
abbrev pub Programs : Type 0
Programs = ℕ → Running

abbrev pub set_program : Programs → ℕ → Running → Programs
set_program w i p j = if nat_beq j i then p else w j

-- What was written to a connection: by a client, by a node for its engine, or by its identity task.
pub data Written (json : Json) (nodes : ℕ) (w : Programs) (bytes : Bytes) : Type 0 where
  by_client :
      (link : Link) (addr : SocketAddr) (r : ClientRequest)
      → send_bytes json link addr (client_request_message r) ≡ some bytes
      → Written json nodes w bytes
  by_engine :
      (j : ℕ) (link : Link) (addr : SocketAddr) (cmd : NodeCommand)
      → j < nodes
      → Has cmd (w j).engine.sent
      → Has (addr, bytes) (write_command json link (w j).inner cmd)
      → Written json nodes w bytes
  by_identity :
      (j : ℕ) (link : Link) (addr : SocketAddr)
      → j < nodes
      → Has
          (addr, bytes)
          (write_command json link (w j).inner (broad_cast_message (identity (w j).inner)))
      → Written json nodes w bytes

-- A step that the engine or a timer takes.
abbrev pub IsOwn : {ext : External} {g g' : Engine} → Step ext g g' → Type 0
IsOwn (receives m p room) = ⊥
IsOwn _ = Unit {0}

-- One task of a node does something. A connection that is not read, or whose message is dropped, changes
-- nothing. The engine's own sequence number is below the top of its type.
pub data ProgramStep (ext : External) (json : Json) (nodes : ℕ) (w : Programs)
    : Programs → Type 0 where
  records_key :
      (i : ℕ) (bytes : Bytes) (n : InnerNode)
      → Written json nodes w bytes
      → read_connection json ext (w i).inner bytes ≡ some (learns n)
      → ProgramStep ext json nodes w (set_program w i (record (w i) { inner = n }))
  reads :
      (i : ℕ) (bytes : Bytes) (cmd : ConsensusCommand)
      → i < nodes
      → Written json nodes w bytes
      → read_connection json ext (w i).inner bytes ≡ some (passes cmd)
      → length (w i).engine.queue < capacity
      → (w i).engine.consensus.state.seq_num + 1 < usize_mod
      → ProgramStep ext json nodes w
          (set_program w i (record (w i) { engine = queued (w i).engine cmd }))
  works :
      (i : ℕ) {g' : Engine} (st : Step ext (w i).engine g')
      → IsOwn st
      → i < nodes
      → (w i).engine.consensus.state.seq_num + 1 < usize_mod
      → ProgramStep ext json nodes w (set_program w i (record (w i) { engine = g' }))

-- Each node is started by `main`, with arguments that give it its id and the common configuration.
pub data ProgramReach (ext : External) (json : Json) (parse : Bytes → Option ℕ)
    (from_str : Bytes → Option SocketAddr) (config : Config) (pairs : ℕ → Bytes)
    : Programs → Type 0 where
  started :
      (args : ℕ → List Bytes) (inner : ℕ → InnerNode)
      → ((i : ℕ)
          → i < config.num_nodes
          → main ext parse from_str (pairs i) (args i) ≡ some (inner i, start i config (pairs i)))
      → ProgramReach ext json parse from_str config pairs
          (λ i. record { inner = inner i; engine = start i config (pairs i) })
  next :
      {w w' : Programs}
      → ProgramReach ext json parse from_str config pairs w
      → ProgramStep ext json config.num_nodes w w'
      → ProgramReach ext json parse from_str config pairs w'
