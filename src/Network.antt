-- ===== src/Network.antt =====
-- The nodes of a cluster together (src/bin/pbft_node.rs, started once for each node): their engines,
-- and the messages between them. A message that one of them sent may reach any of them, at any time,
-- any number of times or never, and clients may send any request.
pub mod Calm
pub mod Proposals
pub mod Engines
pub mod Steps
pub mod Growth
pub mod Rounds
pub mod Leader
pub mod Induction
pub mod Agreement
pub mod Checkpoints
pub mod Stores
pub mod Prints
pub mod Bounds
pub mod Validity
pub mod Changes
use p_bft.Base.{ℕ, ◌+◌, ◌<◌, ◌≡◌, ◌⊎◌, List, [], ◌∷◌, nat_beq, if◌then◌else◌, usize_mod}
use p_bft.Collections.BTreeMap.{Bytes}
use p_bft.External.{External}
use p_bft.Config.{Config}
use p_bft.Messages.ClientRequest.{ClientRequest}
use p_bft.Messages.Message.{Message, client_request_message}
use p_bft.Messages.Command.{NodeCommand, send_message, broad_cast_message}
use p_bft.Engine.{Engine, start}
use p_bft.Engine.Reach.{Step, handles, receives, expires, fires}

abbrev pub message_of : NodeCommand → Message
message_of (send_message destination m) = m
message_of (broad_cast_message m) = m

-- The message is among those sent.
abbrev pub Carries : Message → List NodeCommand → Type 0
Carries m [] = ⊥
Carries m (c ∷ cs) = (message_of c ≡ m) ⊎ Carries m cs

-- the engine of each node, by its id
abbrev pub Engines : Type 0
Engines = ℕ → Engine

abbrev pub set_engine : Engines → ℕ → Engine → Engines
set_engine w i g j = if nat_beq j i then g else w j

-- A message received is a client's request, or one that a node of the cluster sent.
abbrev pub Delivered : {ext : External} {g g' : Engine} → ℕ → Engines → Step ext g g' → Type 0
Delivered nodes w (receives m p room) =
    ((r : ClientRequest) × (m ≡ client_request_message r))
    ⊎ ((j : ℕ) × (j < nodes) × Carries m (w j).sent)
Delivered nodes w _ = Unit {0}

-- One engine takes a step, while its own sequence number is below the top of its type.
pub data NetworkStep (ext : External) (nodes : ℕ) (w : Engines) : Engines → Type 0 where
  acts :
      (i : ℕ) {g' : Engine} (st : Step ext (w i) g')
      → i < nodes
      → (w i).consensus.state.seq_num + 1 < usize_mod
      → Delivered nodes w st
      → NetworkStep ext nodes w (set_engine w i g')

-- The nodes start with one configuration, each with a key pair of its own.
pub data NetworkReach (ext : External) (config : Config) (pairs : ℕ → Bytes)
    : Engines → Type 0 where
  here : NetworkReach ext config pairs (λ i. start i config (pairs i))
  next :
      {w w' : Engines}
      → NetworkReach ext config pairs w
      → NetworkStep ext config.num_nodes w w'
      → NetworkReach ext config pairs w'
