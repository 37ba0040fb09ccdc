-- ===== src/Tests/Pair.antt =====
-- A cluster of two nodes, and an engine that gets a message and acts on it.
use p_bft.Base.{◌≡◌, [], ◌∷◌, nat_eq, pair_eq, ◌<◌, ◌+◌, usize_mod, false, ℕ, length}
use p_bft.Collections.BTreeMap.{bytes_eq, Bytes}
use p_bft.Messages.Command.{ConsensusCommand, process_message}
use p_bft.Replication.Agreed.{Decided}
use p_bft.Tests.World.{plain, write, addr}
use p_bft.Config.{Config}
use p_bft.Messages.Message.{Message}
use p_bft.Consensus.Invariant.Preserved.{Passed}
use p_bft.Engine.{Engine, round, running, capacity}
use p_bft.Engine.Reach.{Reach, next, receives, handles, queued}

abbrev pub agreed : Decided
agreed n = write 5

-- two nodes, neither of them faulty
abbrev pub two : Config
two = record {
  num_nodes = 2;
  num_faulty = 0;
  peer_addrs = (0, addr 8000) ∷ (1, addr 8001) ∷ [];
  checkpoint_frequency = 10;
  is_equivocator = false;
}

module _ {id : ℕ} {pair : Bytes} {g g' g'' : Engine} where
  abbrev pub heard_Reach :
      (m : Message)
      → Reach plain id two pair g
      → Passed (process_message m)
      → length g.queue < capacity
      → g.consensus.state.last_seq_num_committed + 1 < usize_mod
      → round plain (queued g (process_message m)) ≡ running g'
      → g'.consensus.state.last_seq_num_committed + 1 < usize_mod
      → round plain g' ≡ running g''
      → Reach plain id two pair g''
  heard_Reach m r p room b h b' h' =
      next (next (next r (receives m p room)) (handles b h)) (handles b' h')

-- the engine with a command in its queue
abbrev pub on : Engine → ConsensusCommand → Engine
on g cmd = record g { queue = cmd ∷ [] }
