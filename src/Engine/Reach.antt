-- ===== src/Engine/Reach.antt =====
-- src/node.rs, src/view_changer.rs: the engine among the other tasks. The network task and the
-- timers put commands into its queue at any time, where there is room.
use p_bft.Base.{ℕ, ◌+◌, ◌<◌, ◌≡◌, none, some, List, [], ◌∷◌, ◌++◌, length, usize_mod}
use p_bft.Collections.BTreeMap.{Bytes}
use p_bft.External.{External}
use p_bft.Config.{Config}
use p_bft.ViewChanger.{Timer, fire}
use p_bft.Messages.Command.{ConsensusCommand, process_message}
use p_bft.Messages.Message.{Message}
use p_bft.Consensus.Invariant.Preserved.{Passed}
use p_bft.Engine.{Engine, running, round, start, capacity}

abbrev pub queued : Engine → ConsensusCommand → Engine
queued g cmd = record g { queue = g.queue ++ cmd ∷ [] }

abbrev pub without_timer : Engine → List Timer → List Timer → Engine
without_timer g before later = record g { timers = before ++ later }

-- `handles` holds while the last applied sequence number is below the top of its type.
pub data Step (ext : External) (g : Engine) : Engine → Type 0 where
  handles :
      {g' : Engine}
      → g.consensus.state.last_seq_num_committed + 1 < usize_mod
      → round ext g ≡ running g'
      → Step ext g g'
  receives :
      (m : Message)
      → Passed (process_message m)
      → length g.queue < capacity
      → Step ext g (queued g (process_message m))
  expires :
      (before later : List Timer) (t : Timer)
      → g.timers ≡ before ++ t ∷ later
      → fire g.consensus.view_changer t ≡ none
      → Step ext g (without_timer g before later)
  fires :
      (before later : List Timer) (t : Timer) (cmd : ConsensusCommand)
      → g.timers ≡ before ++ t ∷ later
      → fire g.consensus.view_changer t ≡ some cmd
      → length g.queue < capacity
      → Step ext g (queued (without_timer g before later) cmd)

pub data Reach (ext : External) (id : ℕ) (config : Config) (pair : Bytes) : Engine → Type 0 where
  here : Reach ext id config pair (start id config pair)
  next : {g g' : Engine} → Reach ext id config pair g → Step ext g g' → Reach ext id config pair g'
