-- ===== src/Engine.antt =====
-- The engine's task with its queue (src/consensus.rs and the channel of src/bin/pbft_node.rs): it
-- takes the first command, and sends itself the commands that the handler gives.
pub mod Reach
pub mod Frame
pub mod Safety
pub mod Stops
pub mod Races
use p_bft.Base.{
  ℕ, ◌+◌, Bool, false, ◌&&◌, nat_beq, is_some, nat_eq, pair_eq, Option, none, some, List, [], ◌∷◌,
  ◌++◌, length, leb, ltb, if◌then◌else◌,
}
use p_bft.Collections.BTreeMap.{Bytes}
use p_bft.Collections.HashMap.{get}
use p_bft.External.{External}
use p_bft.Config.{Config}
use p_bft.ViewChanger.{Timer}
use p_bft.Messages.Command.{ConsensusCommand, NodeCommand, apply_commit}
use p_bft.Consensus.Defs.{Consensus, Effects, new, continues, returns, panics}
use p_bft.Consensus.Handle.{handle}

-- `channel::<ConsensusCommand>(32)`
abbrev pub capacity : ℕ
capacity = 32

pub record Engine : Type 0 where
  pub consensus : Consensus
  pub queue : List ConsensusCommand  -- oldest first
  pub sent : List NodeCommand  -- all that went to the network task, oldest first
  pub timers : List Timer  -- timer tasks that sleep

abbrev pub start : ℕ → Config → Bytes → Engine
start id config pair = record { consensus = new id config pair; queue = []; sent = []; timers = [] }

-- `blocked`: a send to itself waits for room in a queue that no other task empties.
pub data Status : Type 0 where
  running : Engine → Status
  waiting blocked stopped crashed : Status

-- The effects of a handler that ran on the first command, with `rest` left in the queue.
-- They are delivered at once. In the source each send stands between others: a message to the network
-- task may be out before a send to itself that waits for ever, and other tasks may put commands between
-- two of its own.
unfoldable pub deliver : Engine → List ConsensusCommand → Consensus → Effects → Status
deliver g rest e effects =
    if leb (length rest + length effects.to_self) capacity
    then running (record {
      consensus = e;
      queue = rest ++ effects.to_self;
      sent = g.sent ++ effects.to_node;
      timers = g.timers ++ effects.timers;
    })
    else blocked

-- After all else that `ApplyCommit` does for a proposal on record, it takes the remainder of a division
-- by the checkpoint frequency, which panics for 0.
abbrev pub divides_by_zero : Consensus → ConsensusCommand → Bool
divides_by_zero e (apply_commit c) =
    nat_beq e.config.checkpoint_frequency 0
    && is_some (get e.state.message_bank.accepted_pre_prepare_requests (c.view, c.seq_num))
divides_by_zero e _ = false

-- One round of the loop of `spawn`.
unfoldable pub round : External → Engine → Status
round ext g = elim g.queue [
  | [] ↦ waiting
  | cmd ∷ rest ↦
      if divides_by_zero g.consensus cmd then crashed else elim (handle ext g.consensus cmd) [
        | continues e effects ↦ deliver g rest e effects
        | returns ↦ stopped
        | panics ↦ crashed
      ]
]

-- A number of rounds, as long as the engine runs.
unfoldable pub rounds : ℕ → External → Engine → Status
rounds ℕ.zero ext g = running g
rounds (ℕ.suc n) ext g = elim (round ext g) [
  | running g' ↦ rounds n ext g'
  | waiting ↦ waiting
  | blocked ↦ blocked
  | stopped ↦ stopped
  | crashed ↦ crashed
]
