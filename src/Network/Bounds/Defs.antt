-- ===== src/Network/Bounds/Defs.antt =====
-- src/consensus.rs, src/messages.rs: states, messages and commands that keep to the numbers used.
use p_bft.Base.{ℕ, All, ◌≤◌, nat_eq, pair_eq}
use p_bft.Collections.HashMap.{Entries}
use p_bft.Messages.ClientRequest.{request_eq}
use p_bft.Collections.BTreeMap.{bytes_eq}
use p_bft.Messages.Message.{Message, pre_prepare_message, check_point_message}
use p_bft.Messages.Command.{
  NodeCommand, ConsensusCommand, process_message, accept_pre_prepare, accept_checkpoint,
}
use p_bft.State.{State}
use p_bft.Consensus.Defs.{Consensus, Effects}
use p_bft.Network.{message_of}

-- Proposals and checkpoints are at most at `top`.
abbrev pub LowMessage : ℕ → Message → Type 0
LowMessage top (pre_prepare_message p) = p.seq_num ≤ top
LowMessage top (check_point_message c) = c.committed_seq_num ≤ top
LowMessage top _ = Unit {0}

abbrev pub LowCommand : ℕ → ConsensusCommand → Type 0
LowCommand top (process_message m) = LowMessage top m
LowCommand top (accept_pre_prepare p) = p.seq_num ≤ top
LowCommand top (accept_checkpoint c) = c.committed_seq_num ≤ top
LowCommand top _ = Unit {0}

-- A checkpoint sent is at most at `top`.
abbrev pub LowNews : ℕ → Message → Type 0
LowNews top (check_point_message c) = c.committed_seq_num ≤ top
LowNews top _ = Unit {0}

abbrev pub LowSent : ℕ → NodeCommand → Type 0
LowSent top c = LowNews top (message_of c)

-- The last applied request and the proposals on record are at most at `top`.
pub record Within (top : ℕ) (s : State) : Type 0 where
  pub applied : s.last_seq_num_committed ≤ top
  pub log : Entries (λ pair p. pair.1 ≤ top) s.message_bank.accepted_pre_prepare_requests

pub record WithinAfter (top : ℕ) (e : Consensus) (fx : Effects) : Type 0 where
  pub state : Within top e.state
  pub own : All (LowCommand top) fx.to_self
  pub told : All (LowSent top) fx.to_node
