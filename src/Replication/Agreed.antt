-- ===== src/Replication/Agreed.antt =====
-- src/state.rs: a specification of the store, the one after the first `n` decided requests, one
-- after the other.
use p_bft.Base.{ℕ, zero, suc, ◌≡◌, []}
use p_bft.Collections.BTreeMap.{BTreeMap}
use p_bft.Collections.HashMap.{Entries}
use p_bft.State.{State, execute}
use p_bft.Messages.ClientRequest.{ClientRequest}
use p_bft.Messages.PrePrepare.{PrePrepare}
use p_bft.Messages.Message.{Message, pre_prepare_message, check_point_message}
use p_bft.Messages.Command.{
  ConsensusCommand, process_message, accept_pre_prepare, accept_checkpoint,
}

-- `decided n` is the request with sequence number `n`, from 1 on.
abbrev pub Decided : Type 0
Decided = ℕ → ClientRequest

unfoldable pub replay : Decided → ℕ → BTreeMap ℕ
replay decided zero = []
replay decided (suc n) = (execute (replay decided n) (decided (suc n))).1

abbrev pub AgreesWith : Decided → ℕ × ℕ → PrePrepare → Type 0
AgreesWith decided pair p = p.client_request ≡ decided pair.1

-- The store is the replay up to the last applied request, and the log holds decided requests only.
pub record Consistent (decided : Decided) (s : State) : Type 0 where
  pub store : s.store ≡ replay decided s.last_seq_num_committed
  pub log : Entries (AgreesWith decided) s.message_bank.accepted_pre_prepare_requests

-- What agreement gives of a message: a proposal is the decided one, and the store of a checkpoint is
-- the replay.
abbrev pub HonestMessage : Decided → Message → Type 0
HonestMessage decided (pre_prepare_message p) = p.client_request ≡ decided p.seq_num
HonestMessage decided (check_point_message c) = c.state ≡ replay decided c.committed_seq_num
HonestMessage decided _ = Unit {0}

-- The same of a command to the engine.
abbrev pub Honest : Decided → ConsensusCommand → Type 0
Honest decided (process_message m) = HonestMessage decided m
Honest decided (accept_pre_prepare p) = p.client_request ≡ decided p.seq_num
Honest decided (accept_checkpoint c) = c.state ≡ replay decided c.committed_seq_num
Honest decided _ = Unit {0}
