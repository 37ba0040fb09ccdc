-- ===== src/Messages/Command.antt =====
-- src/messages.rs: the commands that the network task (`Node`) and the consensus engine take.
use p_bft.Base.{ℕ}
use p_bft.External.{SocketAddr}
use p_bft.Messages.ClientRequest.{ClientRequest}
use p_bft.Messages.PrePrepare.{PrePrepare}
use p_bft.Messages.Prepare.{Prepare}
use p_bft.Messages.Commit.{Commit}
use p_bft.Messages.CheckPoint.{CheckPoint}
use p_bft.Messages.ViewChange.{ViewChange}
use p_bft.Messages.NewView.{NewView}
use p_bft.Messages.Message.{Message}

pub data NodeCommand : Type 0 where
  send_message : (destination : SocketAddr) → Message → NodeCommand
  broad_cast_message : Message → NodeCommand

pub data ConsensusCommand : Type 0 where
  process_message : Message → ConsensusCommand
  misdirected_client_request : ClientRequest → ConsensusCommand
  init_pre_prepare : ClientRequest → ConsensusCommand
  accept_pre_prepare : PrePrepare → ConsensusCommand
  rebroadcast_pre_prepare : (view_seq_num_pair : ℕ × ℕ) → ConsensusCommand
  accept_prepare : Prepare → ConsensusCommand
  enter_commit : Prepare → ConsensusCommand
  accept_commit : Commit → ConsensusCommand
  init_view_change : ClientRequest → ConsensusCommand
  accept_view_change : ViewChange → ConsensusCommand
  accept_new_view : NewView → ConsensusCommand
  apply_commit : Commit → ConsensusCommand
  accept_checkpoint : CheckPoint → ConsensusCommand
