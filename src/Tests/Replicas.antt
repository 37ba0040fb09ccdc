-- ===== src/Tests/Replicas.antt =====
-- Replicas that run the same requests in different ways.
use p_bft.Base.{zero, suc, incr, ◌≡◌, refl, none, some, [], ◌∷◌, arith, nat_eq, pair_eq, pair_beq}
use p_bft.Collections.BTreeMap
use p_bft.Collections.BTreeMap.{bytes_eq, bytes_beq, compare_bytes}
use p_bft.Collections.HashMap
use p_bft.Messages.PrePrepare
use p_bft.Messages.Commit
use p_bft.Messages.Command.{accept_pre_prepare, apply_commit}
use p_bft.State.{execute, initial}
use p_bft.Consensus.Defs.{Consensus, with_state, sent, after}
use p_bft.Consensus.Proposals.{on_accept_pre_prepare}
use p_bft.Consensus.Execution.{on_apply_commit, checkpoint_commands}
use p_bft.Consensus.Handle.{handle}
use p_bft.Consensus.Invariant.Steps.{After}
use p_bft.Replication.Agreed.{Decided, replay, Consistent}
use p_bft.Replication.Stores.{handle-Consistent}
use p_bft.MessageBank
use p_bft.Messages.ClientRequest.{ClientRequest, no_op}
use p_bft.Messages.PrePrepare.{PrePrepare}
use p_bft.Messages.Commit.{Commit}
use p_bft.Execution.Order.{Proposed, answer}
use p_bft.Replication.Reads.{last_write, answers-last_write}
use p_bft.Tests.World.{plain, cluster, replica, write, proposal, commit_of, written}

abbrev agreed : Decided
agreed n = write 5

-- a replica that has accepted the proposal
abbrev proposed : Consensus
proposed = after (replica 1) (handle plain (replica 1) (accept_pre_prepare (proposal 1 5)))

proposed-Consistent : Consistent agreed proposed.state
unfolding replay handle on_accept_pre_prepare HashMap.insert PrePrepare.new_with_signature
proposed-Consistent = record { store = refl; log = (refl, tt) }

handle-Consistent_example :
    After (Consistent agreed) (handle plain proposed (apply_commit (commit_of 2 1 5)))
unfolding Commit.new_with_signature handle on_accept_pre_prepare
handle-Consistent_example =
    handle-Consistent agreed plain proposed (apply_commit (commit_of 2 1 5)) (omega arith) tt
      proposed-Consistent

-- the second decided request reads what the first one wrote
abbrev read_x : ClientRequest
read_x = record (write 5) { value = none }

abbrev write_then_read : Decided
write_then_read zero = no_op
write_then_read (suc zero) = write 5
write_then_read (suc (suc n)) = read_x

abbrev read_proposal : PrePrepare
read_proposal = PrePrepare.new_with_signature plain (0 ∷ []) 0 0 2 read_x

abbrev read_commit : Commit
read_commit = commit_of 2 2 5

-- a replica that has executed the write, and holds the proposal of the read
abbrev reading : Consensus
reading = with_state (replica 1) (record (initial cluster 1) {
  last_seq_num_committed = 1;
  store = written 5;
  message_bank = record MessageBank.empty {
    accepted_pre_prepare_requests = ((0, 2), read_proposal) ∷ [];
  };
})

reading-Consistent : Consistent write_then_read reading.state
unfolding replay execute BTreeMap.insert PrePrepare.new_with_signature
reading-Consistent = record { store = refl; log = (refl, tt) }

reading_known : Proposed reading read_commit read_proposal
unfolding HashMap.get pair_beq Commit.new_with_signature
reading_known = refl

reading_next : read_commit.seq_num ≡ incr reading.state.last_seq_num_committed
unfolding Commit.new_with_signature
reading_next = refl

reading_reads : read_proposal.client_request.value ≡ none
unfolding PrePrepare.new_with_signature
reading_reads = refl

answers-last_write_example :
    (sent (on_apply_commit plain reading read_commit)).to_node
    ≡ answer plain reading read_proposal.client_request (
        last_write write_then_read read_proposal.client_request.key
          reading.state.last_seq_num_committed)
      ∷ checkpoint_commands plain (after reading (on_apply_commit plain reading read_commit))
answers-last_write_example =
    answers-last_write write_then_read plain reading read_commit read_proposal reading-Consistent
      reading_known reading_next reading_reads

-- the answer is the value written
last_write_five : last_write write_then_read (b'x' ∷ []) 1 ≡ some 5
unfolding last_write bytes_beq compare_bytes
last_write_five = refl
