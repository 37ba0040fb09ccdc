-- ===== src/Tests/Executed.antt =====
-- An engine that comes to its store by executing the request.
use p_bft.Base.{◌≡◌, refl, none, [], ◌∷◌, arith, nat_eq, pair_eq, pair_beq, ℕ}
use p_bft.Collections.BTreeMap
use p_bft.Collections.BTreeMap.{bytes_eq, bytes_beq, compare_bytes, Bytes}
use p_bft.Collections.HashMap
use p_bft.Collections.HashSet
use p_bft.Messages.PrePrepare
use p_bft.Messages.Commit
use p_bft.Messages.Command.{
  accept_pre_prepare, apply_commit, broad_cast_message, accept_commit, process_message,
}
use p_bft.State
use p_bft.State.{State, digest, execute, applied, initial}
use p_bft.Consensus.Defs.{Consensus, with_state, sent, after, new}
use p_bft.Consensus.Proposals.{on_accept_pre_prepare}
use p_bft.Consensus.Execution.{
  on_apply_commit, on_accept_checkpoint, apply_in_order, stabilise, checkpoint_commands,
}
use p_bft.Consensus.Handle.{handle}
use p_bft.MessageBank
use p_bft.Messages.ClientRequest.{ClientRequest, no_op}
use p_bft.Messages.PrePrepare.{PrePrepare}
use p_bft.Messages.Commit.{Commit}
use p_bft.Execution.Order.{answer}
use p_bft.Tests.World.{plain, write, proposal, commit_of, written, prepare_of}
use p_bft.Collections.HashSet.{HashSet}
use p_bft.ViewChanger
use p_bft.ViewChanger.{wait_for}
use p_bft.Messages.ClientRequest
use p_bft.Messages.Message.{pre_prepare_message, prepare_message, commit_message}
use p_bft.Engine.{Engine, round, deliver, running, start}
use p_bft.Engine.Reach.{Reach, here, next, handles}
use p_bft.Replication.Cluster.{HonestHistory}
use p_bft.Tests.Pair.{agreed, two, heard_Reach, on}

-- node 1 accepts the proposal, counts two commits, and executes the request
abbrev proposed_to : Engine
proposed_to = record (start 1 two (1 ∷ [])) {
  consensus = record (new 1 two (1 ∷ [])) {
    state = record (initial two 1) {
      message_bank = record MessageBank.empty {
        accepted_pre_prepare_requests = ((0, 1), proposal 1 5) ∷ [];
      };
    };
    view_changer = record { wait_set = write 5 ∷ []; sent_pre_prepares = [] };
  };
  sent = broad_cast_message (prepare_message (prepare_of 1 1 5)) ∷ [];
  timers = wait_for (write 5) ∷ [];
}

abbrev with_votes : HashSet ℕ → Engine
with_votes ids = record proposed_to {
  consensus = record proposed_to.consensus {
    state = record proposed_to.consensus.state { commit_votes = ((0, 1), ids) ∷ [] };
  };
}

abbrev one_commit : Engine
one_commit = with_votes (0 ∷ [])

abbrev two_commits : Engine
two_commits = record (with_votes (0 ∷ 1 ∷ [])) { queue = apply_commit (commit_of 1 1 5) ∷ [] }

abbrev pub executed : Engine
executed = record two_commits {
  consensus = record two_commits.consensus {
    state = record two_commits.consensus.state {
      last_seq_num_committed = 1;
      message_bank = record two_commits.consensus.state.message_bank {
        applied_commits = (1, (commit_of 1 1 5, write 5)) ∷ [];
      };
      store = written 5;
    };
    view_changer = ViewChanger.empty;
  };
  queue = [];
  sent =
      broad_cast_message (prepare_message (prepare_of 1 1 5))
      ∷ answer plain two_commits.consensus (write 5) none
      ∷ [];
}

step_1 :
    round plain (on (start 1 two (1 ∷ [])) (process_message (pre_prepare_message (proposal 1 5))))
    ≡ running (on (start 1 two (1 ∷ [])) (accept_pre_prepare (proposal 1 5)))
unfolding round handle p_bft.Consensus.Defs.on_process_message State.should_accept_pre_prepare
    PrePrepare.new_with_signature bytes_beq compare_bytes ClientRequest.digest ClientRequest.hashed
    p_bft.External.addr_text p_bft.External.le_bytes HashMap.get deliver
step_1 = refl

step_2 :
    round plain (on (start 1 two (1 ∷ [])) (accept_pre_prepare (proposal 1 5)))
    ≡ running proposed_to
unfolding round handle on_accept_pre_prepare deliver HashMap.insert ViewChanger.add_to_wait_set
    PrePrepare.new_with_signature HashSet.insert HashSet.contains
step_2 = refl

step_3 :
    round plain (on proposed_to (process_message (commit_message (commit_of 0 1 5))))
    ≡ running (on proposed_to (accept_commit (commit_of 0 1 5)))
unfolding round handle p_bft.Consensus.Defs.on_process_message State.should_accept_commit
    Commit.new_with_signature deliver
step_3 = refl

step_4 : round plain (on proposed_to (accept_commit (commit_of 0 1 5))) ≡ running one_commit
unfolding round handle p_bft.Consensus.Votes.on_accept_commit deliver
    p_bft.Consensus.Votes.count_commit HashMap.get HashMap.insert HashSet.remove
    Commit.new_with_signature HashSet.insert HashSet.contains
step_4 = refl

step_5 :
    round plain (on one_commit (process_message (commit_message (commit_of 1 1 5))))
    ≡ running (on one_commit (accept_commit (commit_of 1 1 5)))
unfolding round handle p_bft.Consensus.Defs.on_process_message State.should_accept_commit
    Commit.new_with_signature deliver
step_5 = refl

step_6 : round plain (on one_commit (accept_commit (commit_of 1 1 5))) ≡ running two_commits
unfolding round handle p_bft.Consensus.Votes.on_accept_commit deliver
    p_bft.Consensus.Votes.count_commit HashMap.get pair_beq Commit.new_with_signature HashSet.insert
    HashSet.contains HashMap.insert HashSet.remove
step_6 = refl

step_7 : round plain two_commits ≡ running executed
unfolding round handle on_apply_commit HashMap.get pair_beq Commit.new_with_signature deliver
    apply_in_order State.apply_commit State.get_next_consecutive_commits State.consecutive_from
    applied HashMap.remove HashMap.insert execute ViewChanger.remove_from_sent_pre_prepares
    PrePrepare.new_with_signature checkpoint_commands BTreeMap.insert
    ViewChanger.remove_from_wait_set HashSet.remove p_bft.Consensus.Execution.checkpoint_due
    ClientRequest.request_beq bytes_beq compare_bytes BTreeMap.get
step_7 = refl

pub executed_Reach : Reach plain 1 two (1 ∷ []) executed
executed_Reach =
    next
      (heard_Reach (commit_message (commit_of 1 1 5))
        (heard_Reach (commit_message (commit_of 0 1 5))
          (heard_Reach (pre_prepare_message (proposal 1 5)) here tt (omega arith) (omega arith)
            step_1 (omega arith) step_2)
          tt (omega arith) (omega arith) step_3 (omega arith) step_4)
        tt (omega arith) (omega arith) step_5 (omega arith) step_6)
      (handles (omega arith) step_7)

pub executed_Honest : HonestHistory agreed executed_Reach
unfolding executed_Reach PrePrepare.new_with_signature
executed_Honest = (tt, (tt, (tt, (tt, (tt, (tt, (tt, (tt, (tt, (refl, tt))))))))))
