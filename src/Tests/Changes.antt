-- ===== src/Tests/Changes.antt =====
-- What a replica accepts, its log, checkpoints and view changes.
use p_bft.Base.{
  ◌*◌, ℕ, ◌+◌, ◌*◌, ◌≤◌, ◌≡◌, refl, none, some, [], ◌∷◌, arith, nat_eq, pair_eq, pair_beq, true,
  false, length, if◌then◌else◌, ltb, usize_mod,
}
use p_bft.Collections.BTreeMap.{bytes_eq, bytes_beq, compare_bytes}
use p_bft.Collections.HashMap
use p_bft.Collections.HashMap.{HashMap, get}
use p_bft.Collections.HashSet
use p_bft.Collections.HashSet.{HashSet}
use p_bft.Messages.ClientRequest
use p_bft.Messages.PrePrepare
use p_bft.Messages.PrePrepare.{PrePrepare}
use p_bft.Messages.ViewChange
use p_bft.Messages.ViewChange.{ViewChange}
use p_bft.Messages.Prepare
use p_bft.Messages.CheckPoint
use p_bft.MessageBank
use p_bft.MessageBank.{MessageBank}
use p_bft.MessageBank.Collect.{get-garbage_collect}
use p_bft.State.{
  State, initial, should_accept_pre_prepare, should_accept_prepare, get_next_consecutive_commits,
}
use p_bft.State.Consecutive.{get_next_consecutive_commits-MaximalRun, MaximalRun}
use p_bft.Consensus.Defs.{Consensus, after}
use p_bft.Consensus.Execution.{on_accept_checkpoint}
use p_bft.Consensus.Invariant.Defs.{WellFormed}
use p_bft.Execution.Stable.{on_accept_checkpoint-Settled, Settled}
use p_bft.Tests.World.{plain, cluster, replica, proposal, prepare_of, commit_of, checkpoint_of}

-- a replica with one proposal in its log and two commits that wait, after a gap the one
abbrev waiting : State
waiting = record (initial cluster 1) {
  message_bank = record MessageBank.empty {
    accepted_pre_prepare_requests = ((0, 1), proposal 1 5) ∷ [];
    accepted_commits_not_applied = (3, commit_of 2 3 5) ∷ (1, commit_of 2 1 5) ∷ [];
  };
}

conflict_refused : should_accept_pre_prepare plain waiting (proposal 1 6) ≡ false
unfolding should_accept_pre_prepare PrePrepare.new_with_signature bytes_beq compare_bytes
    ClientRequest.digest ClientRequest.hashed p_bft.External.addr_text p_bft.External.le_bytes get
    pair_beq
conflict_refused = refl

prepare_accepted : should_accept_prepare plain waiting (prepare_of 2 1 5) ≡ true
unfolding should_accept_prepare Prepare.new_with_signature get pair_beq bytes_beq compare_bytes
    ClientRequest.digest ClientRequest.hashed p_bft.External.addr_text PrePrepare.new_with_signature
    p_bft.External.le_bytes
prepare_accepted = refl

-- the view change that node 2 sends after one proposal was prepared
abbrev change : ViewChange
change =
    ViewChange.new_with_signature plain (2 ∷ []) 2 1 0 []
      ((1, (proposal 1 5, prepare_of 0 1 5 ∷ prepare_of 2 1 5 ∷ prepare_of 3 1 5 ∷ [])) ∷ [])

get-garbage_collect_example :
    let bank = waiting.message_bank in
    let after_it = MessageBank.garbage_collect bank 2 in
    (get after_it.accepted_pre_prepare_requests (0, 1)
      ≡ (if ltb 1 2 then none else get bank.accepted_pre_prepare_requests (0, 1)))
    × (after_it
        ≡ record bank { accepted_pre_prepare_requests = after_it.accepted_pre_prepare_requests })
get-garbage_collect_example = get-garbage_collect waiting.message_bank 2 0 1

waiting_bound :
    waiting.last_seq_num_committed + length waiting.message_bank.accepted_commits_not_applied + 2
    ≤ usize_mod
waiting_bound = omega arith

get_next_consecutive_commits-MaximalRun_example :
    MaximalRun waiting.message_bank.accepted_commits_not_applied 1
      (get_next_consecutive_commits waiting)
get_next_consecutive_commits-MaximalRun_example =
    get_next_consecutive_commits-MaximalRun waiting waiting_bound

-- a replica that has one checkpoint
abbrev one_checkpoint : Consensus
one_checkpoint = after (replica 1) (on_accept_checkpoint (replica 1) (checkpoint_of 2 10 5))

one_checkpoint-WellFormed : WellFormed one_checkpoint.state
unfolding on_accept_checkpoint get HashMap.insert p_bft.Collections.HashSet.Laws.IsDistinct
    HashSet.insert HashSet.contains CheckPoint.new_with_signature
one_checkpoint-WellFormed = record {
  log = tt;
  prepares = tt;
  commits = tt;
  checkpoints = (((refl, tt), (refl, tt)), tt);
  buffered = tt;
  applied = tt;
  changes = tt;
  changers = tt;
  stable = omega arith;
}

one_checkpoint_votes :
    get one_checkpoint.state.checkpoint_votes
      ((checkpoint_of 3 10 5).committed_seq_num, (checkpoint_of 3 10 5).state_digest)
    ≡ some (2 ∷ [])
unfolding get on_accept_checkpoint HashMap.insert pair_beq CheckPoint.new_with_signature bytes_beq
    compare_bytes HashSet.insert HashSet.contains
one_checkpoint_votes = refl

abbrev one_voter : HashSet ℕ
one_voter = 2 ∷ []

two_checkpoints :
    2 * one_checkpoint.config.num_faulty
    ≤ length (HashSet.insert one_voter (checkpoint_of 3 10 5).id).0
unfolding on_accept_checkpoint HashSet.insert get HashSet.contains CheckPoint.new_with_signature
two_checkpoints = omega arith

on_accept_checkpoint-Settled_example :
    Settled
      (checkpoint_of 3 10 5)
      one_checkpoint.state
      (after one_checkpoint (on_accept_checkpoint one_checkpoint (checkpoint_of 3 10 5))).state
on_accept_checkpoint-Settled_example =
    on_accept_checkpoint-Settled one_checkpoint (checkpoint_of 3 10 5) one_voter
      one_checkpoint-WellFormed one_checkpoint_votes two_checkpoints

-- The next leader has the view changes of nodes 0 and 3, and gets that of node 2.
abbrev no_report : ℕ → ViewChange
no_report id = ViewChange.new_with_signature plain (id ∷ []) id 1 0 [] []

abbrev next_leader : Consensus
next_leader = record (replica 1) {
  state = record (replica 1).state { view_change_votes = (0, no_report 0) ∷ (3, no_report 3) ∷ [] };
}
