-- ===== src/Tests/Order.antt =====
-- Commits that come to execution.
use p_bft.Base.{
  ◌↔◌, ℕ, ◌*◌, ◌<◌, ◌≡◌, ◌≢◌, refl, some, [], ◌∷◌, arith, nat_eq, pair_eq, pair_beq, true, false,
  incr, length, map,
}
use p_bft.Collections.BTreeMap.{bytes_eq, bytes_beq, compare_bytes, bytes_beq_iff}
use p_bft.Collections.HashMap.{get}
use p_bft.Collections.HashSet
use p_bft.Collections.HashSet.{HashSet}
use p_bft.Messages.PrePrepare
use p_bft.Messages.ClientRequest
use p_bft.Messages.Commit
use p_bft.Messages.Commit.{Commit, corresponds_to}
use p_bft.Messages.Message.{commit_message}
use p_bft.Messages.Command.{apply_commit, accept_commit}
use p_bft.MessageBank
use p_bft.State.{initial, execute, applied, get_next_consecutive_commits}
use p_bft.Consensus.Defs.{Consensus, after, sent, on_process_message, with_state}
use p_bft.Consensus.Votes.{on_accept_commit}
use p_bft.Consensus.Execution.{on_apply_commit, checkpoint_commands}
use p_bft.Messages.CheckPoint.{CheckPoint}
use p_bft.Execution.Due.{Broadcasts, Describes, IsDue, checkpoint_broadcast_iff}
use p_bft.Execution.Order.{on_apply_commit_next, answer, read_value, Proposed}
use p_bft.Execution.Mismatch.{foreign_commit_applies}
use p_bft.Tests.World.{plain, cluster, replica, proposal, commit_of}
use p_bft.Tests.Counts.{left, left_ids, third}

known : Proposed left third (proposal 1 5)
unfolding get pair_beq Commit.new_with_signature
known = refl

third_next : third.seq_num ≡ incr left.state.last_seq_num_committed
unfolding Commit.new_with_signature
third_next = refl

next_applied :
    let e' = after left (on_apply_commit plain left third) in
    let fx = sent (on_apply_commit plain left third) in
    let r = (proposal 1 5).client_request in
    (e'.state ≡ applied left.state r third)
    × (e'.state.store ≡ (execute left.state.store r).1)
    × (e'.state.last_seq_num_committed ≡ third.seq_num)
    × (fx.to_node ≡ answer plain left r (read_value left.state r) ∷ checkpoint_commands plain e')
    × (fx.to_self ≡ map apply_commit (get_next_consecutive_commits e'.state))
next_applied = on_apply_commit_next plain left third (proposal 1 5) known third_next

-- a replica with one proposal in its log, that has applied requests up to a sequence number
abbrev applied_to : ℕ → ℕ → Consensus
applied_to seq_num last = with_state (replica 1) (record (initial cluster 1) {
  last_seq_num_committed = last;
  message_bank = record MessageBank.empty {
    accepted_pre_prepare_requests = ((0, seq_num), proposal seq_num 5) ∷ [];
  };
})

known_tenth : Proposed (applied_to 10 9) (commit_of 2 10 5) (proposal 10 5)
unfolding get pair_beq Commit.new_with_signature
known_tenth = refl

-- The tenth request brings a checkpoint.
checkpoint_broadcast_iff_example :
    let e = applied_to 10 9 in
    let o = on_apply_commit plain e (commit_of 2 10 5) in
    (((k : CheckPoint) × Broadcasts k (sent o).to_node) ↔ IsDue (after e o))
    × ((k : CheckPoint) → Broadcasts k (sent o).to_node → Describes plain (after e o) k)
checkpoint_broadcast_iff_example =
    checkpoint_broadcast_iff plain (applied_to 10 9) (commit_of 2 10 5) (proposal 10 5) known_tenth
      (omega arith)

tenth-IsDue :
    IsDue (after (applied_to 10 9) (on_apply_commit plain (applied_to 10 9) (commit_of 2 10 5)))
unfolding on_apply_commit get pair_beq Commit.new_with_signature
    p_bft.Consensus.Execution.apply_in_order p_bft.State.apply_commit applied
tenth-IsDue = ((1, refl), omega arith)

-- a commit from node 3 for another request than the one proposed
abbrev foreign : Commit
foreign = commit_of 3 1 6

foreign_differs : foreign.client_request_digest ≢ (proposal 1 5).client_request_digest
unfolding bytes_beq compare_bytes Commit.new_with_signature ClientRequest.digest
    ClientRequest.hashed p_bft.External.addr_text PrePrepare.new_with_signature
    p_bft.External.le_bytes
foreign_differs h =
    let same : false ≡ true =
      (bytes_beq_iff foreign.client_request_digest (proposal 1 5).client_request_digest).1 h in
    cc

foreign_view : left.state.view ≡ foreign.view
unfolding Commit.new_with_signature
foreign_view = refl

foreign_known : Proposed left foreign (proposal 1 5)
unfolding get pair_beq Commit.new_with_signature
foreign_known = refl

foreign_next : foreign.seq_num ≡ incr left.state.last_seq_num_committed
unfolding Commit.new_with_signature
foreign_next = refl

foreign_votes : get left.state.commit_votes (foreign.view, foreign.seq_num) ≡ some left_ids
unfolding get pair_beq Commit.new_with_signature
foreign_votes = refl

foreign_quorum : 2 * left.config.num_faulty < length (HashSet.insert left_ids foreign.id).0
unfolding HashSet.insert HashSet.contains Commit.new_with_signature
foreign_quorum = omega arith

foreign_commit_applies_example :
    let e' = after left (on_accept_commit left foreign) in
    ((sent (on_process_message plain left (commit_message foreign))).to_self
      ≡ accept_commit foreign ∷ [])
    × ((sent (on_accept_commit left foreign)).to_self ≡ apply_commit foreign ∷ [])
    × ((after e' (on_apply_commit plain e' foreign)).state.store
        ≡ (execute left.state.store (proposal 1 5).client_request).1)
foreign_commit_applies_example =
    foreign_commit_applies plain left foreign (proposal 1 5) left_ids refl foreign_view
      foreign_known foreign_differs foreign_next foreign_votes foreign_quorum
