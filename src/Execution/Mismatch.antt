-- ===== src/Execution/Mismatch.antt =====
-- src/consensus.rs, `AcceptCommit` and `ApplyCommit`: commits and the digest that they carry.
use p_bft.Base.{ℕ, ◌*◌, ◌<◌, ◌≡◌, ◌≢◌, some, false, [], ◌∷◌, arith, nat_eq, pair_eq, incr, length}
use p_bft.Collections.HashMap.{get}
use p_bft.Collections.HashSet
use p_bft.Collections.HashSet.{HashSet}
use p_bft.External.{External}
use p_bft.State.{should_accept_commit, execute}
use p_bft.Messages.PrePrepare.{PrePrepare}
use p_bft.Messages.Commit.{Commit}
use p_bft.Messages.Message.{commit_message}
use p_bft.Messages.Command.{accept_commit, apply_commit}
use p_bft.Consensus.Defs.{Consensus, after, sent, on_process_message}
use p_bft.Consensus.Votes.{on_accept_commit, count_commit}
use p_bft.Consensus.Execution.{on_apply_commit}
use p_bft.Execution.Order.{Proposed, on_apply_commit_next}

-- A commit for another digest than the proposal on record completes the quorum of its view and
-- sequence number, and the request on record is executed: the replica applies a request that
-- nobody need have voted for. This is for a commit of the current view and the next sequence
-- number, with no view change under way, when the other votes are in.
pub foreign_commit_applies :
    (ext : External) (e : Consensus) (c : Commit) (p : PrePrepare) (voters : HashSet ℕ)
    → e.state.in_view_change ≡ false
    → e.state.view ≡ c.view
    → Proposed e c p
    → c.client_request_digest ≢ p.client_request_digest
    → c.seq_num ≡ incr e.state.last_seq_num_committed
    → get e.state.commit_votes (c.view, c.seq_num) ≡ some voters
    → 2 * e.config.num_faulty < length (HashSet.insert voters c.id).0
    → let e' = after e (on_accept_commit e c) in
      ((sent (on_process_message ext e (commit_message c))).to_self ≡ accept_commit c ∷ [])
      × ((sent (on_accept_commit e c)).to_self ≡ apply_commit c ∷ [])
      × ((after e' (on_apply_commit ext e' c)).state.store
          ≡ (execute e.state.store p.client_request).1)
foreign_commit_applies ext e c p voters quiet view known differs next votes quorum = (
  (unfold on_process_message should_accept_commit in ground arith),
  (unfold on_accept_commit count_commit in rw (votes, count_commit) (ground arith)),
  (unfold on_accept_commit in
      (on_apply_commit_next ext (after e (on_accept_commit e c)) c p known next).1),
)
