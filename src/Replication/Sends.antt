-- ===== src/Replication/Sends.antt =====
-- src/consensus.rs: what the engine sends itself, where what it handles is as agreement allows.
use p_bft.Base.{
  ℕ, map, All, All-append, All-map, arith, nat_eq, pair_eq, ◌*◌, Option-cases, Bool-cases, inl, inr,
  leb, length,
}
use p_bft.Collections.BTreeMap.{bytes_eq}
use p_bft.Collections.HashMap.{get}
use p_bft.Collections.HashSet
use p_bft.External.{External}
use p_bft.State.{
  State, update_checkpoint_meta, garbage_collect, applied, get_next_consecutive_commits,
}
use p_bft.Messages.Commit.{Commit}
use p_bft.Messages.Prepare.{Prepare}
use p_bft.Messages.CheckPoint.{CheckPoint}
use p_bft.Messages.NewView.{NewView}
use p_bft.Messages.PrePrepare.{PrePrepare}
use p_bft.Messages.ClientRequest.{ClientRequest}
use p_bft.Messages.Message.{Message, identifier_message}
use p_bft.Messages.Command.{
  ConsensusCommand, process_message, init_pre_prepare, accept_pre_prepare, accept_prepare,
  accept_commit, accept_new_view, apply_commit, accept_checkpoint,
}
use p_bft.Consensus.Defs.{Consensus, on_process_message, sent}
use p_bft.Consensus.Proposals.{
  on_misdirected_client_request, on_init_pre_prepare, on_rebroadcast_pre_prepare,
  on_accept_pre_prepare,
}
use p_bft.Consensus.Votes.{
  on_accept_prepare, on_enter_commit, on_accept_commit, count_prepare, count_commit,
}
use p_bft.Consensus.Changes.{on_init_view_change, on_accept_view_change, on_accept_new_view}
use p_bft.Consensus.Execution.{
  apply_in_order, on_apply_commit, on_accept_checkpoint, stabilise, fast_forward, record_checkpoint,
}
use p_bft.Consensus.Handle.{handle}
use p_bft.Replication.Agreed.{Decided, Honest, HonestMessage}

module _ (decided : Decided) where
  on_process_message-Honest :
      (ext : External) (e : Consensus) (m : Message)
      → HonestMessage decided m
      → All (Honest decided) (sent (on_process_message ext e m)).to_self
  unfolding on_process_message
  on_process_message-Honest ext e (identifier_message m) h = tt
  on_process_message-Honest ext e m h = ground arith

  count_prepare-Honest :
      (f : ℕ) (s : State) (p : Prepare) → All (Honest decided) (count_prepare f s.prepare_votes p).1
  unfolding count_prepare
  count_prepare-Honest f s p = ground arith

  count_commit-Honest :
      (f : ℕ) (s : State) (c : Commit) → All (Honest decided) (count_commit f s.commit_votes c).1
  unfolding count_commit
  count_commit-Honest f s c = ground arith

  on_accept_prepare-Honest :
      (e : Consensus) (p : Prepare) → All (Honest decided) (sent (on_accept_prepare e p)).to_self
  unfolding on_accept_prepare
  on_accept_prepare-Honest e p =
      All-append (Honest decided) (count_prepare e.config.num_faulty e.state.prepare_votes p).1 _
        (count_prepare-Honest e.config.num_faulty e.state p)
        (All-map (Honest decided) accept_commit (λ c. tt) _)

  on_accept_new_view-Honest :
      (e : Consensus) (n : NewView) → All (Honest decided) (sent (on_accept_new_view e n)).to_self
  unfolding on_accept_new_view
  on_accept_new_view-Honest e n = ground (
    arith,
    All-append (Honest decided)
        (map (λ (p : PrePrepare). init_pre_prepare p.client_request) n.outstanding_pre_prepares)
        (map init_pre_prepare e.view_changer.wait_set)
        (All-map (Honest decided) (λ (p : PrePrepare). init_pre_prepare p.client_request) (λ p. tt)
          n.outstanding_pre_prepares)
        (All-map (Honest decided) init_pre_prepare (λ r. tt) e.view_changer.wait_set),
  )

  apply_in_order-Honest :
      (ext : External) (e : Consensus) (c : Commit) (r : ClientRequest)
      → All (Honest decided) (apply_in_order ext e c r).1.to_self
  unfolding apply_in_order p_bft.State.apply_commit applied
  apply_in_order-Honest ext e c r = ground (
    arith,
    All-map (Honest decided) apply_commit (λ d. tt)
        (get_next_consecutive_commits (applied e.state r c)),
  )

  on_apply_commit-Honest :
      (ext : External) (e : Consensus) (c : Commit)
      → All (Honest decided) (sent (on_apply_commit ext e c)).to_self
  unfolding on_apply_commit
  on_apply_commit-Honest ext e c =
      elim (Option-cases
        (get e.state.message_bank.accepted_pre_prepare_requests (c.view, c.seq_num))) [
          | inl n ↦ rw (n, on_apply_commit) tt
          | inr (p, h) ↦ rw (h, on_apply_commit) (apply_in_order-Honest ext e c p.client_request)
        ]

  stabilise-Honest :
      (e : Consensus) (s : State) (c : CheckPoint)
      → All (Honest decided) (sent (stabilise e s c)).to_self
  unfolding stabilise
  stabilise-Honest e s c =
      elim (Option-cases
        (update_checkpoint_meta (fast_forward s c) c.committed_seq_num c.state_digest)) [
          | inl n ↦ rw (n, stabilise) tt
          | inr (t, u) ↦ rw (u, stabilise) (All-map (Honest decided) apply_commit (λ d. tt) _)
        ]

  on_accept_checkpoint-Honest :
      (e : Consensus) (c : CheckPoint)
      → All (Honest decided) (sent (on_accept_checkpoint e c)).to_self
  unfolding on_accept_checkpoint
  on_accept_checkpoint-Honest e c =
      elim (Option-cases (
        get (record_checkpoint e.state c).checkpoint_votes (c.committed_seq_num, c.state_digest))) [
          | inl n ↦ rw (n, on_accept_checkpoint) tt
          | inr (voters, k) ↦
              rw (k, on_accept_checkpoint)
                (elim (Bool-cases
                  (leb (2 * e.config.num_faulty) (length (HashSet.insert voters c.id).0))) [
                    | inl quorum ↦ rw quorum (stabilise-Honest e _ c)
                    | inr few ↦ rw few tt
                  ])
        ]

  -- Where agreement allows a command, it allows what the engine sends itself on it.
  pub handle-Honest :
      (ext : External) (e : Consensus) (cmd : ConsensusCommand)
      → Honest decided cmd
      → All (Honest decided) (sent (handle ext e cmd)).to_self
  unfolding handle on_misdirected_client_request on_init_pre_prepare on_rebroadcast_pre_prepare
      on_enter_commit on_init_view_change on_accept_view_change
  handle-Honest ext e (process_message m) h = on_process_message-Honest ext e m h
  handle-Honest ext e (accept_pre_prepare p) h =
      unfold on_accept_pre_prepare in All-map (Honest decided) accept_prepare (λ q. tt) _
  handle-Honest ext e (accept_prepare p) h = on_accept_prepare-Honest e p
  handle-Honest ext e (accept_commit c) h =
      unfold on_accept_commit in count_commit-Honest e.config.num_faulty e.state c
  handle-Honest ext e (accept_new_view n) h = on_accept_new_view-Honest e n
  handle-Honest ext e (apply_commit c) h = on_apply_commit-Honest ext e c
  handle-Honest ext e (accept_checkpoint c) h = on_accept_checkpoint-Honest e c
  handle-Honest ext e _ h = ground arith
