-- ===== src/Network/Calm/Handle.antt =====
-- src/consensus.rs: every handler, while no view change completes.
use p_bft.Base.{◌≡◌, refl, All, arith, nat_eq, pair_eq, ◌≢◌}
use p_bft.Collections.BTreeMap.{bytes_eq}
use p_bft.External.{External}
use p_bft.Messages.ClientRequest.{ClientRequest}
use p_bft.Messages.PrePrepare.{PrePrepare}
use p_bft.Messages.Command.{
  ConsensusCommand, process_message, init_pre_prepare, accept_pre_prepare, accept_new_view,
  accept_checkpoint, accept_prepare, accept_commit, apply_commit, rebroadcast_pre_prepare,
  accept_view_change, misdirected_client_request, enter_commit, init_view_change,
}
use p_bft.State.{current_leader}
use p_bft.Consensus.Defs.{Consensus, sent}
use p_bft.Consensus.Proposals.{on_misdirected_client_request}
use p_bft.Consensus.Votes.{on_enter_commit, on_accept_commit}
use p_bft.Consensus.Changes.{on_init_view_change}
use p_bft.Consensus.Handle.{handle}
use p_bft.Network.Calm.Defs.{Goes, NoNewView, CalmState, CalmCommand, CalmAfter}
use p_bft.Network.Calm.Votes.{
  on_process_message-Calm, count_commit-Calm, on_accept_prepare-Calm, on_accept_pre_prepare-Calm,
  on_rebroadcast_pre_prepare-Calm, on_accept_view_change-Calm,
}
use p_bft.Network.Calm.Execution.{on_apply_commit-Calm, on_accept_checkpoint-Calm}

module _ (P : PrePrepare → Type 0) (leads : Type 0) where
  pub handle-Calm :
      (ext : External) (e : Consensus) (cmd : ConsensusCommand)
      → ((r : ClientRequest) → cmd ≢ init_pre_prepare r)
      → CalmCommand P leads cmd
      → CalmState P e.state
      → (e.id ≡ current_leader e.state → leads)
      → All NoNewView (sent (handle ext e cmd)).to_node
      → Goes (CalmAfter P leads e.state.seq_num) (handle ext e cmd)
  unfolding handle on_misdirected_client_request on_enter_commit on_init_view_change
  handle-Calm ext e (process_message m) o c s l q = on_process_message-Calm P leads ext e m c s l
  handle-Calm ext e (init_pre_prepare r) o c s l q = absurd (o r refl)
  handle-Calm ext e (rebroadcast_pre_prepare p) o c s l q =
      on_rebroadcast_pre_prepare-Calm P leads e p s
  handle-Calm ext e (accept_pre_prepare p) o c s l q =
      on_accept_pre_prepare-Calm P leads ext e p c s
  handle-Calm ext e (accept_prepare p) o c s l q = on_accept_prepare-Calm P leads e p s
  handle-Calm ext e (accept_commit m) o c s l q =
      unfold on_accept_commit in
      record {
        state = record { view = s.view; log = s.log };
        seq = refl;
        own = count_commit-Calm P leads e.config.num_faulty e.state m;
        told = tt;
      }
  handle-Calm ext e (accept_view_change v) o c s l q =
      on_accept_view_change-Calm P leads ext e v s q
  handle-Calm ext e (apply_commit m) o c s l q = on_apply_commit-Calm P leads ext e m s
  handle-Calm ext e (accept_checkpoint k) o c s l q = on_accept_checkpoint-Calm P leads e k c s
  handle-Calm ext e (misdirected_client_request r) o c s l q = ground arith
  handle-Calm ext e (enter_commit p) o c s l q = ground arith
  handle-Calm ext e (init_view_change r) o c s l q = ground arith
  handle-Calm ext e (accept_new_view n) o c s l q = elim c [ ]
