-- ===== src/Consensus/Handle.antt =====
-- src/consensus.rs, `Consensus::spawn`: one round of the loop, by the command received.
use p_bft.Base.{◌≡◌, refl, ◌⊎◌, inl, inr}
use p_bft.External.{External}
use p_bft.Messages.Command.{
  ConsensusCommand, process_message, misdirected_client_request, init_pre_prepare,
  accept_pre_prepare, rebroadcast_pre_prepare, accept_prepare, enter_commit, accept_commit,
  init_view_change, accept_view_change, accept_new_view, apply_commit, accept_checkpoint,
}
use p_bft.Consensus.Defs.{
  Consensus, Effects, Outcome, continues, returns, panics, on_process_message,
}
use p_bft.Consensus.Proposals.{
  on_misdirected_client_request, on_init_pre_prepare, on_rebroadcast_pre_prepare,
  on_accept_pre_prepare,
}
use p_bft.Consensus.Votes.{on_accept_prepare, on_enter_commit, on_accept_commit}
use p_bft.Consensus.Changes.{on_init_view_change, on_accept_view_change, on_accept_new_view}
use p_bft.Consensus.Execution.{on_apply_commit, on_accept_checkpoint}

unfoldable pub handle : External → Consensus → ConsensusCommand → Outcome
handle ext e (process_message m) = on_process_message ext e m
handle ext e (misdirected_client_request r) = on_misdirected_client_request e r
handle ext e (init_pre_prepare r) = on_init_pre_prepare ext e r
handle ext e (rebroadcast_pre_prepare pair) = on_rebroadcast_pre_prepare e pair
handle ext e (accept_pre_prepare p) = on_accept_pre_prepare ext e p
handle ext e (accept_prepare p) = on_accept_prepare e p
handle ext e (enter_commit p) = on_enter_commit ext e p
handle ext e (accept_commit c) = on_accept_commit e c
handle ext e (init_view_change r) = on_init_view_change ext e r
handle ext e (accept_view_change v) = on_accept_view_change ext e v
handle ext e (accept_new_view n) = on_accept_new_view e n
handle ext e (apply_commit c) = on_apply_commit ext e c
handle ext e (accept_checkpoint c) = on_accept_checkpoint e c

pub Outcome-cases :
    (o : Outcome)
    → ((e : Consensus) × (fx : Effects) × (o ≡ continues e fx)) ⊎ ((o ≡ returns) ⊎ (o ≡ panics))
Outcome-cases (continues e fx) = inl (e, fx, refl)
Outcome-cases returns = inr (inl refl)
Outcome-cases panics = inr (inr refl)
