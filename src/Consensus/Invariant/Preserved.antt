-- ===== src/Consensus/Invariant/Preserved.antt =====
-- src/consensus.rs: the invariant through the dispatch of `Consensus::spawn`.
use p_bft.Base.{◌+◌, ◌<◌, ◌≡◌, ◌≢◌, is_some, true, arith, usize_mod, nat_eq, pair_eq}
use p_bft.Collections.HashMap.{get}
use p_bft.External.{External}
use p_bft.State.{current_leader}
use p_bft.Messages.Message.{Message, identifier_message}
use p_bft.Messages.Command.{
  ConsensusCommand, process_message, misdirected_client_request, init_pre_prepare,
  accept_pre_prepare, rebroadcast_pre_prepare, accept_prepare, enter_commit, accept_commit,
  init_view_change, accept_view_change, accept_new_view, apply_commit, accept_checkpoint,
}
use p_bft.Consensus.Defs.{Consensus, panics, on_process_message}
use p_bft.Consensus.Proposals.{
  on_misdirected_client_request, on_init_pre_prepare, on_rebroadcast_pre_prepare,
  on_accept_pre_prepare,
}
use p_bft.Consensus.Votes.{on_accept_prepare, on_enter_commit, on_accept_commit}
use p_bft.Consensus.Changes.{on_init_view_change, on_accept_view_change, on_accept_new_view}
use p_bft.Consensus.Execution.{on_apply_commit}
use p_bft.Consensus.Handle.{handle}
use p_bft.Consensus.Invariant.Defs.{WellFormed}
use p_bft.Consensus.Invariant.Steps.{
  After, on_process_message-After, on_misdirected-After, on_init_pre_prepare-After,
  on_rebroadcast-After, on_accept_pre_prepare-After, on_accept_prepare-After, on_enter_commit-After,
  on_accept_commit-After,
}
use p_bft.Consensus.Invariant.Execution.{
  on_init_view_change-After, on_accept_view_change-After, on_accept_new_view-After,
  on_apply_commit-After,
}
use p_bft.Consensus.Invariant.Checkpoints.{on_accept_checkpoint-goes_on}

-- Whatever the command, if the engine goes on after it from a well-formed state, its state is well
-- formed again: proposals, votes and commits are filed under their own keys, no node is counted
-- twice, each checkpoint voter has a checkpoint at hand, and the stable sequence number is at most
-- the last one applied. The last applied sequence number is assumed to be below the top of its
-- type.
pub handle-WellFormed :
    (ext : External) (e : Consensus) (cmd : ConsensusCommand)
    → e.state.last_seq_num_committed + 1 < usize_mod
    → WellFormed e.state
    → After WellFormed (handle ext e cmd)
unfolding handle
handle-WellFormed ext e (process_message m) b w = on_process_message-After ext e m w
handle-WellFormed ext e (misdirected_client_request r) b w = on_misdirected-After e r w
handle-WellFormed ext e (init_pre_prepare r) b w = on_init_pre_prepare-After ext e r w
handle-WellFormed ext e (accept_pre_prepare p) b w = on_accept_pre_prepare-After ext e p w
handle-WellFormed ext e (rebroadcast_pre_prepare pair) b w = on_rebroadcast-After e pair w
handle-WellFormed ext e (accept_prepare p) b w = on_accept_prepare-After e p w
handle-WellFormed ext e (enter_commit p) b w = on_enter_commit-After ext e p w
handle-WellFormed ext e (accept_commit c) b w = on_accept_commit-After e c w
handle-WellFormed ext e (init_view_change r) b w = on_init_view_change-After ext e r w
handle-WellFormed ext e (accept_view_change v) b w = on_accept_view_change-After ext e v w
handle-WellFormed ext e (accept_new_view n) b w = on_accept_new_view-After e n w
handle-WellFormed ext e (apply_commit c) b w = on_apply_commit-After ext e c b w
handle-WellFormed ext e (accept_checkpoint c) b w = (on_accept_checkpoint-goes_on e c w).1

-- The one kind of message that the network task keeps to itself.
abbrev pub Passed : ConsensusCommand → Type 0
Passed (process_message (identifier_message m)) = ⊥
Passed _ = Unit {0}

process_message-ne-panics :
    (ext : External) (e : Consensus) (m : Message)
    → Passed (process_message m)
    → on_process_message ext e m ≢ panics
unfolding on_process_message
process_message-ne-panics ext e (identifier_message m) h p = absurd h
process_message-ne-panics ext e m h p = ground arith

-- No `unwrap` of the engine fails: from a well-formed state, with an address for the current leader,
-- no command makes the engine panic, but an identifier message, which it is never sent.
pub handle-ne-panics :
    (ext : External) (e : Consensus) (cmd : ConsensusCommand)
    → WellFormed e.state
    → is_some (get e.config.peer_addrs (current_leader e.state)) ≡ true
    → Passed cmd
    → handle ext e cmd ≢ panics
unfolding handle on_misdirected_client_request on_init_pre_prepare on_accept_pre_prepare
    on_rebroadcast_pre_prepare on_accept_prepare on_enter_commit on_accept_commit
    on_init_view_change on_accept_view_change on_accept_new_view on_apply_commit
handle-ne-panics ext e (process_message m) w a h = process_message-ne-panics ext e m h
handle-ne-panics ext e (accept_checkpoint c) w a h = (on_accept_checkpoint-goes_on e c w).0
handle-ne-panics ext e _ w a h = λ p. ground arith
