-- ===== src/Network/Bounds/Votes.antt =====
-- src/consensus.rs: messages, votes and commits, within the numbers used.
use p_bft.Base.{ℕ, All-append, All-map, map, ◌≤◌, arith, nat_eq, pair_eq}
use p_bft.Collections.HashMap.Laws.{insert-Entries}
use p_bft.External.{External}
use p_bft.Messages.PrePrepare.{PrePrepare}
use p_bft.Messages.ClientRequest.{ClientRequest, request_eq}
use p_bft.Collections.BTreeMap.{bytes_eq}
use p_bft.Messages.Commit.{Commit}
use p_bft.Messages.Message.{Message, identifier_message}
use p_bft.Messages.Command.{init_pre_prepare, accept_prepare, accept_commit, apply_commit}
use p_bft.State.{State}
use p_bft.State
use p_bft.Consensus.Defs.{Consensus, on_process_message}
use p_bft.Consensus.Proposals.{on_accept_pre_prepare}
use p_bft.Messages.Prepare.{Prepare}
use p_bft.Messages.NewView.{NewView}
use p_bft.Network.Calm.Defs.{Goes}
use p_bft.Consensus.Votes.{count_prepare, count_commit, on_accept_prepare, on_accept_commit}
use p_bft.Consensus.Changes.{on_accept_new_view}
use p_bft.Consensus.Execution.{apply_in_order}
use p_bft.Network.Bounds.Defs.{LowMessage, LowCommand, Within, WithinAfter}

module _ (top : ℕ) (ext : External) (e : Consensus) (s : Within top e.state) where
  pub on_process_message-Within :
      (m : Message) → LowMessage top m → Goes (WithinAfter top) (on_process_message ext e m)
  unfolding on_process_message
  on_process_message-Within (identifier_message m) h = tt
  on_process_message-Within m h = ground arith

  pub on_accept_prepare-Within : (p : Prepare) → Goes (WithinAfter top) (on_accept_prepare e p)
  unfolding on_accept_prepare count_prepare
  on_accept_prepare-Within p = record {
    state = record { applied = s.applied; log = s.log };
    own =
        All-append (LowCommand top) (count_prepare e.config.num_faulty e.state.prepare_votes p).1 _
          (ground arith) (All-map (LowCommand top) accept_commit (λ c. tt) _);
    told = tt;
  }

  pub on_accept_commit-Within : (c : Commit) → Goes (WithinAfter top) (on_accept_commit e c)
  unfolding on_accept_commit count_commit
  on_accept_commit-Within c = record {
    state = record { applied = s.applied; log = s.log };
    own = ground arith;
    told = tt;
  }

  pub on_accept_pre_prepare-Within :
      (p : PrePrepare) → p.seq_num ≤ top → Goes (WithinAfter top) (on_accept_pre_prepare ext e p)
  unfolding on_accept_pre_prepare
  on_accept_pre_prepare-Within p h = record {
    state = record {
      applied = s.applied;
      log =
          insert-Entries (λ pair p. pair.1 ≤ top) e.state.message_bank.accepted_pre_prepare_requests
            (p.view, p.seq_num) p s.log h;
    };
    own = All-map (LowCommand top) accept_prepare (λ q. tt) _;
    told = (tt, tt);
  }

  pub on_accept_new_view-Within : (n : NewView) → Goes (WithinAfter top) (on_accept_new_view e n)
  unfolding on_accept_new_view
  on_accept_new_view-Within n = ground (
    arith,
    All-append (LowCommand top)
        (map (λ (p : PrePrepare). init_pre_prepare p.client_request) n.outstanding_pre_prepares)
        (map init_pre_prepare e.view_changer.wait_set)
        (All-map (LowCommand top) (λ (p : PrePrepare). init_pre_prepare p.client_request) (λ p. tt)
          n.outstanding_pre_prepares)
        (All-map (LowCommand top) init_pre_prepare (λ r. tt) e.view_changer.wait_set),
  )

  pub apply_in_order-Within :
      (c : Commit) (r : ClientRequest)
      → c.seq_num ≤ top
      → let (e', effects) = apply_in_order ext e c r in WithinAfter top e' effects
  unfolding apply_in_order State.apply_commit State.applied
  apply_in_order-Within c r h = ground (
    arith,
    All-map (LowCommand top) apply_commit (λ d. tt)
        (State.get_next_consecutive_commits (State.applied e.state r c)),
  )
