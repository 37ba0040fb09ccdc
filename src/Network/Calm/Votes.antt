-- ===== src/Network/Calm/Votes.antt =====
-- src/consensus.rs: proposals and votes, while no view change completes.
use p_bft.Base.{
  ℕ, ◌≡◌, refl, All, All-append, All-map, arith, nat_eq, pair_eq, Option-cases, inl, inr,
}
use p_bft.Collections.BTreeMap.{bytes_eq}
use p_bft.Collections.HashMap.{get}
use p_bft.Collections.HashMap.Laws.{insert-Entries, get-Entries}
use p_bft.External.{External}
use p_bft.Messages.PrePrepare.{PrePrepare}
use p_bft.Messages.Message.{Message, client_request_message, identifier_message}
use p_bft.Messages.Command.{accept_prepare, accept_commit}
use p_bft.State.{State, current_leader}
use p_bft.Consensus.Defs.{Consensus, sent, on_process_message}
use p_bft.Consensus.Proposals.{on_rebroadcast_pre_prepare, on_accept_pre_prepare}
use p_bft.Consensus.Votes.{on_accept_prepare, count_prepare, count_commit}
use p_bft.Consensus.Changes.{on_accept_view_change}
use p_bft.Messages.Prepare.{Prepare}
use p_bft.Messages.Commit.{Commit}
use p_bft.Messages.ViewChange.{ViewChange}
use p_bft.Network.Calm.Defs.{Goes, NoNewView, Calm, CalmState, CalmCommand, CalmAfter}

module _ (P : PrePrepare → Type 0) (leads : Type 0) where
  pub on_process_message-Calm :
      (ext : External) (e : Consensus) (m : Message)
      → Calm P m
      → CalmState P e.state
      → (e.id ≡ current_leader e.state → leads)
      → Goes (CalmAfter P leads e.state.seq_num) (on_process_message ext e m)
  unfolding on_process_message
  on_process_message-Calm ext e (identifier_message m) c s l = tt
  on_process_message-Calm ext e (client_request_message r) c s l = ground arith
  on_process_message-Calm ext e m c s l = ground arith

  count_prepare-Calm :
      (f : ℕ) (s : State) (p : Prepare)
      → All (CalmCommand P leads) (count_prepare f s.prepare_votes p).1
  unfolding count_prepare
  count_prepare-Calm f s p = ground arith

  pub count_commit-Calm :
      (f : ℕ) (s : State) (c : Commit)
      → All (CalmCommand P leads) (count_commit f s.commit_votes c).1
  unfolding count_commit
  count_commit-Calm f s c = ground arith

  pub on_accept_prepare-Calm :
      (e : Consensus) (p : Prepare)
      → CalmState P e.state
      → Goes (CalmAfter P leads e.state.seq_num) (on_accept_prepare e p)
  unfolding on_accept_prepare
  on_accept_prepare-Calm e p s = record {
    state = record { view = s.view; log = s.log };
    seq = refl;
    own =
        All-append (CalmCommand P leads)
          (count_prepare e.config.num_faulty e.state.prepare_votes p).1 _
          (count_prepare-Calm e.config.num_faulty e.state p)
          (All-map (CalmCommand P leads) accept_commit (λ c. tt) _);
    told = tt;
  }

  pub on_accept_pre_prepare-Calm :
      (ext : External) (e : Consensus) (p : PrePrepare)
      → P p
      → CalmState P e.state
      → Goes (CalmAfter P leads e.state.seq_num) (on_accept_pre_prepare ext e p)
  unfolding on_accept_pre_prepare
  on_accept_pre_prepare-Calm ext e p c s = record {
    state = record {
      view = s.view;
      log =
          insert-Entries (λ pair p. P p) e.state.message_bank.accepted_pre_prepare_requests
            (p.view, p.seq_num) p s.log c;
    };
    seq = refl;
    own = All-map (CalmCommand P leads) accept_prepare (λ q. tt) _;
    told = (tt, tt);
  }

  pub on_rebroadcast_pre_prepare-Calm :
      (e : Consensus) (pair : ℕ × ℕ)
      → CalmState P e.state
      → Goes (CalmAfter P leads e.state.seq_num) (on_rebroadcast_pre_prepare e pair)
  unfolding on_rebroadcast_pre_prepare
  on_rebroadcast_pre_prepare-Calm e pair s =
      elim (Option-cases (get e.state.message_bank.accepted_pre_prepare_requests pair)) [
        | inl n ↦ rw (n, on_rebroadcast_pre_prepare) tt
        | inr (p, h) ↦
            rw (h, on_rebroadcast_pre_prepare)
              (record {
                state = s;
                seq = refl;
                own = tt;
                told = (
                  get-Entries (λ pair p. P p) e.state.message_bank.accepted_pre_prepare_requests
                      pair p s.log h,
                  tt,
                );
              })
      ]

  -- Without a new view, the votes for a view change are only counted.
  pub on_accept_view_change-Calm :
      (ext : External) (e : Consensus) (v : ViewChange)
      → CalmState P e.state
      → All NoNewView (sent (on_accept_view_change ext e v)).to_node
      → Goes (CalmAfter P leads e.state.seq_num) (on_accept_view_change ext e v)
  unfolding on_accept_view_change
  on_accept_view_change-Calm ext e v s q = ground arith
