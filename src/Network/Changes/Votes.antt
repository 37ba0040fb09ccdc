-- ===== src/Network/Changes/Votes.antt =====
-- src/consensus.rs: votes for a view change, and the handlers that leave them.
use p_bft.Base.{
  ℕ, ◌*◌, ◌≤◌, ◌≡◌, true, false, List, [], ◌∷◌, map, All, All-append, All-map, arith, nat_eq,
  pair_eq, ltb, length,
}
use p_bft.Collections.BTreeMap.{bytes_eq}
use p_bft.Collections.HashMap.{HashMap, Entries, insert, keys}
use p_bft.Collections.HashMap.Laws.{insert-Entries}
use p_bft.Collections.HashMap.Keys.{keys-insert-IsDistinct, length-keys}
use p_bft.Collections.HashSet.{contains}
use p_bft.External.{External}
use p_bft.Messages.ClientRequest.{request_eq}
use p_bft.Messages.PrePrepare.{PrePrepare}
use p_bft.Messages.Prepare.{Prepare}
use p_bft.Messages.Commit.{Commit}
use p_bft.Messages.ViewChange.{ViewChange}
use p_bft.Messages.NewView.{NewView}
use p_bft.Messages.Message.{Message, identifier_message}
use p_bft.Messages.Command.{init_pre_prepare, accept_prepare, accept_commit}
use p_bft.Consensus.Defs.{Consensus, on_process_message}
use p_bft.Consensus.Proposals.{on_accept_pre_prepare}
use p_bft.Consensus.Votes.{on_accept_prepare, on_accept_commit, count_prepare, count_commit}
use p_bft.Consensus.Changes.{on_accept_view_change, on_accept_new_view}
use p_bft.Quorum.Pigeonhole.{length-le-subset}
use p_bft.Network.Calm.Defs.{Goes}
use p_bft.Network.Changes.Defs.{LateMessage, LateCommand, LateVotes, LateAfter}

module _ (late : List ℕ) where
  keys-All :
      (m : HashMap ℕ ViewChange)
      → Entries (λ id v. contains late id ≡ true) m
      → All (λ id. contains late id ≡ true) (keys m)
  keys-All [] h = tt
  keys-All (x ∷ m) h = (h.0, keys-All m h.1)

  module _ (ext : External) (e : Consensus) (s : LateVotes late e.state) where
    pub on_accept_view_change-Late :
        (v : ViewChange)
        → length late ≤ 2 * e.config.num_faulty
        → contains late v.id ≡ true
        → Goes (LateAfter late) (on_accept_view_change ext e v)
    unfolding on_accept_view_change
    on_accept_view_change-Late v few h =
        let votes = insert e.state.view_change_votes v.id v in
        let voters =
          insert-Entries (λ id v. contains late id ≡ true) e.state.view_change_votes v.id v s.voters
            h in
        let distinct = keys-insert-IsDistinct e.state.view_change_votes v.id v s.distinct in
        let small : length votes ≤ length late = omega (
          arith,
          length-keys votes,
          length-le-subset (keys votes) late distinct (keys-All votes voters),
        ) in
        let no_quorum : ltb (2 * e.config.num_faulty) (length votes) ≡ false = ground arith in
        rw no_quorum
          (record { state = record { voters = voters; distinct = distinct }; own = tt; told = tt })

    pub on_process_message-Late :
        (m : Message) → LateMessage late m → Goes (LateAfter late) (on_process_message ext e m)
    unfolding on_process_message
    on_process_message-Late (identifier_message m) h = tt
    on_process_message-Late m h = ground arith

    pub on_accept_prepare-Late : (p : Prepare) → Goes (LateAfter late) (on_accept_prepare e p)
    unfolding on_accept_prepare count_prepare
    on_accept_prepare-Late p = record {
      state = record { voters = s.voters; distinct = s.distinct };
      own =
          All-append (LateCommand late)
            (count_prepare e.config.num_faulty e.state.prepare_votes p).1 _ (ground arith)
            (All-map (LateCommand late) accept_commit (λ c. tt) _);
      told = tt;
    }

    pub on_accept_commit-Late : (c : Commit) → Goes (LateAfter late) (on_accept_commit e c)
    unfolding on_accept_commit count_commit
    on_accept_commit-Late c = record {
      state = record { voters = s.voters; distinct = s.distinct };
      own = ground arith;
      told = tt;
    }

    pub on_accept_pre_prepare-Late :
        (p : PrePrepare) → Goes (LateAfter late) (on_accept_pre_prepare ext e p)
    unfolding on_accept_pre_prepare
    on_accept_pre_prepare-Late p = record {
      state = record { voters = s.voters; distinct = s.distinct };
      own = All-map (LateCommand late) accept_prepare (λ q. tt) _;
      told = (tt, tt);
    }

    pub on_accept_new_view-Late : (n : NewView) → Goes (LateAfter late) (on_accept_new_view e n)
    unfolding on_accept_new_view
    on_accept_new_view-Late n = ground (
      arith,
      All-append (LateCommand late)
          (map (λ (p : PrePrepare). init_pre_prepare p.client_request) n.outstanding_pre_prepares)
          (map init_pre_prepare e.view_changer.wait_set)
          (All-map (LateCommand late) (λ (p : PrePrepare). init_pre_prepare p.client_request)
            (λ p. tt) n.outstanding_pre_prepares)
          (All-map (LateCommand late) init_pre_prepare (λ r. tt) e.view_changer.wait_set),
    )
