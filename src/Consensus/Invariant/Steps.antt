-- ===== src/Consensus/Invariant/Steps.antt =====
-- src/consensus.rs: the invariant through each handler.
use p_bft.Base.{ℕ, refl, [], nat_eq, pair_eq, arith, Option-cases, inl, inr, List}
use p_bft.Collections.HashMap.{HashMap, Entries, get, insert}
use p_bft.Collections.HashMap.Laws.{insert-Entries, get-Entries}
use p_bft.Collections.HashMap.Keys.{keys-insert-IsDistinct}
use p_bft.Collections.HashSet.Laws.{IsDistinct, insert-IsDistinct}
use p_bft.External.{External}
use p_bft.State.{State}
use p_bft.Messages.Prepare.{Prepare}
use p_bft.Messages.PrePrepare.{PrePrepare}
use p_bft.Messages.Commit.{Commit}
use p_bft.Messages.ClientRequest.{ClientRequest}
use p_bft.Messages.Message.{
  Message, identifier_message, pre_prepare_message, prepare_message, commit_message,
  view_change_message, new_view_message, check_point_message, client_request_message,
  client_response_message,
}
use p_bft.Consensus.Defs.{Consensus, Outcome, continues, returns, panics, on_process_message}
use p_bft.Consensus.Proposals.{
  on_misdirected_client_request, on_init_pre_prepare, on_rebroadcast_pre_prepare,
  on_accept_pre_prepare,
}
use p_bft.Consensus.Votes.{
  count_prepare, count_commit, on_accept_prepare, on_enter_commit, on_accept_commit,
}
use p_bft.Consensus.Invariant.Defs.{FiledProposal, FiledVote, PrepareVotes, CommitVotes, WellFormed}

-- What holds of the state that a handler leaves, if it goes on.
abbrev pub After {ℓ} : (State → Type ℓ) → Outcome → Type ℓ
After P (continues e effects) = P e.state
After P returns = Unit
After P panics = Unit

pub on_process_message-After :
    (ext : External) (e : Consensus) (m : Message)
    → WellFormed e.state
    → After WellFormed (on_process_message ext e m)
unfolding on_process_message
on_process_message-After ext e (identifier_message m) w = tt
on_process_message-After ext e (pre_prepare_message m) w = ground arith
on_process_message-After ext e (prepare_message m) w = ground arith
on_process_message-After ext e (commit_message m) w = ground arith
on_process_message-After ext e (view_change_message m) w = ground arith
on_process_message-After ext e (new_view_message m) w = ground arith
on_process_message-After ext e (check_point_message m) w = ground arith
on_process_message-After ext e (client_request_message m) w = ground arith
on_process_message-After ext e (client_response_message m) w = w

pub on_misdirected-After :
    (e : Consensus) (r : ClientRequest)
    → WellFormed e.state
    → After WellFormed (on_misdirected_client_request e r)
unfolding on_misdirected_client_request
on_misdirected-After e r w = ground arith

pub on_init_pre_prepare-After :
    (ext : External) (e : Consensus) (r : ClientRequest)
    → WellFormed e.state
    → After WellFormed (on_init_pre_prepare ext e r)
unfolding on_init_pre_prepare
on_init_pre_prepare-After ext e r w = ground arith

pub on_rebroadcast-After :
    (e : Consensus) (pair : ℕ × ℕ)
    → WellFormed e.state
    → After WellFormed (on_rebroadcast_pre_prepare e pair)
unfolding on_rebroadcast_pre_prepare
on_rebroadcast-After e pair w = ground arith

pub on_accept_pre_prepare-After :
    (ext : External) (e : Consensus) (p : PrePrepare)
    → WellFormed e.state
    → After WellFormed (on_accept_pre_prepare ext e p)
unfolding on_accept_pre_prepare
on_accept_pre_prepare-After ext e p w = ground (
  arith,
  insert-Entries FiledProposal e.state.message_bank.accepted_pre_prepare_requests
      (p.view, p.seq_num) p w.log refl,
)

count_prepare-Entries :
    (f : ℕ) (votes : HashMap (ℕ × ℕ) (HashMap ℕ Prepare)) (p : Prepare)
    → Entries PrepareVotes votes
    → Entries PrepareVotes (count_prepare f votes p).0
unfolding count_prepare IsDistinct
count_prepare-Entries f votes p w = elim (Option-cases (get votes (p.view, p.seq_num))) [
  | inl e ↦
      rw (e, count_prepare)
        (insert-Entries PrepareVotes votes (p.view, p.seq_num) (insert [] p.id p) w
          (
            keys-insert-IsDistinct [] p.id p tt,
            insert-Entries (FiledVote (p.view, p.seq_num)) [] p.id p tt (refl, refl),
          ))
  | inr (voters, e) ↦
      let old = get-Entries PrepareVotes votes (p.view, p.seq_num) voters w e in
      rw (e, count_prepare)
        (insert-Entries PrepareVotes votes (p.view, p.seq_num) (insert voters p.id p) w
          (
            keys-insert-IsDistinct voters p.id p old.0,
            insert-Entries (FiledVote (p.view, p.seq_num)) voters p.id p old.1 (refl, refl),
          ))
]

pub on_accept_prepare-After :
    (e : Consensus) (p : Prepare) → WellFormed e.state → After WellFormed (on_accept_prepare e p)
unfolding on_accept_prepare
on_accept_prepare-After e p w =
    ground (arith, count_prepare-Entries e.config.num_faulty e.state.prepare_votes p w.prepares)

pub on_enter_commit-After :
    (ext : External) (e : Consensus) (p : Prepare)
    → WellFormed e.state
    → After WellFormed (on_enter_commit ext e p)
unfolding on_enter_commit
on_enter_commit-After ext e p w = w

count_commit-Entries :
    (f : ℕ) (votes : HashMap (ℕ × ℕ) (List ℕ)) (c : Commit)
    → Entries CommitVotes votes
    → Entries CommitVotes (count_commit f votes c).0
unfolding count_commit IsDistinct
count_commit-Entries f votes c w = elim (Option-cases (get votes (c.view, c.seq_num))) [
  | inl e ↦
      rw (e, count_commit)
        (insert-Entries CommitVotes votes (c.view, c.seq_num) _ w (insert-IsDistinct [] c.id tt))
  | inr (voters, e) ↦
      rw (e, count_commit)
        (insert-Entries CommitVotes votes (c.view, c.seq_num) _ w
          (insert-IsDistinct voters c.id
            (get-Entries CommitVotes votes (c.view, c.seq_num) voters w e)))
]

pub on_accept_commit-After :
    (e : Consensus) (c : Commit) → WellFormed e.state → After WellFormed (on_accept_commit e c)
unfolding on_accept_commit
on_accept_commit-After e c w =
    ground (arith, count_commit-Entries e.config.num_faulty e.state.commit_votes c w.commits)
