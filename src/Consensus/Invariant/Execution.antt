-- ===== src/Consensus/Invariant/Execution.antt =====
-- src/consensus.rs: the invariant through view changes and commits.
use p_bft.Base.{◌+◌, ◌≤◌, refl, nat_eq, pair_eq, arith, Option-cases, inl, inr, ◌<◌, usize_mod}
use p_bft.Collections.BTreeMap.{bytes_eq}
use p_bft.Collections.HashMap.{get}
use p_bft.Collections.HashMap.Laws.{insert-Entries, remove-Entries}
use p_bft.Collections.HashMap.Keys.{keys-insert-IsDistinct}
use p_bft.External.{External}
use p_bft.State.{State, applied, apply_commit}
use p_bft.Messages.Commit.{Commit}
use p_bft.Messages.ViewChange.{ViewChange}
use p_bft.Messages.NewView.{NewView}
use p_bft.Messages.ClientRequest.{ClientRequest}
use p_bft.Consensus.Defs.{Consensus}
use p_bft.Consensus.Changes.{on_init_view_change, on_accept_view_change, on_accept_new_view}
use p_bft.Consensus.Execution.{apply_in_order, on_apply_commit}
use p_bft.Consensus.Invariant.Defs.{FiledChange, FiledCommit, FiledApplied, WellFormed}
use p_bft.Consensus.Invariant.Steps.{After}

pub on_init_view_change-After :
    (ext : External) (e : Consensus) (r : ClientRequest)
    → WellFormed e.state
    → After WellFormed (on_init_view_change ext e r)
unfolding on_init_view_change
on_init_view_change-After ext e r w = ground arith

pub on_accept_view_change-After :
    (ext : External) (e : Consensus) (v : ViewChange)
    → WellFormed e.state
    → After WellFormed (on_accept_view_change ext e v)
unfolding on_accept_view_change
on_accept_view_change-After ext e v w = ground (
  arith,
  insert-Entries FiledChange e.state.view_change_votes v.id v w.changes refl,
  keys-insert-IsDistinct e.state.view_change_votes v.id v w.changers,
)

pub on_accept_new_view-After :
    (e : Consensus) (n : NewView) → WellFormed e.state → After WellFormed (on_accept_new_view e n)
unfolding on_accept_new_view
on_accept_new_view-After e n w = ground arith

-- The next commit: filed under its number, and above the stable one.
applied-WellFormed :
    (s : State) (r : ClientRequest) (c : Commit)
    → s.last_stable_seq_num ≤ c.seq_num
    → WellFormed s
    → WellFormed (applied s r c)
unfolding applied
applied-WellFormed s r c h w = record {
  log = w.log;
  prepares = w.prepares;
  commits = w.commits;
  checkpoints = w.checkpoints;
  buffered =
      remove-Entries FiledCommit s.message_bank.accepted_commits_not_applied c.seq_num w.buffered;
  applied =
      insert-Entries FiledApplied s.message_bank.applied_commits c.seq_num (c, r) w.applied refl;
  changes = w.changes;
  changers = w.changers;
  stable = h;
}

apply_in_order-WellFormed :
    (ext : External) (e : Consensus) (c : Commit) (r : ClientRequest)
    → e.state.last_seq_num_committed + 1 < usize_mod
    → WellFormed e.state
    → WellFormed (apply_in_order ext e c r).0.state
unfolding apply_in_order apply_commit
apply_in_order-WellFormed ext e c r b w = ground (
  arith,
  applied-WellFormed e.state r c,
  insert-Entries FiledCommit e.state.message_bank.accepted_commits_not_applied c.seq_num c
      w.buffered refl,
)

pub on_apply_commit-After :
    (ext : External) (e : Consensus) (c : Commit)
    → e.state.last_seq_num_committed + 1 < usize_mod
    → WellFormed e.state
    → After WellFormed (on_apply_commit ext e c)
unfolding on_apply_commit
on_apply_commit-After ext e c b w =
    elim (Option-cases
      (get e.state.message_bank.accepted_pre_prepare_requests (c.view, c.seq_num))) [
        | inl n ↦ rw (n, on_apply_commit) w
        | inr (p, s) ↦
            rw (s, on_apply_commit) (apply_in_order-WellFormed ext e c p.client_request b w)
      ]
