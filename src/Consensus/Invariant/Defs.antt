-- ===== src/Consensus/Invariant/Defs.antt =====
-- src/state.rs: what each field of a replica's state promises about the others.
use p_bft.Base.{ℕ, ◌≤◌, ◌≡◌, true, is_some, All, nat_eq, arith}
use p_bft.Collections.BTreeMap.{Bytes}
use p_bft.Collections.HashMap.{HashMap, Entries, get, keys}
use p_bft.Collections.HashSet.{HashSet}
use p_bft.Collections.HashSet.Laws.{IsDistinct}
use p_bft.Config.{Config}
use p_bft.Messages.ClientRequest.{ClientRequest}
use p_bft.Messages.PrePrepare.{PrePrepare}
use p_bft.Messages.Prepare.{Prepare}
use p_bft.Messages.Commit.{Commit}
use p_bft.Messages.CheckPoint.{CheckPoint}
use p_bft.Messages.ViewChange.{ViewChange}
use p_bft.State.{State, initial}

-- a proposal is filed under its view and sequence number
abbrev pub FiledProposal : ℕ × ℕ → PrePrepare → Type 0
FiledProposal pair p = (p.view, p.seq_num) ≡ pair

-- a vote is filed under its sender, in the vote set of its view and sequence number
abbrev pub FiledVote : ℕ × ℕ → ℕ → Prepare → Type 0
FiledVote pair id p = (p.id ≡ id) × ((p.view, p.seq_num) ≡ pair)

abbrev pub PrepareVotes : ℕ × ℕ → HashMap ℕ Prepare → Type 0
PrepareVotes pair votes = IsDistinct (keys votes) × Entries (FiledVote pair) votes

abbrev pub CommitVotes : ℕ × ℕ → HashSet ℕ → Type 0
CommitVotes pair voters = IsDistinct voters

-- each voter's latest checkpoint is at hand
abbrev pub HasCheckpoint : HashMap ℕ CheckPoint → ℕ → Type 0
HasCheckpoint round id = is_some (get round id) ≡ true

abbrev pub CheckpointVotes : HashMap ℕ CheckPoint → ℕ × Bytes → HashSet ℕ → Type 0
CheckpointVotes round pair voters = IsDistinct voters × All (HasCheckpoint round) voters

abbrev pub FiledCommit : ℕ → Commit → Type 0
FiledCommit n c = c.seq_num ≡ n

abbrev pub FiledApplied : ℕ → Commit × ClientRequest → Type 0
FiledApplied n x = x.0.seq_num ≡ n

abbrev pub FiledChange : ℕ → ViewChange → Type 0
FiledChange id v = v.id ≡ id

pub record WellFormed (s : State) : Type 0 where
  pub log : Entries FiledProposal s.message_bank.accepted_pre_prepare_requests
  pub prepares : Entries PrepareVotes s.prepare_votes
  pub commits : Entries CommitVotes s.commit_votes
  pub checkpoints : Entries (CheckpointVotes s.checkpoints_current_round) s.checkpoint_votes
  pub buffered : Entries FiledCommit s.message_bank.accepted_commits_not_applied
  pub applied : Entries FiledApplied s.message_bank.applied_commits
  pub changes : Entries FiledChange s.view_change_votes
  pub changers : IsDistinct (keys s.view_change_votes)
  pub stable : s.last_stable_seq_num ≤ s.last_seq_num_committed

-- A new replica's state is well formed.
pub initial-WellFormed : (config : Config) (id : ℕ) → WellFormed (initial config id)
unfolding IsDistinct
initial-WellFormed config id = record {
  log = tt;
  prepares = tt;
  commits = tt;
  checkpoints = tt;
  buffered = tt;
  applied = tt;
  changes = tt;
  changers = tt;
  stable = omega arith;
}
