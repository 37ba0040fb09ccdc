-- ===== src/MessageBank.antt =====
-- src/message_bank.rs: the log of messages, and its garbage collection.
pub mod Collect
use p_bft.Base.{ℕ, List, [], ◌∷◌, map, ltb, keep, if◌then◌else◌, ◌&&◌, nat_eq, pair_eq}
use p_bft.Collections.BTreeMap.{Bytes}
use p_bft.Collections.HashMap
use p_bft.Collections.HashMap.{HashMap}
use p_bft.Collections.HashSet.{HashSet}
use p_bft.Messages.ClientRequest.{ClientRequest}
use p_bft.Messages.PrePrepare.{PrePrepare}
use p_bft.Messages.Prepare.{Prepare}
use p_bft.Messages.Commit.{Commit}
use p_bft.Messages.CheckPoint.{CheckPoint}

pub record MessageBank : Type 0 where
  pub sent_requests : HashSet (ℕ × ClientRequest)
  pub accepted_pre_prepare_requests : HashMap (ℕ × ℕ) PrePrepare
  pub outstanding_prepares : HashSet Prepare
  pub outstanding_commits : HashSet Commit
  pub accepted_commits_not_applied : HashMap ℕ Commit
  pub applied_commits : HashMap ℕ (Commit × ClientRequest)
  pub checkpoint_messages : HashMap (ℕ × Bytes) CheckPoint

-- `MessageBank::default()`
abbrev pub empty : MessageBank
empty = record {
  sent_requests = [];
  accepted_pre_prepare_requests = [];
  outstanding_prepares = [];
  outstanding_commits = [];
  accepted_commits_not_applied = [];
  applied_commits = [];
  checkpoint_messages = [];
}

-- the first loop: the keys below the bound
old_pairs : ℕ → HashMap (ℕ × ℕ) PrePrepare → List (ℕ × ℕ)
old_pairs upper [] = []
old_pairs upper (((view, seq_num), p) ∷ m) =
    if ltb seq_num upper then (view, seq_num) ∷ old_pairs upper m else old_pairs upper m

-- the second loop
remove_all : List (ℕ × ℕ) → HashMap (ℕ × ℕ) PrePrepare → HashMap (ℕ × ℕ) PrePrepare
remove_all [] m = m
remove_all (k ∷ ks) m = remove_all ks (HashMap.remove m k)

unfoldable pub garbage_collect : MessageBank → ℕ → MessageBank
unfolding old_pairs remove_all
garbage_collect bank upper = record bank {
  accepted_pre_prepare_requests =
      remove_all (old_pairs upper bank.accepted_pre_prepare_requests)
        bank.accepted_pre_prepare_requests;
}
