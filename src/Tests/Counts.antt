-- ===== src/Tests/Counts.antt =====
-- Votes, and what they set off.
use p_bft.Base.{
  ℕ, ◌<◌, ◌≡◌, refl, List, [], ◌∷◌, ◌++◌, arith, nat_eq, pair_eq, pair_beq, is_some, length, map,
  keep,
}
use p_bft.Collections.BTreeMap.{bytes_eq}
use p_bft.Collections.HashMap
use p_bft.Collections.HashMap.{HashMap, keys, get}
use p_bft.Collections.HashSet
use p_bft.Collections.HashSet.{HashSet}
use p_bft.Collections.HashSet.Laws.{IsDistinct}
use p_bft.Messages.PrePrepare
use p_bft.Messages.Prepare.{Prepare}
use p_bft.Messages.Commit
use p_bft.Messages.Commit.{Commit, corresponds_to}
use p_bft.Messages.Command.{apply_commit, accept_commit, enter_commit}
use p_bft.MessageBank
use p_bft.State.{initial}
use p_bft.Consensus.Defs.{Consensus, after, sends, continues, with_state}
use p_bft.Consensus.Votes.{on_accept_commit, on_accept_prepare}
use p_bft.Consensus.Invariant.Defs.{WellFormed}
use p_bft.Quorum.Pigeonhole.{Below, common}
use p_bft.Quorum.Counting.{
  on_accept_commit_exact, on_accept_prepare_exact, on_quorum, Filed, FiledPrepare,
}
use p_bft.Quorum.Intersection.{quorums_overlap, Executes, VotersOf}
use p_bft.Tests.World.{cluster, replica, proposal, prepare_of, commit_of}

-- a replica in which these nodes have voted to commit the first request
abbrev voted : List ℕ → Consensus
voted ids = with_state (replica 1) (record (initial cluster 1) {
  commit_votes = ((0, 1), ids) ∷ [];
  message_bank = record MessageBank.empty {
    accepted_pre_prepare_requests = ((0, 1), proposal 1 5) ∷ [];
  };
})

voted-WellFormed : (ids : List ℕ) → IsDistinct ids → WellFormed (voted ids).state
unfolding PrePrepare.new_with_signature IsDistinct
voted-WellFormed ids d = record {
  log = (refl, tt);
  prepares = tt;
  commits = (d, tt);
  checkpoints = tt;
  buffered = tt;
  applied = tt;
  changes = tt;
  changers = tt;
  stable = omega arith;
}

abbrev pub left_ids : HashSet ℕ
left_ids = 1 ∷ 2 ∷ []

abbrev right_ids : HashSet ℕ
right_ids = 0 ∷ 1 ∷ []

abbrev pub left : Consensus
left = voted left_ids

abbrev right : Consensus
right = voted right_ids

left-IsDistinct : IsDistinct left_ids
unfolding IsDistinct HashSet.contains
left-IsDistinct = (refl, (refl, tt))

right-IsDistinct : IsDistinct right_ids
unfolding IsDistinct HashSet.contains
right-IsDistinct = (refl, (refl, tt))

left-Executes : Executes left (commit_of 3 1 5)
unfolding on_accept_commit p_bft.Consensus.Votes.count_commit get pair_beq Commit.new_with_signature
    HashSet.insert HashSet.contains
left-Executes = refl

right-Executes : Executes right (commit_of 2 1 5)
unfolding on_accept_commit p_bft.Consensus.Votes.count_commit get pair_beq Commit.new_with_signature
    HashSet.insert HashSet.contains
right-Executes = refl

left_voters : VotersOf left (commit_of 3 1 5) (1 ∷ 2 ∷ 3 ∷ [])
unfolding get on_accept_commit p_bft.Consensus.Votes.count_commit pair_beq Commit.new_with_signature
    HashMap.insert HashSet.insert HashSet.contains
left_voters = refl

right_voters : VotersOf right (commit_of 2 1 5) (0 ∷ 1 ∷ 2 ∷ [])
unfolding get on_accept_commit p_bft.Consensus.Votes.count_commit pair_beq Commit.new_with_signature
    HashMap.insert HashSet.insert HashSet.contains
right_voters = refl

left-Below : Below 4 (1 ∷ 2 ∷ 3 ∷ [])
left-Below = (omega arith, (omega arith, (omega arith, tt)))

right-Below : Below 4 (0 ∷ 1 ∷ 2 ∷ [])
right-Below = (omega arith, (omega arith, (omega arith, tt)))

quorums_overlap_example : 1 < length (common (1 ∷ 2 ∷ 3 ∷ []) (0 ∷ 1 ∷ 2 ∷ []))
quorums_overlap_example =
    quorums_overlap 4 1 left right (commit_of 3 1 5) (commit_of 2 1 5) (1 ∷ 2 ∷ 3 ∷ [])
      (0 ∷ 1 ∷ 2 ∷ []) (omega arith) refl refl (voted-WellFormed left_ids left-IsDistinct)
      (voted-WellFormed right_ids right-IsDistinct) left-Executes right-Executes left_voters
      right_voters left-Below right-Below

-- the commit that completes the quorum on the left
abbrev pub third : Commit
third = commit_of 3 1 5

on_accept_commit_exact_example :
    let e' = after left (on_accept_commit left third) in
    let pair : ℕ × ℕ = (third.view, third.seq_num) in
    (voters : HashSet ℕ) × Filed left.state.commit_votes e'.state.commit_votes pair third.id voters
    × (on_accept_commit left third
        ≡ continues e' (
            sends (
              on_quorum
                (is_some (get left.state.commit_votes pair))
                left.config.num_faulty
                (length voters)
                (apply_commit third))))
on_accept_commit_exact_example =
    on_accept_commit_exact left third (voted-WellFormed left_ids left-IsDistinct)

on_accept_prepare_exact_example :
    let p = prepare_of 3 1 5 in
    let e' = after left (on_accept_prepare left p) in
    let pair : ℕ × ℕ = (p.view, p.seq_num) in
    (voters : HashMap ℕ Prepare) × FiledPrepare left.state.prepare_votes e'.state.prepare_votes pair
      p voters
    × (on_accept_prepare left p
        ≡ continues e' (
            sends (
              on_quorum
                (is_some (get left.state.prepare_votes pair))
                left.config.num_faulty
                (length voters)
                (enter_commit p)
              ++ map accept_commit
                  (keep (λ c. corresponds_to c p) left.state.message_bank.outstanding_commits))))
on_accept_prepare_exact_example =
    on_accept_prepare_exact left (prepare_of 3 1 5) (voted-WellFormed left_ids left-IsDistinct)
