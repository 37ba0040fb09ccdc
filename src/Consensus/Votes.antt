-- ===== src/Consensus/Votes.antt =====
-- src/consensus.rs: counting prepares, commits and view changes, and what a quorum sets off.
use p_bft.Base.{
  ℕ, ◌*◌, none, some, List, [], ◌∷◌, ◌++◌, nat_eq, pair_eq, ltb, length, if◌then◌else◌, map, keep,
}
use p_bft.Collections.BTreeMap.{bytes_eq}
use p_bft.Collections.HashMap
use p_bft.Collections.HashMap.{HashMap, values}
use p_bft.Collections.HashSet
use p_bft.Collections.HashSet.{HashSet}
use p_bft.External.{External}
use p_bft.Messages.Prepare.{Prepare, prepare_eq}
use p_bft.Messages.Commit
use p_bft.Messages.Commit.{Commit, commit_eq, corresponds_to}
use p_bft.Messages.Message.{commit_message}
use p_bft.Messages.Command.{
  broad_cast_message, ConsensusCommand, accept_commit, enter_commit, apply_commit,
}
use p_bft.Consensus.Defs.{Consensus, Outcome, continues, sends, tells, with_state}

-- `prepare_votes` with one more vote, and whether the vote set was there and is a quorum now.
unfoldable pub count_prepare :
    ℕ
    → HashMap (ℕ × ℕ) (HashMap ℕ Prepare)
    → Prepare
    → HashMap (ℕ × ℕ) (HashMap ℕ Prepare) × List ConsensusCommand
count_prepare num_faulty votes p =
    let pair : ℕ × ℕ = (p.view, p.seq_num) in
    elim (HashMap.get votes pair) [
      | none ↦ (HashMap.insert votes pair (HashMap.insert [] p.id p), [])
      | some curr_vote_set ↦
          let voted = HashMap.insert curr_vote_set p.id p in
          (
            HashMap.insert votes pair voted,
            if ltb (2 * num_faulty) (length voted) then enter_commit p ∷ [] else [],
          )
    ]

-- `ConsensusCommand::AcceptPrepare`
unfoldable pub on_accept_prepare : Consensus → Prepare → Outcome
on_accept_prepare e p =
    let s = e.state in
    let (votes, commands) = count_prepare e.config.num_faulty s.prepare_votes p in
    continues
      (with_state e (record s {
        prepare_votes = votes;
        message_bank = record s.message_bank {
          outstanding_prepares = HashSet.remove s.message_bank.outstanding_prepares p;
        };
      }))
      (sends (
        commands
        ++ map accept_commit (keep (λ c. corresponds_to c p) s.message_bank.outstanding_commits)))

-- `ConsensusCommand::EnterCommit`
unfoldable pub on_enter_commit : External → Consensus → Prepare → Outcome
on_enter_commit ext e p = continues e (
    tells (
      broad_cast_message (
        commit_message (
          Commit.new_with_signature ext e.keypair_bytes e.id p.view p.seq_num
            p.client_request_digest))))

unfoldable pub count_commit :
    ℕ → HashMap (ℕ × ℕ) (HashSet ℕ) → Commit → HashMap (ℕ × ℕ) (HashSet ℕ) × List ConsensusCommand
count_commit num_faulty votes c =
    let pair : ℕ × ℕ = (c.view, c.seq_num) in
    elim (HashMap.get votes pair) [
      | none ↦ (HashMap.insert votes pair (HashSet.insert [] c.id).0, [])
      | some curr_vote_set ↦
          let voted = (HashSet.insert curr_vote_set c.id).0 in
          (
            HashMap.insert votes pair voted,
            if ltb (2 * num_faulty) (length voted) then apply_commit c ∷ [] else [],
          )
    ]

-- `ConsensusCommand::AcceptCommit`
unfoldable pub on_accept_commit : Consensus → Commit → Outcome
on_accept_commit e c =
    let s = e.state in
    let (votes, commands) = count_commit e.config.num_faulty s.commit_votes c in
    continues
      (with_state e (record s {
        commit_votes = votes;
        message_bank = record s.message_bank {
          outstanding_commits = HashSet.remove s.message_bank.outstanding_commits c;
        };
      }))
      (sends commands)
