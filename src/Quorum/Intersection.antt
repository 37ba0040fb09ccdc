-- ===== src/Quorum/Intersection.antt =====
-- src/consensus.rs: what two quorums of one cluster have in common.
use mathlib.Core.Path.{subst}
use p_bft.Base.{
  Bool, ap, sym, ◌∙◌, ℕ, ◌+◌, ◌*◌, ◌≤◌, ◌<◌, ◌≡◌, some, [], ◌∷◌, arith, length, nat_eq, pair_eq,
}
use p_bft.Collections.HashMap.{get}
use p_bft.Collections.HashSet.{HashSet}
use p_bft.Collections.HashSet.Laws.{IsDistinct}
use p_bft.Messages.Commit.{Commit}
use p_bft.Messages.Command.{ConsensusCommand, apply_commit}
use p_bft.Consensus.Defs.{Consensus, after, sent}
use p_bft.Consensus.Votes.{on_accept_commit}
use p_bft.Consensus.Invariant.Defs.{WellFormed}
use p_bft.Quorum.Pigeonhole.{Below, common, overlap}
use p_bft.Quorum.Counting.{on_quorum, on_accept_commit_exact}

-- A handler sent a request to execution.
abbrev pub Executes : Consensus → Commit → Type 0
Executes e c = (sent (on_accept_commit e c)).to_self ≡ apply_commit c ∷ []

abbrev pub VotersOf : Consensus → Commit → HashSet ℕ → Type 0
VotersOf e c s =
    get (after e (on_accept_commit e c)).state.commit_votes (c.view, c.seq_num) ≡ some s

on_quorum_size :
    (b : Bool) (f n : ℕ) (cmd : ConsensusCommand) → on_quorum b f n cmd ≡ cmd ∷ [] → 2 * f < n
on_quorum_size b f n cmd h = ground arith

pub quorum_of :
    (e : Consensus) (c : Commit) (s : HashSet ℕ)
    → WellFormed e.state
    → Executes e c
    → VotersOf e c s
    → IsDistinct s × (2 * e.config.num_faulty < length s)
quorum_of e c s w x v =
    let (t, (at_pair, distinct, _, _), o) = on_accept_commit_exact e c w in
    let size =
      on_quorum_size _ e.config.num_faulty (length t) (apply_commit c)
        (sym (ap (λ r. (sent r).to_self) o) ∙ x) in
    let same : t ≡ s = cc in
    subst (λ u. IsDistinct u × (2 * e.config.num_faulty < length u)) same (distinct, size)

-- If two replicas in well-formed states send commits to execution, whether the same or not, both
-- allow for `f` faulty nodes, and every id that voted is one of at most `3 f + 1` nodes, then more
-- than `f` nodes voted at both, so one that is not faulty did.
pub quorums_overlap :
    (n f : ℕ) (e e' : Consensus) (c c' : Commit) (s s' : HashSet ℕ)
    → n ≤ 3 * f + 1
    → e.config.num_faulty ≡ f
    → e'.config.num_faulty ≡ f
    → WellFormed e.state
    → WellFormed e'.state
    → Executes e c
    → Executes e' c'
    → VotersOf e c s
    → VotersOf e' c' s'
    → Below n s
    → Below n s'
    → f < length (common s s')
quorums_overlap n f e e' c c' s s' small p p' w w' x x' v v' b b' =
    let (d, large) = quorum_of e c s w x v in
    let (d', large') = quorum_of e' c' s' w' x' v' in omega (arith, overlap n s s' d d' b b')
