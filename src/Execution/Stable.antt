-- ===== src/Execution/Stable.antt =====
-- src/consensus.rs, `AcceptCheckpoint`: what a quorum of checkpoints does to a replica.
use Prim.Native.Nat.{max}
use p_bft.Base.{
  ℕ, ◌*◌, ◌≤◌, ◌≡◌, ◌≢◌, refl, some, true, false, List, [], arith, nat_eq, pair_eq, ltb, leb,
  length, if◌then◌else◌,
}
use p_bft.Collections.BTreeMap.{bytes_eq}
use p_bft.Collections.HashMap.{get}
use p_bft.Collections.HashMap.Laws.{get-insert_self}
use p_bft.Collections.HashSet
use p_bft.Collections.HashSet.{HashSet}
use p_bft.State.{State, garbage_collect}
use p_bft.Messages.CheckPoint.{CheckPoint}
use p_bft.Consensus.Defs.{Consensus, after}
use p_bft.Consensus.Execution.{on_accept_checkpoint, stabilise, record_checkpoint, fast_forward}
use p_bft.Consensus.Invariant.Defs.{WellFormed}
use p_bft.Consensus.Invariant.Checkpoints.{
  vote, later_vote, fast_forward-WellFormed, update_checkpoint_meta-total,
}

-- What a quorum for `c` makes of the state `s`: the replica is at `c`'s sequence number at least, with
-- `c`'s store if it was behind, and takes over `c`'s view and sequence number as they are.
pub record Settled (c : CheckPoint) (s t : State) : Type 0 where
  pub stable : t.last_stable_seq_num ≡ c.committed_seq_num
  pub view : t.view ≡ c.view
  pub level : t.last_seq_num_committed ≡ max s.last_seq_num_committed c.committed_seq_num
  pub store :
      t.store ≡ (if ltb s.last_seq_num_committed c.committed_seq_num then c.state else s.store)
  pub votes : t.checkpoint_votes ≡ []
  pub round : t.checkpoints_current_round ≡ []
  pub changing : t.view ≢ s.view → t.in_view_change ≡ false

stabilise-Settled :
    (e : Consensus) (s : State) (c : CheckPoint) (voters : List ℕ)
    → WellFormed s
    → get s.checkpoint_votes (c.committed_seq_num, c.state_digest) ≡ some voters
    → Settled c s (after e (stabilise e s c)).state
unfolding stabilise garbage_collect
stabilise-Settled e s c voters w h =
    let (w', level, same) = fast_forward-WellFormed s c w in
    let (cs, total) =
      update_checkpoint_meta-total (fast_forward s c) c.committed_seq_num c.state_digest voters w'
        (rw same h) in
    rw (total, stabilise)
      (record {
        stable = refl;
        view = refl;
        level = ground arith;
        store = ground arith;
        votes = refl;
        round = refl;
        changing = ground arith;
      })

-- In a well-formed state, a checkpoint that completes a quorum settles the replica, whatever its
-- own view and stable sequence number were: both are set to those of this checkpoint, also if they
-- are lower.
pub on_accept_checkpoint-Settled :
    (e : Consensus) (c : CheckPoint) (voters : HashSet ℕ)
    → WellFormed e.state
    → get e.state.checkpoint_votes (c.committed_seq_num, c.state_digest) ≡ some voters
    → 2 * e.config.num_faulty ≤ length (HashSet.insert voters c.id).0
    → Settled c e.state (after e (on_accept_checkpoint e c)).state
unfolding on_accept_checkpoint
on_accept_checkpoint-Settled e c voters w h q =
    let quorum : leb (2 * e.config.num_faulty) (length (HashSet.insert voters c.id).0) ≡ true =
      ground arith in
    let s =
      stabilise-Settled e (vote (record_checkpoint e.state c) c voters) c _
        (later_vote e c w voters h) (get-insert_self _ _ _) in
    rw (h, on_accept_checkpoint)
      (rw quorum (record {
        stable = s.stable;
        view = s.view;
        level = s.level;
        store = s.store;
        votes = s.votes;
        round = s.round;
        changing = s.changing;
      }))
