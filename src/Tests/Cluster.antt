-- ===== src/Tests/Cluster.antt =====
-- A run of four nodes: a client's write is proposed, prepared, committed and applied at one of them.
use mathlib.Core.Path.{subst}
use p_bft.Base.{ℕ, zero, suc, ◌≤◌, ◌≡◌, refl, sym, List, [], ◌∷◌, ◌++◌, All, arith}
use p_bft.Network.{message_of}
use p_bft.Network.Agreement.{NewViewFree}
use p_bft.Network.Changes.Defs.{LateSent}
use p_bft.Network.Changes.Quorum.{new_view-needs-quorum}
use p_bft.Network.Engines.{first_leader}
use p_bft.Network.Growth.{proposals}
use p_bft.Network.Stores.{
  stores_follow_leader, applied-le-proposed, answers_follow_leader, AnswerSent,
}
use p_bft.Replication.Agreed.{replay}
use p_bft.Tests.Schedule.{Action, takes, asks, delivers, Run, begin, run, NetworkReach-unused}
use p_bft.Tests.World.{plain, cluster, write, written}

-- node `i` gets the `k`-th message of node `j` and acts on it
abbrev hears : (i j k : ℕ) → List Action
hears i j k = delivers i j k ∷ takes i ∷ takes i ∷ []

-- nodes 1, 2 and 3 are heard by node `i`
abbrev pub hears_all : (i k : ℕ) → List Action
hears_all i k = hears i 1 k ++ (hears i 2 k ++ (hears i 3 k ++ takes i ∷ []))

abbrev proposes : List Action
proposes = asks 0 (write 5) ∷ takes 0 ∷ takes 0 ∷ []

abbrev prepares : List Action
prepares = hears 1 0 0 ++ (hears 2 0 0 ++ hears 3 0 0)

abbrev commits : List Action
commits = hears_all 1 0 ++ (hears_all 2 0 ++ hears_all 3 0)

abbrev schedule : List Action
schedule = proposes ++ (prepares ++ (commits ++ hears_all 1 1))

abbrev pub pairs : ℕ → List ℕ
pairs i = i ∷ []

unfoldable pub finished : Run plain cluster pairs
finished = run plain cluster pairs (begin plain cluster pairs) schedule

-- Nobody asked for a view change, and so there was no new one.
nobody_late : (i : ℕ) → All (LateSent []) (finished.engines i).sent
unfolding finished run
nobody_late zero = (tt, tt)
nobody_late (suc zero) = (tt, (tt, (tt, tt)))
nobody_late (suc (suc zero)) = (tt, (tt, tt))
nobody_late (suc (suc (suc zero))) = (tt, (tt, tt))
nobody_late (suc (suc (suc (suc i)))) =
    subst (λ g. All (LateSent []) g.sent)
      (sym (NetworkReach-unused finished.reach (suc (suc (suc (suc i)))) (omega arith))) tt

new_view-needs-quorum_example : NewViewFree finished.engines
new_view-needs-quorum_example = new_view-needs-quorum [] (omega arith) finished.reach nobody_late

-- The store after the run: node 1 has applied the write.
finished_store :
    ((finished.engines 1).consensus.state.last_seq_num_committed ≡ 1)
    × ((finished.engines 1).consensus.state.store ≡ written 5)
unfolding finished run
finished_store = (refl, refl)

stores_follow_leader_example :
    (finished.engines 1).consensus.state.store
    ≡ replay
        (proposals (finished.engines (first_leader cluster)))
        (finished.engines 1).consensus.state.last_seq_num_committed
stores_follow_leader_example =
    stores_follow_leader refl finished.reach new_view-needs-quorum_example 1

applied-le-proposed_example :
    (finished.engines 1).consensus.state.last_seq_num_committed
    ≤ (finished.engines (first_leader cluster)).consensus.state.seq_num
applied-le-proposed_example =
    applied-le-proposed refl finished.reach new_view-needs-quorum_example 1

answers_follow_leader_example :
    All
      (λ c.
        AnswerSent
          (proposals (finished.engines (first_leader cluster)))
          (finished.engines (first_leader cluster)).consensus.state.seq_num
          (message_of c))
      (finished.engines 1).sent
answers_follow_leader_example =
    answers_follow_leader refl finished.reach new_view-needs-quorum_example 1
