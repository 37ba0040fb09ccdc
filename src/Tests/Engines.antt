-- ===== src/Tests/Engines.antt =====
-- Engines: one that takes a step, one that stops, one that waits for itself, one that votes twice.
use p_bft.Base.{
  ℕ, zero, suc, ◌<◌, ◌≡◌, ◌≢◌, ◌↔◌, refl, List, [], ◌∷◌, arith, nat_eq, pair_eq, true, false,
  is_some,
}
use p_bft.Collections.BTreeMap.{bytes_eq, bytes_beq, compare_bytes, bytes_beq_iff}
use p_bft.Collections.HashMap
use p_bft.State.{State, current_leader, should_accept_pre_prepare}
use p_bft.Messages.PrePrepare
use p_bft.Messages.PrePrepare.{PrePrepare}
use p_bft.Messages.NewView.{NewView}
use p_bft.Messages.Message.{client_request_message}
use p_bft.Messages.Command.{
  ConsensusCommand, rebroadcast_pre_prepare, accept_new_view, process_message,
  misdirected_client_request, accept_prepare,
}
use p_bft.Consensus.Defs.{on_process_message}
use p_bft.Consensus.Handle.{handle}
use p_bft.Consensus.Invariant.Defs.{WellFormed, initial-WellFormed}
use p_bft.Consensus.Invariant.Steps.{After}
use p_bft.Consensus.Invariant.Preserved.{handle-WellFormed}
use p_bft.Engine.{Engine, running, stopped, blocked, crashed, round, rounds, start, deliver}
use p_bft.Engine.Reach.{Reach, here, next, receives, handles, queued}
use p_bft.Engine.Safety.{Safe, Reach-Safe, reachable-ne-crashed, HasPeers}
use p_bft.Engine.Stops.{round_stopped_iff, new_view_blocks, Lost}
use p_bft.Engine.Races.{double_prepare, engine_of, two_proposals, prepare_for}
use p_bft.Tests.World.{plain, cluster, replica, write, proposal, prepare_of}

handle-WellFormed_example :
    After WellFormed (handle plain (replica 1) (accept_prepare (prepare_of 2 1 5)))
handle-WellFormed_example =
    handle-WellFormed plain (replica 1) (accept_prepare (prepare_of 2 1 5)) (omega arith)
      (initial-WellFormed cluster 1)

-- the engine of node 1, and the same with a client's request in its queue
abbrev idle : Engine
idle = start 1 cluster (1 ∷ [])

abbrev asked : Engine
asked = queued idle (process_message (client_request_message (write 5)))

-- after it has read the request
abbrev forwarding : Engine
forwarding = record idle { queue = misdirected_client_request (write 5) ∷ [] }

asked_round : round plain asked ≡ running forwarding
unfolding round handle on_process_message p_bft.State.should_process_client_request current_leader
    deliver
asked_round = refl

forwarding-Reach : Reach plain 1 cluster (1 ∷ []) forwarding
forwarding-Reach =
    next (next here (receives (client_request_message (write 5)) tt (omega arith)))
      (handles (omega arith) asked_round)

forwarding-Safe : Safe cluster forwarding
forwarding-Safe = Reach-Safe forwarding-Reach

cluster-HasPeers : HasPeers cluster
unfolding HashMap.get
cluster-HasPeers = (omega arith, peer)
  where
    peer : (i : ℕ) → i < 4 → is_some (HashMap.get cluster.peer_addrs i) ≡ true
    peer zero h = refl
    peer (suc zero) h = refl
    peer (suc (suc zero)) h = refl
    peer (suc (suc (suc zero))) h = refl
    peer (suc (suc (suc (suc i)))) h = absurd (omega arith)

reachable-ne-crashed_example : round plain forwarding ≢ crashed
reachable-ne-crashed_example = reachable-ne-crashed cluster-HasPeers (omega arith) forwarding-Reach

-- an engine whose timer for a proposal has run out, with the proposal not in its log
abbrev lost : Engine
lost = record idle { queue = rebroadcast_pre_prepare (0, 1) ∷ [] }

round_stopped_iff_example : (round plain lost ≡ stopped) ↔ (
    (pair : ℕ × ℕ) × (rest : List ConsensusCommand) × (lost.queue
      ≡ rebroadcast_pre_prepare pair ∷ rest)
    × Lost lost.consensus pair)
round_stopped_iff_example = round_stopped_iff plain lost

lost_stops : round plain lost ≡ stopped
unfolding round handle p_bft.Consensus.Proposals.on_rebroadcast_pre_prepare HashMap.get
lost_stops = refl

copies : ℕ → List PrePrepare
copies zero = []
copies (suc n) = proposal 1 5 ∷ copies n

-- a new view that node 1 leads, with more proposals than its queue has room for
abbrev large_view : NewView
large_view = record {
  id = 1;
  view = 1;
  view_change_messages = [];
  outstanding_pre_prepares = copies 33;
}

abbrev overfull : Engine
overfull = record idle { queue = accept_new_view large_view ∷ [] }

new_view_blocks_example : round plain overfull ≡ blocked
unfolding copies
new_view_blocks_example = new_view_blocks plain overfull large_view [] refl refl (omega arith)

proposal_accepted : should_accept_pre_prepare plain (replica 1).state (proposal 1 5) ≡ true
unfolding should_accept_pre_prepare PrePrepare.new_with_signature bytes_beq compare_bytes
    p_bft.Messages.ClientRequest.digest p_bft.Messages.ClientRequest.hashed p_bft.External.addr_text
    p_bft.External.le_bytes HashMap.get
proposal_accepted = refl

other_accepted : should_accept_pre_prepare plain (replica 1).state (proposal 1 6) ≡ true
unfolding should_accept_pre_prepare PrePrepare.new_with_signature bytes_beq compare_bytes
    p_bft.Messages.ClientRequest.digest p_bft.Messages.ClientRequest.hashed p_bft.External.addr_text
    p_bft.External.le_bytes HashMap.get
other_accepted = refl

digests_differ : (proposal 1 5).client_request_digest ≢ (proposal 1 6).client_request_digest
unfolding bytes_beq compare_bytes PrePrepare.new_with_signature p_bft.Messages.ClientRequest.digest
    p_bft.Messages.ClientRequest.hashed p_bft.External.addr_text p_bft.External.le_bytes
digests_differ h =
    let same : false ≡ true =
      (bytes_beq_iff (proposal 1 5).client_request_digest (proposal 1 6).client_request_digest).1
        h in
    cc

double_prepare_example :
    let s = rounds 4 plain (two_proposals (replica 1) (proposal 1 5) (proposal 1 6)) in
    let g = engine_of (two_proposals (replica 1) (proposal 1 5) (proposal 1 6)) s in
    (s ≡ running g)
    × (g.sent
        ≡ prepare_for plain (replica 1) (proposal 1 5)
          ∷ prepare_for plain (replica 1) (proposal 1 6)
          ∷ [])
unfolding PrePrepare.new_with_signature
double_prepare_example =
    double_prepare plain (replica 1) (proposal 1 5) (proposal 1 6) proposal_accepted other_accepted
      refl refl digests_differ refl
