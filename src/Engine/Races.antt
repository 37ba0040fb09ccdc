-- ===== src/Engine/Races.antt =====
-- src/consensus.rs: a check and the act that it allows are two commands, with others in between.
use p_bft.Base.{◌≡◌, ◌≢◌, refl, true, [], ◌∷◌, nat_eq, pair_eq}
use p_bft.External.{External}
use p_bft.State.{should_accept_pre_prepare}
use p_bft.Messages.PrePrepare.{PrePrepare}
use p_bft.Messages.Prepare
use p_bft.Messages.Message.{pre_prepare_message, prepare_message}
use p_bft.Messages.Command.{process_message, broad_cast_message, NodeCommand}
use p_bft.Consensus.Defs.{Consensus, on_process_message}
use p_bft.Consensus.Proposals.{on_accept_pre_prepare}
use p_bft.Consensus.Handle.{handle}
use p_bft.Engine.{Engine, Status, running, round, rounds, deliver}

abbrev pub engine_of : Engine → Status → Engine
engine_of g (running g') = g'
engine_of g _ = g

-- the prepare that a node broadcasts for a proposal
abbrev pub prepare_for : External → Consensus → PrePrepare → NodeCommand
prepare_for ext e p = broad_cast_message (
    prepare_message
      (Prepare.new_with_signature ext e.keypair_bytes e.id p.view p.seq_num p.client_request))

-- an engine that has two proposals in its queue
abbrev pub two_proposals : Consensus → PrePrepare → PrePrepare → Engine
two_proposals e p q = record {
  consensus = e;
  queue = process_message (pre_prepare_message p) ∷ process_message (pre_prepare_message q) ∷ [];
  sent = [];
  timers = [];
}

-- If two proposals for one view and sequence number, with different digests, are each acceptable
-- to a replica as it is, and lie in its queue together, the replica accepts both: it broadcasts a
-- prepare for the one and for the other, and so votes twice. This is for a replica that has no
-- prepares buffered.
pub double_prepare :
    (ext : External) (e : Consensus) (p q : PrePrepare)
    → should_accept_pre_prepare ext e.state p ≡ true
    → should_accept_pre_prepare ext e.state q ≡ true
    → p.view ≡ q.view
    → p.seq_num ≡ q.seq_num
    → p.client_request_digest ≢ q.client_request_digest
    → e.state.message_bank.outstanding_prepares ≡ []
    → let s = rounds 4 ext (two_proposals e p q) in
      let g = engine_of (two_proposals e p q) s in
      (s ≡ running g) × (g.sent ≡ prepare_for ext e p ∷ prepare_for ext e q ∷ [])
unfolding rounds round deliver handle on_process_message on_accept_pre_prepare
    should_accept_pre_prepare Prepare.new_with_signature
double_prepare ext e p q a b v n d o = rw (a, b, o) (refl, refl)
