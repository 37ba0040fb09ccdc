-- ===== src/Network/Calm/Defs.antt =====
-- src/consensus.rs, src/messages.rs: what states, messages and commands are like while no view change
-- completes.
use p_bft.Base.{ℕ, ◌≡◌, All, nat_eq, pair_eq}
use p_bft.Collections.BTreeMap.{bytes_eq}
use p_bft.Collections.HashMap.{Entries}
use p_bft.Messages.PrePrepare.{PrePrepare}
use p_bft.Messages.Message.{Message, pre_prepare_message, check_point_message, new_view_message}
use p_bft.Messages.Command.{
  NodeCommand, send_message, broad_cast_message, ConsensusCommand, process_message,
  init_pre_prepare, accept_pre_prepare, accept_new_view, accept_checkpoint,
}
use p_bft.State.{State}
use p_bft.Consensus.Defs.{Consensus, Effects, Outcome, continues, returns, panics}

-- What holds of the engine and of what was sent after a handler, if it goes on.
abbrev pub Goes : (Consensus → Effects → Type 0) → Outcome → Type 0
Goes Q (continues e effects) = Q e effects
Goes Q returns = Unit
Goes Q panics = Unit

-- No view change completes: the command sends no new view.
abbrev pub NoNewView : NodeCommand → Type 0
NoNewView (send_message destination (new_view_message n)) = ⊥
NoNewView (broad_cast_message (new_view_message n)) = ⊥
NoNewView _ = Unit

module _ (P : PrePrepare → Type 0) where
  -- A proposal is as `P` says, a checkpoint is of view 0, and there is no new view.
  abbrev pub Calm : Message → Type 0
  Calm (pre_prepare_message p) = P p
  Calm (check_point_message c) = c.view ≡ 0
  Calm (new_view_message n) = ⊥
  Calm _ = Unit

  abbrev pub CalmSent : NodeCommand → Type 0
  CalmSent (send_message destination m) = Calm m
  CalmSent (broad_cast_message m) = Calm m

  pub record CalmState (s : State) : Type 0 where
    pub view : s.view ≡ 0
    pub log : Entries (λ pair p. P p) s.message_bank.accepted_pre_prepare_requests

  -- The same of a command to an engine; only one that leads proposes.
  abbrev pub CalmCommand : Type 0 → ConsensusCommand → Type 0
  CalmCommand leads (process_message m) = Calm m
  CalmCommand leads (init_pre_prepare r) = leads
  CalmCommand leads (accept_pre_prepare p) = P p
  CalmCommand leads (accept_new_view n) = ⊥
  CalmCommand leads (accept_checkpoint c) = c.view ≡ 0
  CalmCommand leads _ = Unit

  -- `n` is the sequence number of the last proposal.
  pub record CalmAfter (leads : Type 0) (n : ℕ) (e : Consensus) (effects : Effects) : Type 0 where
    pub state : CalmState e.state
    pub seq : e.state.seq_num ≡ n
    pub own : All (CalmCommand leads) effects.to_self
    pub told : All CalmSent effects.to_node
