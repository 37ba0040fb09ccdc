-- ===== src/Network/Changes/Defs.antt =====
-- src/consensus.rs: who asks for a view change.
use p_bft.Base.{ℕ, ◌≡◌, true, List, All, nat_eq, pair_eq}
use p_bft.Collections.BTreeMap.{bytes_eq}
use p_bft.Collections.HashMap.{Entries, keys}
use p_bft.Collections.HashSet.{contains}
use p_bft.Collections.HashSet.Laws.{IsDistinct}
use p_bft.Messages.ClientRequest.{request_eq}
use p_bft.Messages.Message.{Message, view_change_message}
use p_bft.Messages.Command.{NodeCommand, ConsensusCommand, process_message, accept_view_change}
use p_bft.State.{State}
use p_bft.Consensus.Defs.{Consensus, Effects}
use p_bft.Network.{message_of}
use p_bft.Network.Calm.Defs.{NoNewView}

module _ (late : List ℕ) where
  -- A view change is asked for by one of these nodes.
  abbrev pub LateMessage : Message → Type 0
  LateMessage (view_change_message v) = contains late v.id ≡ true
  LateMessage _ = Unit {0}

  abbrev pub LateSent : NodeCommand → Type 0
  LateSent c = LateMessage (message_of c)

  abbrev pub LateCommand : ConsensusCommand → Type 0
  LateCommand (process_message m) = LateMessage m
  LateCommand (accept_view_change v) = contains late v.id ≡ true
  LateCommand _ = Unit {0}

  -- Only these have voted for a view change.
  pub record LateVotes (s : State) : Type 0 where
    pub voters : Entries (λ id v. contains late id ≡ true) s.view_change_votes
    pub distinct : IsDistinct (keys s.view_change_votes)

  pub record LateAfter (e : Consensus) (fx : Effects) : Type 0 where
    pub state : LateVotes e.state
    pub own : All LateCommand fx.to_self
    pub told : All NoNewView fx.to_node
