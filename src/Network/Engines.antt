-- ===== src/Network/Engines.antt =====
-- src/consensus.rs: one engine of a cluster, while no view change completes.
use p_bft.Base.{ℕ, ◌≡◌, ◌≢◌, ◌⊎◌, refl, sym, ◌∙◌, List, ◌++◌, All, arith, inl, inr, nat_eq, pair_eq}
use p_bft.Config.{Config}
use p_bft.Messages.ClientRequest.{ClientRequest}
use p_bft.Messages.PrePrepare.{PrePrepare}
use p_bft.Messages.Message.{
  Message, identifier_message, pre_prepare_message, prepare_message, commit_message,
  view_change_message, new_view_message, check_point_message, client_request_message,
  client_response_message,
}
use p_bft.Messages.Command.{
  NodeCommand, send_message, broad_cast_message, ConsensusCommand, process_message,
  misdirected_client_request, init_pre_prepare, accept_pre_prepare, rebroadcast_pre_prepare,
  accept_prepare, enter_commit, accept_commit, init_view_change, accept_view_change,
  accept_new_view, apply_commit, accept_checkpoint,
}
use p_bft.State.{State, initial, current_leader, get_leader_for_view}
use p_bft.Consensus.Defs.{Consensus, Effects}
use p_bft.Engine.{Engine, running, deliver}
use p_bft.Network.Calm.Defs.{Calm, CalmSent, CalmState, CalmCommand}
use p_bft.Network.Proposals.{All-weaken}

-- the node that leads view 0
abbrev pub first_leader : Config → ℕ
first_leader config = current_leader (initial config 0)

-- The engine of node `i`: what it holds and what it sent is calm, and it proposes only if it leads.
pub record CalmEngine (P : PrePrepare → Type 0) (config : Config) (i : ℕ) (g : Engine)
    : Type 0 where
  pub id : g.consensus.id ≡ i
  pub own : g.consensus.config ≡ config
  pub shared : g.consensus.state.config ≡ config
  pub state : CalmState P g.consensus.state
  pub queue : All (CalmCommand P (i ≡ first_leader config)) g.queue
  pub sent : All (CalmSent P) g.sent

-- Weaker demands on proposals are met too.
module _ (P Q : PrePrepare → Type 0) (h : (p : PrePrepare) → P p → Q p) where
  Calm-weaken : (m : Message) → Calm P m → Calm Q m
  Calm-weaken (pre_prepare_message p) c = h p c
  Calm-weaken (identifier_message m) c = tt
  Calm-weaken (prepare_message m) c = tt
  Calm-weaken (commit_message m) c = tt
  Calm-weaken (view_change_message m) c = tt
  Calm-weaken (new_view_message m) c = elim c [ ]
  Calm-weaken (check_point_message m) c = c
  Calm-weaken (client_request_message m) c = tt
  Calm-weaken (client_response_message m) c = tt

  pub CalmSent-weaken : (c : NodeCommand) → CalmSent P c → CalmSent Q c
  CalmSent-weaken (send_message d m) c = Calm-weaken m c
  CalmSent-weaken (broad_cast_message m) c = Calm-weaken m c

  CalmCommand-weaken :
      (leads : Type 0) (cmd : ConsensusCommand) → CalmCommand P leads cmd → CalmCommand Q leads cmd
  CalmCommand-weaken leads (process_message m) c = Calm-weaken m c
  CalmCommand-weaken leads (accept_pre_prepare p) c = h p c
  CalmCommand-weaken leads (init_pre_prepare r) c = c
  CalmCommand-weaken leads (accept_checkpoint k) c = c
  CalmCommand-weaken leads (accept_new_view n) c = elim c [ ]
  CalmCommand-weaken leads (misdirected_client_request r) c = tt
  CalmCommand-weaken leads (rebroadcast_pre_prepare p) c = tt
  CalmCommand-weaken leads (accept_prepare p) c = tt
  CalmCommand-weaken leads (enter_commit p) c = tt
  CalmCommand-weaken leads (accept_commit p) c = tt
  CalmCommand-weaken leads (init_view_change r) c = tt
  CalmCommand-weaken leads (accept_view_change v) c = tt
  CalmCommand-weaken leads (apply_commit m) c = tt

  CalmState-weaken : {s : State} → CalmState P s → CalmState Q s
  CalmState-weaken {s} c = record {
    view = c.view;
    log = All-weaken _ _ (λ x. h x.1) s.message_bank.accepted_pre_prepare_requests c.log;
  }

  pub CalmEngine-weaken :
      (config : Config) (i : ℕ) (g : Engine) → CalmEngine P config i g → CalmEngine Q config i g
  CalmEngine-weaken config i g c = record {
    id = c.id;
    own = c.own;
    shared = c.shared;
    state = CalmState-weaken c.state;
    queue = All-weaken _ _ (CalmCommand-weaken (i ≡ first_leader config)) g.queue c.queue;
    sent = All-weaken _ _ CalmSent-weaken g.sent c.sent;
  }

-- What a round adds to the messages sent.
pub deliver_sent :
    (g g' : Engine) (rest : List ConsensusCommand) (e : Consensus) (fx : Effects)
    → deliver g rest e fx ≡ running g'
    → (g'.consensus ≡ e) × (g'.queue ≡ rest ++ fx.to_self) × (g'.sent ≡ g.sent ++ fx.to_node)
unfolding deliver
deliver_sent g g' rest e fx h = ground arith

pub init_pre_prepare-cases :
    (cmd : ConsensusCommand)
    → ((r : ClientRequest) × (cmd ≡ init_pre_prepare r))
      ⊎ ((r : ClientRequest) → cmd ≢ init_pre_prepare r)
init_pre_prepare-cases (init_pre_prepare r) = inl (r, refl)
init_pre_prepare-cases cmd = inr (λ r e. cc)

pub leads_if :
    (config : Config) (i : ℕ) (e : Consensus)
    → e.id ≡ i
    → e.state.config ≡ config
    → e.state.view ≡ 0
    → e.id ≡ current_leader e.state
    → i ≡ first_leader config
unfolding current_leader get_leader_for_view
leads_if config i e p q v l = sym p ∙ l ∙ cc
