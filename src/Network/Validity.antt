-- ===== src/Network/Validity.antt =====
-- The cluster: where proposals are at a number at most, no node gets beyond it.
use p_bft.Base.{ℕ, ◌<◌, ◌≤◌, ◌≡◌, ◌⊎◌, sym, some, ◌∷◌, All, All-append, inl, inr, arith}
use mathlib.Core.Path.{subst}
use p_bft.Collections.BTreeMap.{Bytes}
use p_bft.External.{External}
use p_bft.Config.{Config}
use p_bft.Messages.PrePrepare.{PrePrepare}
use p_bft.Messages.ClientRequest.{ClientRequest}
use p_bft.Messages.Message.{
  Message, pre_prepare_message, check_point_message, client_request_message,
}
use p_bft.Messages.Command.{NodeCommand, send_message, broad_cast_message, ConsensusCommand}
use p_bft.ViewChanger.{ViewChanger, Timer, fire}
use p_bft.Consensus.Defs.{continues}
use p_bft.Engine.{Engine, start, running, round}
use p_bft.Engine.Safety.{round_cases}
use p_bft.Engine.Reach.{Step, handles, receives, expires, fires}
use p_bft.Network.{message_of, Carries, Engines, Delivered}
use p_bft.Network.Calm.Defs.{Goes, CalmSent}
use p_bft.Network.Engines.{deliver_sent}
use p_bft.Network.Bounds.Defs.{LowMessage, LowCommand, LowSent, Within, WithinAfter}
use p_bft.Network.Bounds.Handle.{handle-Within}
use p_bft.Network.Induction.{Carries-All}
use p_bft.Network.Proposals.{All-pair}

-- A proposal at `top` at most.
abbrev pub LowProposal : ℕ → PrePrepare → Type 0
LowProposal top p = p.seq_num ≤ top

-- The engine keeps to the numbers up to `top`.
pub record Bounded (top : ℕ) (g : Engine) : Type 0 where
  pub state : Within top g.consensus.state
  pub queue : All (LowCommand top) g.queue
  pub told : All (LowSent top) g.sent

module _ (top : ℕ) where
  LowMessage-join :
      (c : NodeCommand)
      → CalmSent (LowProposal top) c
      → LowSent top c
      → LowMessage top (message_of c)
  LowMessage-join (send_message d (pre_prepare_message p)) a b = a
  LowMessage-join (send_message d (check_point_message c)) a b = b
  LowMessage-join (send_message d m) a b = tt
  LowMessage-join (broad_cast_message (pre_prepare_message p)) a b = a
  LowMessage-join (broad_cast_message (check_point_message c)) a b = b
  LowMessage-join (broad_cast_message m) a b = tt

  fire-Low :
      (w : ViewChanger) (t : Timer) (cmd : ConsensusCommand)
      → fire w t ≡ some cmd
      → LowCommand top cmd
  unfolding fire
  fire-Low w t cmd h = ground arith

  round-Bounded :
      (ext : External) (g g' : Engine) → Bounded top g → round ext g ≡ running g' → Bounded top g'
  round-Bounded ext g g' b h =
      let (cmd, rest, e, fx, q, o, d) = round_cases ext g g' h in
      let (same, queue, all) = deliver_sent g g' rest e fx d in
      let held : All (LowCommand top) (cmd ∷ rest) = rw q at b.queue in
      let a : Goes (WithinAfter top) (continues e fx) =
        rw o at (handle-Within top ext g.consensus b.state cmd held.0) in
      record {
        state = rw same a.state;
        queue = rw queue (All-append (LowCommand top) rest fx.to_self held.1 a.own);
        told = rw all (All-append (LowSent top) g.sent fx.to_node b.told a.told);
      }

  Delivered-Low :
      (nodes : ℕ) (w : Engines) (m : Message)
      → ((j : ℕ) → All (CalmSent (LowProposal top)) (w j).sent)
      → ((j : ℕ) → Bounded top (w j))
      → ((r : ClientRequest) × (m ≡ client_request_message r))
        ⊎ ((j : ℕ) × (j < nodes) × Carries m (w j).sent)
      → LowMessage top m
  Delivered-Low nodes w m a b (inl (r, is)) = subst (LowMessage top) (sym is) tt
  Delivered-Low nodes w m a b (inr (j, lt, from)) =
      Carries-All (λ c. CalmSent (LowProposal top) c × LowSent top c) (LowMessage top)
        (λ c h. LowMessage-join c h.0 h.1) m (w j).sent from
        (All-pair (CalmSent (LowProposal top)) (LowSent top) (w j).sent (a j) (b j).told)

  pub Step-Bounded :
      {ext : External} (nodes : ℕ) (w : Engines) (i : ℕ) (g' : Engine) (st : Step ext (w i) g')
      → ((j : ℕ) → All (CalmSent (LowProposal top)) (w j).sent)
      → ((j : ℕ) → Bounded top (w j))
      → Delivered nodes w st
      → Bounded top g'
  Step-Bounded {ext} nodes w i g' (handles b h) a f d = round-Bounded ext (w i) g' (f i) h
  Step-Bounded nodes w i g' (receives m p room) a f d = record {
    state = (f i).state;
    queue =
        All-append (LowCommand top) (w i).queue _ (f i).queue (Delivered-Low nodes w m a f d, tt);
    told = (f i).told;
  }
  Step-Bounded nodes w i g' (expires before later t e h) a f d = record {
    state = (f i).state;
    queue = (f i).queue;
    told = (f i).told;
  }
  Step-Bounded nodes w i g' (fires before later t cmd e h room) a f d = record {
    state = (f i).state;
    queue =
        All-append (LowCommand top) (w i).queue _ (f i).queue
          (fire-Low (w i).consensus.view_changer t cmd h, tt);
    told = (f i).told;
  }

pub start-Bounded : (top i : ℕ) (config : Config) (pair : Bytes) → Bounded top (start i config pair)
start-Bounded top i config pair = record {
  state = record { applied = omega arith; log = tt };
  queue = tt;
  told = tt;
}
