-- ===== src/Network/Steps.antt =====
-- src/consensus.rs: the steps of one engine of a cluster, while no view change completes. `decided_by`
-- what the leader sent stays as it is at the numbers used, and grows by one at a proposal.
use p_bft.Base.{ℕ, ◌≡◌, ◌≢◌, ◌∙◌, ap, List, [], ◌∷◌, ◌++◌, All, All-append, nat_eq, pair_eq}
use p_bft.External.{External}
use p_bft.Config.{Config}
use p_bft.Messages.ClientRequest.{ClientRequest}
use p_bft.Messages.PrePrepare.{PrePrepare}
use p_bft.Messages.Command.{NodeCommand, ConsensusCommand, init_pre_prepare}
use p_bft.Consensus.Defs.{Consensus, Effects, continues, sent}
use p_bft.Consensus.Handle.{handle}
use p_bft.Engine.{Engine, running, deliver}
use p_bft.Engine.Frame.{Frame, handle-Frame}
use p_bft.Network.Calm.Defs.{Goes, NoNewView, CalmSent, CalmCommand, CalmAfter}
use p_bft.Network.Calm.Handle.{handle-Calm}
use p_bft.Network.Engines.{first_leader, CalmEngine, deliver_sent, leads_if}

pub All-split {ℓ κ} :
    {A : Type ℓ} (P : A → Type κ) (xs ys : List A) → All P (xs ++ ys) → All P xs × All P ys
All-split P [] ys h = (tt, h)
All-split P (x ∷ xs) ys h = let r = All-split P xs ys h.1 in ((h.0, r.0), r.1)

-- What a round leaves that makes no proposal of its own: no new number, and only calm messages.
pub record CalmRound (P : PrePrepare → Type 0) (config : Config) (i : ℕ) (g g' : Engine)
    : Type 0 where
  pub calm : CalmEngine P config i g'
  pub seq : g'.consensus.state.seq_num ≡ g.consensus.state.seq_num
  pub news : List NodeCommand
  pub sent : g'.sent ≡ g.sent ++ news
  pub told : All (CalmSent P) news

module _ (P : PrePrepare → Type 0) (ext : External) (config : Config) (i : ℕ) (g g' : Engine) where
  -- The effects of a calm handler, delivered.
  pub deliver-CalmRound :
      (cmd : ConsensusCommand) (rest : List ConsensusCommand) (e : Consensus) (fx : Effects)
      → CalmEngine P config i g
      → g.queue ≡ cmd ∷ rest
      → handle ext g.consensus cmd ≡ continues e fx
      → deliver g rest e fx ≡ running g'
      → CalmAfter P (i ≡ first_leader config) g.consensus.state.seq_num e fx
      → CalmRound P config i g g'
  deliver-CalmRound cmd rest e fx c q o d a =
      let (same, queue, all) = deliver_sent g g' rest e fx d in
      let f : Frame g.consensus (continues e fx) = rw o at (handle-Frame ext g.consensus cmd) in
      let held : All (CalmCommand P (i ≡ first_leader config)) (cmd ∷ rest) = rw q at c.queue in
      record {
        calm = record {
          id = ap (λ x. x.id) same ∙ f.1 ∙ c.id;
          own = ap (λ x. x.config) same ∙ f.0 ∙ c.own;
          shared = ap (λ x. x.state.config) same ∙ f.3 ∙ c.shared;
          state = rw same a.state;
          queue =
              rw queue
                (All-append (CalmCommand P (i ≡ first_leader config)) rest fx.to_self held.1 a.own);
          sent = rw all (All-append (CalmSent P) g.sent fx.to_node c.sent a.told);
        };
        seq = ap (λ x. x.state.seq_num) same ∙ a.seq;
        news = fx.to_node;
        sent = all;
        told = a.told;
      }

  -- A round on any command but a proposal of its own.
  pub round-CalmRound :
      (cmd : ConsensusCommand) (rest : List ConsensusCommand) (e : Consensus) (fx : Effects)
      → CalmEngine P config i g
      → g.queue ≡ cmd ∷ rest
      → handle ext g.consensus cmd ≡ continues e fx
      → deliver g rest e fx ≡ running g'
      → ((r : ClientRequest) → cmd ≢ init_pre_prepare r)
      → All NoNewView g'.sent
      → CalmRound P config i g g'
  round-CalmRound cmd rest e fx c q o d other unmoved =
      let held : All (CalmCommand P (i ≡ first_leader config)) (cmd ∷ rest) = rw q at c.queue in
      let news : All NoNewView (g.sent ++ fx.to_node) =
        rw (deliver_sent g g' rest e fx d).2 at unmoved in
      let told : All NoNewView (sent (handle ext g.consensus cmd)).to_node =
        rw o (All-split NoNewView g.sent fx.to_node news).1 in
      let a : Goes (CalmAfter P (i ≡ first_leader config) g.consensus.state.seq_num)
          (continues e fx) =
        rw o at (
          handle-Calm P (i ≡ first_leader config) ext g.consensus cmd other held.0 c.state
            (leads_if config i g.consensus c.id c.shared c.state.view) told) in
      deliver-CalmRound cmd rest e fx c q o d a
