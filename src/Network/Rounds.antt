-- ===== src/Network/Rounds.antt =====
-- src/consensus.rs: a round of the leader's engine and one of another's, while no view change completes.
use p_bft.Base.{
  ℕ, ◌+◌, ◌<◌, ◌≡◌, ◌≢◌, refl, sym, ◌∙◌, ap, List, [], ◌∷◌, ◌++◌, All, All-append, inl, inr, false,
  usize_mod, nat_eq, pair_eq,
}
use p_bft.External.{External}
use p_bft.Config.{Config}
use p_bft.Messages.ClientRequest.{ClientRequest, request_eq}
use p_bft.Messages.PrePrepare.{PrePrepare}
use p_bft.Messages.Command.{ConsensusCommand, init_pre_prepare}
use p_bft.Consensus.Defs.{Consensus, Effects, continues, quiet}
use p_bft.Consensus.Handle.{handle}
use p_bft.Engine.{Engine, running, round, deliver}
use mathlib.Core.Path.{subst}
use p_bft.Engine.Frame.{Frame, handle-Frame}
use p_bft.Engine.Safety.{round_cases}
use p_bft.Network.Calm.Defs.{NoNewView, CalmSent, CalmState, CalmCommand, CalmAfter}
use p_bft.Network.Engines.{
  first_leader, CalmEngine, CalmEngine-weaken, deliver_sent, init_pre_prepare-cases,
}
use p_bft.Network.Growth.{
  Settled-Grows, proposals, last_used, SettledAt, LeaderStep, CalmRound-LeaderStep, Proposing,
  on_init_pre_prepare-cases, propose-Grows,
}
use p_bft.Network.Steps.{round-CalmRound, deliver-CalmRound}

-- A handler that does nothing.
quiet-After :
    (P : PrePrepare → Type 0) (leads : Type 0) (e : Consensus)
    → CalmState P e.state
    → CalmAfter P leads e.state.seq_num e quiet
quiet-After P leads e s = record { state = s; seq = refl; own = tt; told = tt }

propose-LeaderStep :
    (ext : External) (config : Config) (i : ℕ) (r : ClientRequest) (g g' : Engine)
    (rest : List ConsensusCommand) (e : Consensus) (fx : Effects)
    → last_used g + 1 < usize_mod
    → CalmEngine (SettledAt g) config i g
    → g.queue ≡ init_pre_prepare r ∷ rest
    → handle ext g.consensus (init_pre_prepare r) ≡ continues e fx
    → deliver g rest e fx ≡ running g'
    → Proposing ext g.consensus r e fx
    → LeaderStep config i g g'
propose-LeaderStep ext config i r g g' rest e fx b c q o d p =
    let (same, queue, all) = deliver_sent g g' rest e fx d in
    let f : Frame g.consensus (continues e fx) =
      rw o at (handle-Frame ext g.consensus (init_pre_prepare r)) in
    let (grows, settled) = propose-Grows ext r e fx g g' b c.sent p same all in
    let w =
      CalmEngine-weaken (SettledAt g) (SettledAt g')
        (Settled-Grows (proposals g) (proposals g') (last_used g) (last_used g') grows) config i g
        c in
    let held : All (CalmCommand (SettledAt g') (i ≡ first_leader config))
        (init_pre_prepare r ∷ rest) =
      rw q at w.queue in
    record {
      calm = record {
        id = ap (λ x. x.id) same ∙ f.1 ∙ c.id;
        own = ap (λ x. x.config) same ∙ f.0 ∙ c.own;
        shared = ap (λ x. x.state.config) same ∙ f.3 ∙ c.shared;
        state = record {
          view = ap (λ x. x.state.view) same ∙ p.view ∙ w.state.view;
          log =
              let kept =
                ap (λ x. x.state.message_bank.accepted_pre_prepare_requests) same ∙ p.log in
              rw kept w.state.log;
        };
        queue =
            rw (queue, p.own)
              (All-append (CalmCommand (SettledAt g') (i ≡ first_leader config)) rest [] held.1 tt);
        sent =
            subst (All (CalmSent (SettledAt g'))) (sym (all ∙ ap (λ cs. g.sent ++ cs) p.node))
              (All-append (CalmSent (SettledAt g')) g.sent _ w.sent (settled, tt));
      };
      grows = grows;
    }

-- A round of the leader.
pub round-LeaderStep :
    (ext : External) (config : Config) (i : ℕ) (g g' : Engine)
    → config.is_equivocator ≡ false
    → last_used g + 1 < usize_mod
    → CalmEngine (SettledAt g) config i g
    → All NoNewView g'.sent
    → round ext g ≡ running g'
    → LeaderStep config i g g'
round-LeaderStep ext config i g g' honest b c unmoved h =
    let (cmd, rest, e, fx, q, o, d) = round_cases ext g g' h in
    elim (init_pre_prepare-cases cmd) [
      | inr other ↦
          CalmRound-LeaderStep config i g g'
            (round-CalmRound (SettledAt g) ext config i g g' cmd rest e fx c q o d other unmoved)
      | inl (r, is) ↦
          proposes r rest e fx (q ∙ ap (λ x. x ∷ rest) is)
            (ap (handle ext g.consensus) (sym is) ∙ o) d
    ]
  where
    proposes :
        (r : ClientRequest) (rest : List ConsensusCommand) (e : Consensus) (fx : Effects)
        → g.queue ≡ init_pre_prepare r ∷ rest
        → handle ext g.consensus (init_pre_prepare r) ≡ continues e fx
        → deliver g rest e fx ≡ running g'
        → LeaderStep config i g g'
    proposes r rest e fx q o d =
        elim (on_init_pre_prepare-cases ext g.consensus r e fx
          (ap (λ x. x.is_equivocator) c.own ∙ honest) (unfold handle in o)) [
            | inl (same, nothing) ↦ CalmRound-LeaderStep config i g g' (
                deliver-CalmRound (SettledAt g) ext config i g g' (init_pre_prepare r) rest e fx c q
                  o d
                  (rw (same, nothing)
                    (quiet-After (SettledAt g) (i ≡ first_leader config) g.consensus c.state)))
            | inr p ↦ propose-LeaderStep ext config i r g g' rest e fx b c q o d p
          ]

-- A round of another node: it makes no proposal.
pub round-calm :
    (P : PrePrepare → Type 0) (ext : External) (config : Config) (i : ℕ) (g g' : Engine)
    → i ≢ first_leader config
    → CalmEngine P config i g
    → All NoNewView g'.sent
    → round ext g ≡ running g'
    → CalmEngine P config i g'
round-calm P ext config i g g' follower c unmoved h =
    let (cmd, rest, e, fx, q, o, d) = round_cases ext g g' h in
    elim (init_pre_prepare-cases cmd) [
      | inr other ↦ (round-CalmRound P ext config i g g' cmd rest e fx c q o d other unmoved).calm
      | inl (r, is) ↦ absurd (
          let held : All (CalmCommand P (i ≡ first_leader config)) (init_pre_prepare r ∷ rest) =
            rw (q ∙ ap (λ x. x ∷ rest) is) at c.queue in
          follower held.0)
    ]
