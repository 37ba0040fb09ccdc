-- ===== src/Network/Growth.antt =====
-- src/consensus.rs: how what the leader decided grows with the steps of its engine, while no view
-- change completes; the steps of the others leave it.
use p_bft.Base.{
  ℕ, ◌+◌, ◌≤◌, ◌<◌, ◌≡◌, ◌⊎◌, refl, sym, ◌∙◌, ap, [], ◌∷◌, ◌++◌, All, arith, inl, inr, false, incr,
  usize_mod, Bool-cases, nat_eq, pair_eq,
}
use p_bft.External.{External}
use p_bft.Config.{Config}
use p_bft.Messages.ClientRequest.{ClientRequest, request_eq}
use p_bft.Messages.PrePrepare.{PrePrepare}
use p_bft.Messages.PrePrepare
use p_bft.Messages.Message.{pre_prepare_message}
use p_bft.Messages.Command.{NodeCommand, broad_cast_message}
use p_bft.Consensus.Defs.{Consensus, Effects, continues, quiet}
use p_bft.Consensus.Proposals.{on_init_pre_prepare, propose, was_sent}
use p_bft.Engine.{Engine}
use p_bft.Replication.Agreed.{Decided}
use p_bft.Network.Calm.Defs.{CalmSent}
use p_bft.Network.Proposals.{
  decided_by, All-weaken, Fits, proposal_of-Calm, decided_by-append, decided_by-fresh, Misses,
  proposal_of,
}
use p_bft.Network.Engines.{CalmEngine, CalmEngine-weaken}
use p_bft.Network.Steps.{CalmRound}

-- The proposal is the one decided at its number, which was used.
abbrev pub Settled : Decided → ℕ → PrePrepare → Type 0
Settled decided last p = (p.client_request ≡ decided p.seq_num) × (p.seq_num ≤ last)

-- Numbers used are decided as before.
abbrev pub Grows : Decided → ℕ → Decided → ℕ → Type 0
Grows decided last decided' last' = (last ≤ last') × ((n : ℕ) → n ≤ last → decided' n ≡ decided n)

pub Settled-Grows :
    (d d' : Decided) (m m' : ℕ)
    → Grows d m d' m'
    → (p : PrePrepare) → Settled d m p
    → Settled d' m' p
Settled-Grows d d' m m' g p s = (s.0 ∙ sym (g.1 p.seq_num s.1), omega (arith, g.0))

-- what the engine's messages decide, and the last number that it used
abbrev pub proposals : Engine → Decided
proposals g = decided_by g.sent

abbrev pub last_used : Engine → ℕ
last_used g = g.consensus.state.seq_num

abbrev pub SettledAt : Engine → PrePrepare → Type 0
SettledAt g = Settled (proposals g) (last_used g)

-- A step of the leader's engine.
pub record LeaderStep (config : Config) (i : ℕ) (g g' : Engine) : Type 0 where
  pub calm : CalmEngine (SettledAt g') config i g'
  pub grows : Grows (proposals g) (last_used g) (proposals g') (last_used g')

Fits-told :
    (d : Decided) (last n : ℕ) (c : NodeCommand) → CalmSent (Settled d last) c → Fits n (d n) c
Fits-told d last n c h p e s = (proposal_of-Calm (Settled d last) c h p e).0 ∙ ap d s

pub CalmRound-LeaderStep :
    (config : Config) (i : ℕ) (g g' : Engine)
    → CalmRound (SettledAt g) config i g g'
    → LeaderStep config i g g'
CalmRound-LeaderStep config i g g' r =
    let same : (n : ℕ) → proposals g' n ≡ proposals g n = λ n.
      ap (λ cs. decided_by cs n) r.sent
      ∙ decided_by-append g.sent r.news n (
          All-weaken (CalmSent (SettledAt g)) (Fits n (proposals g n))
            (Fits-told (proposals g) (last_used g) n) r.news r.told) in
    let grows : Grows (proposals g) (last_used g) (proposals g') (last_used g') =
      (omega (arith, r.seq), λ n h. same n) in
    record {
      calm =
          CalmEngine-weaken (SettledAt g) (SettledAt g')
            (Settled-Grows (proposals g) (proposals g') (last_used g) (last_used g') grows) config i
            g' r.calm;
      grows = grows;
    }

-- The proposal that a leader makes for a request.
abbrev pub own_proposal : External → Consensus → ClientRequest → PrePrepare
own_proposal ext e r = propose ext e (record e.state { seq_num = incr e.state.seq_num }) r

pub record Proposing (ext : External) (e : Consensus) (r : ClientRequest) (e' : Consensus)
    (fx : Effects) : Type 0 where
  pub node : fx.to_node ≡ broad_cast_message (pre_prepare_message (own_proposal ext e r)) ∷ []
  pub own : fx.to_self ≡ []
  pub view : e'.state.view ≡ e.state.view
  pub log :
      e'.state.message_bank.accepted_pre_prepare_requests
      ≡ e.state.message_bank.accepted_pre_prepare_requests
  pub seq : e'.state.seq_num ≡ incr e.state.seq_num

pub on_init_pre_prepare-cases :
    (ext : External) (e : Consensus) (r : ClientRequest) (e' : Consensus) (fx : Effects)
    → e.config.is_equivocator ≡ false
    → on_init_pre_prepare ext e r ≡ continues e' fx
    → ((e' ≡ e) × (fx ≡ quiet)) ⊎ Proposing ext e r e' fx
unfolding on_init_pre_prepare
on_init_pre_prepare-cases ext e r e' fx q h = elim (Bool-cases (was_sent e r)) [
  | inl old ↦ let k = rw (old, on_init_pre_prepare) at h in inl (cc, cc)
  | inr new ↦
      let k = rw (new, on_init_pre_prepare, q) at h in
      inr (record { node = cc; own = cc; view = cc; log = cc; seq = cc })
]

own_proposal-Settled :
    (ext : External) (e : Consensus) (r : ClientRequest)
    → e.state.seq_num + 1 < usize_mod
    → (own_proposal ext e r).seq_num ≡ e.state.seq_num + 1
unfolding PrePrepare.new_with_signature
own_proposal-Settled ext e r b = omega arith

-- What the leader sent has no number beyond the last one used.
sent-Misses :
    (g : Engine) (n : ℕ) (c : NodeCommand) → last_used g < n → CalmSent (SettledAt g) c → Misses n c
sent-Misses g n c b h p e s = absurd (omega (arith, (proposal_of-Calm (SettledAt g) c h p e).1))

-- A proposal is decided at the next number, and the numbers used are decided as before.
pub propose-Grows :
    (ext : External) (r : ClientRequest) (e' : Consensus) (fx : Effects) (g g' : Engine)
    → last_used g + 1 < usize_mod
    → All (CalmSent (SettledAt g)) g.sent
    → Proposing ext g.consensus r e' fx
    → g'.consensus ≡ e'
    → g'.sent ≡ g.sent ++ fx.to_node
    → Grows (proposals g) (last_used g) (proposals g') (last_used g')
      × SettledAt g' (own_proposal ext g.consensus r)
propose-Grows ext r e' fx g g' b calm o same all =
    let p = own_proposal ext g.consensus r in
    let number : p.seq_num ≡ last_used g + 1 = own_proposal-Settled ext g.consensus r b in
    let last : last_used g' ≡ last_used g + 1 =
      ap (λ x. x.state.seq_num) same ∙ o.seq ∙ omega arith in
    let messages : g'.sent ≡ g.sent ++ broad_cast_message (pre_prepare_message p) ∷ [] =
      all ∙ ap (λ cs. g.sent ++ cs) o.node in
    let old : (n : ℕ) → n ≤ last_used g → proposals g' n ≡ proposals g n = λ n h.
      ap (λ cs. decided_by cs n) messages
      ∙ decided_by-append g.sent (broad_cast_message (pre_prepare_message p) ∷ []) n
          (fits n h p number, tt) in
    let new : proposals g' p.seq_num ≡ p.client_request =
      ap (λ cs. decided_by cs p.seq_num) messages
      ∙ decided_by-fresh g.sent (broad_cast_message (pre_prepare_message p)) p
          (All-weaken (CalmSent (SettledAt g)) (Misses p.seq_num)
            (λ c. sent-Misses g p.seq_num c (omega arith)) g.sent calm)
          (unfold proposal_of in refl) in
    ((omega arith, old), (sym new, omega arith))
  where
    fits :
        (n : ℕ)
        → n ≤ last_used g
        → (p : PrePrepare) → p.seq_num ≡ last_used g + 1
        → Fits n (proposals g n) (broad_cast_message (pre_prepare_message p))
    fits n h p number q e s = absurd (
        let same : p ≡ q = unfold proposal_of in cc in
        let k : p.seq_num ≡ n = ap (λ x. x.seq_num) same ∙ s in omega arith)
