-- ===== src/Engine/Stops.antt =====
-- src/consensus.rs: the other ends of the engine's loop, `return` and a queue that is full.
use p_bft.Base.{
  Bool-cases, false, ℕ, ◌+◌, ◌<◌, ◌%◌, ◌≡◌, refl, ap, ◌∙◌, ◌↔◌, none, false, List, ◌∷◌, ◌++◌, map,
  arith, nat_eq, pair_eq, length, length-append, length-map, nat_beq_iff, leb, inl, inr, ◌⊎◌,
}
use p_bft.Collections.HashMap.{get}
use p_bft.External.{External}
use p_bft.State.{current_leader, get_leader_for_view, State}
use p_bft.Messages.PrePrepare.{PrePrepare}
use p_bft.Messages.NewView.{NewView}
use p_bft.Messages.Message.{Message, identifier_message}
use p_bft.Messages.Command.{
  ConsensusCommand, process_message, init_pre_prepare, rebroadcast_pre_prepare, accept_new_view,
  accept_checkpoint,
}
use p_bft.Messages.CheckPoint.{CheckPoint}
use p_bft.Consensus.Defs.{Consensus, Effects, continues, returns, panics, on_process_message}
use p_bft.Consensus.Proposals.{
  on_misdirected_client_request, on_init_pre_prepare, on_rebroadcast_pre_prepare,
  on_accept_pre_prepare,
}
use p_bft.Consensus.Votes.{on_accept_prepare, on_enter_commit, on_accept_commit}
use p_bft.Consensus.Changes.{on_init_view_change, on_accept_view_change, on_accept_new_view}
use p_bft.Consensus.Execution.{on_apply_commit, on_accept_checkpoint, stabilise}
use p_bft.Consensus.Handle.{handle, Outcome-cases}
use p_bft.Engine.{divides_by_zero, Engine, stopped, blocked, round, deliver, capacity}
use p_bft.Engine.Safety.{List-cases}

-- the log has no proposal for the view and sequence number
abbrev pub Lost : Consensus → ℕ × ℕ → Type 0
Lost e pair = get e.state.message_bank.accepted_pre_prepare_requests pair ≡ none

stabilise-ne-returns : (e : Consensus) (s : State) (c : CheckPoint) → ¬ (stabilise e s c ≡ returns)
unfolding stabilise
stabilise-ne-returns e s c h = ground arith

on_accept_checkpoint-ne-returns :
    (e : Consensus) (c : CheckPoint) → ¬ (on_accept_checkpoint e c ≡ returns)
unfolding on_accept_checkpoint
on_accept_checkpoint-ne-returns e c h = grind (arith, stabilise-ne-returns)

process_message-ne-returns :
    (ext : External) (e : Consensus) (m : Message) → ¬ (on_process_message ext e m ≡ returns)
unfolding on_process_message
process_message-ne-returns ext e (identifier_message m) h = cc
process_message-ne-returns ext e m h = ground arith

-- The handlers return only for a rebroadcast of a proposal that is not in the log.
handle_returns :
    (ext : External) (e : Consensus) (cmd : ConsensusCommand)
    → handle ext e cmd ≡ returns
    → (pair : ℕ × ℕ) × (cmd ≡ rebroadcast_pre_prepare pair) × Lost e pair
unfolding handle on_process_message on_misdirected_client_request on_init_pre_prepare
    on_rebroadcast_pre_prepare on_accept_pre_prepare on_accept_prepare on_enter_commit
    on_accept_commit on_init_view_change on_accept_view_change on_accept_new_view on_apply_commit
handle_returns ext e (rebroadcast_pre_prepare pair) h = (pair, refl, ground arith)
handle_returns ext e (accept_checkpoint c) h = absurd (on_accept_checkpoint-ne-returns e c h)
handle_returns ext e (process_message m) h = absurd (process_message-ne-returns ext e m h)
handle_returns ext e _ h = absurd (ground arith)

-- The engine leaves its loop, and so handles no further command, exactly if the first command in its
-- queue is a rebroadcast of a proposal that is not in its log.
pub round_stopped_iff :
    (ext : External) (g : Engine)
    → (round ext g ≡ stopped) ↔ (
        (pair : ℕ × ℕ) × (rest : List ConsensusCommand) × (g.queue
          ≡ rebroadcast_pre_prepare pair ∷ rest)
        × Lost g.consensus pair)
unfolding round deliver
round_stopped_iff ext g = (leaves, left)
  where
    stop :
        (cmd : ConsensusCommand) (rest : List ConsensusCommand)
        → round ext g ≡ stopped
        → g.queue ≡ cmd ∷ rest
        → divides_by_zero g.consensus cmd ≡ false
        → ((e : Consensus) × (fx : Effects) × (handle ext g.consensus cmd ≡ continues e fx))
          ⊎ ((handle ext g.consensus cmd ≡ returns) ⊎ (handle ext g.consensus cmd ≡ panics))
        → handle ext g.consensus cmd ≡ returns
    stop cmd rest h q z (inl (e, fx, o)) =
        absurd (let d : deliver g rest e fx ≡ stopped = rw (q, round, z, o) at h in ground arith)
    stop cmd rest h q z (inr (inl o)) = o
    stop cmd rest h q z (inr (inr o)) = absurd (cc (rw (q, round, z, o) at h))

    leaves :
        round ext g ≡ stopped
        → (pair : ℕ × ℕ) × (rest : List ConsensusCommand) × (g.queue
            ≡ rebroadcast_pre_prepare pair ∷ rest)
          × Lost g.consensus pair
    leaves h = elim (List-cases g.queue) [
      | inl n ↦ absurd (cc (rw (n, round) at h))
      | inr (cmd, rest, q) ↦ elim (Bool-cases (divides_by_zero g.consensus cmd)) [
        | inl zero ↦ absurd (cc (rw (q, round, zero) at h))
        | inr z ↦
            let o = stop cmd rest h q z (Outcome-cases (handle ext g.consensus cmd)) in
            let (pair, c, lost) = handle_returns ext g.consensus cmd o in
            (pair, rest, q ∙ ap (λ x. x ∷ rest) c, lost)
      ]
    ]

    left :
        ((pair : ℕ × ℕ) × (rest : List ConsensusCommand) × (g.queue
            ≡ rebroadcast_pre_prepare pair ∷ rest)
          × Lost g.consensus pair)
        → round ext g ≡ stopped
    left (pair, rest, q, lost) =
        rw (q, round) (unfold handle on_rebroadcast_pre_prepare in rw lost refl)

-- A new leader that enters a view with more work than its queue has room for waits for itself: it
-- sends itself a proposal for each request of the new view and for each one that it waits for.
pub new_view_blocks :
    (ext : External) (g : Engine) (n : NewView) (rest : List ConsensusCommand)
    → g.queue ≡ accept_new_view n ∷ rest
    → n.view % g.consensus.state.config.num_nodes ≡ g.consensus.id
    → capacity
      < length rest + length n.outstanding_pre_prepares + length g.consensus.view_changer.wait_set
    → round ext g ≡ blocked
unfolding round deliver
new_view_blocks ext g n rest q l h =
    let leads = (nat_beq_iff (n.view % g.consensus.state.config.num_nodes) g.consensus.id).1 l in
    let proposals =
      map (λ (p : PrePrepare). init_pre_prepare p.client_request) n.outstanding_pre_prepares in
    let waiting = map init_pre_prepare g.consensus.view_changer.wait_set in
    let size : capacity < length rest + length (proposals ++ waiting) = omega (
      arith,
      length-append proposals waiting,
      length-map (λ (p : PrePrepare). init_pre_prepare p.client_request) n.outstanding_pre_prepares,
      length-map init_pre_prepare g.consensus.view_changer.wait_set,
    ) in
    let full : leb (length rest + length (proposals ++ waiting)) capacity ≡ false = ground arith in
    rw (q, round)
      (unfold handle on_accept_new_view current_leader get_leader_for_view in
        rw leads (rw full refl))
