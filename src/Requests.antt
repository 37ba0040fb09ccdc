-- ===== src/Requests.antt =====
-- src/consensus.rs and src/view_changer.rs: one request at a replica, from its proposal to the end of
-- its timer.
pub mod Marks
use p_bft.Base.{
  ℕ, ◌≡◌, ◌≢◌, refl, true, false, [], ◌∷◌, nat_eq, pair_eq, incr, nat_beq, nat_beq_iff, Bool-cases,
  inl, inr, ==_refl, ap, ◌∙◌, ◌||◌,
}
use p_bft.Collections.HashSet.Laws.{contains-insert}
use p_bft.External.{External}
use p_bft.State.{current_leader}
use p_bft.ViewChanger.{ViewChanger}
use p_bft.Messages.ClientRequest.{ClientRequest, request_eq}
use p_bft.Messages.PrePrepare
use p_bft.Messages.PrePrepare.{PrePrepare}
use p_bft.Collections.HashSet.{contains}
use p_bft.Requests.Marks.{marks, Handled, Handled-keeps}
use p_bft.Messages.ViewChange
use p_bft.Messages.Commit.{Commit}
use p_bft.Messages.Message.{pre_prepare_message}
use p_bft.Messages.Command.{broad_cast_message}
use p_bft.Consensus.Defs.{Consensus, after, sent, continues, quiet}
use p_bft.Consensus.Proposals.{on_init_pre_prepare, was_sent}
use p_bft.Consensus.Changes.{on_init_view_change, subsequent_prepares}
use p_bft.Consensus.Handle.{handle}

-- A request that was sent in this view is passed over.
sent_quiet :
    (ext : External) (e : Consensus) (r : ClientRequest)
    → was_sent e r ≡ true
    → on_init_pre_prepare ext e r ≡ continues e quiet
unfolding on_init_pre_prepare
sent_quiet ext e r h = rw h refl

init-marks :
    (ext : External) (e : Consensus) (r : ClientRequest)
    → e.config.is_equivocator ≡ false
    → was_sent (after e (on_init_pre_prepare ext e r)) r ≡ true
unfolding on_init_pre_prepare
init-marks ext e r honest =
    let pair : ℕ × ClientRequest = (e.state.view, r) in
    elim (Bool-cases (was_sent e r)) [
      | inl y ↦ rw y y
      | inr n ↦ rw n (rw honest (rw (contains-insert, ==_refl pair) refl))
    ]

init-proposes :
    (ext : External) (e : Consensus) (r : ClientRequest)
    → e.config.is_equivocator ≡ false
    → was_sent e r ≡ false
    → (sent (on_init_pre_prepare ext e r)).to_node
      ≡ broad_cast_message (
          pre_prepare_message (
            PrePrepare.new_with_signature ext e.keypair_bytes e.id e.state.view
              (incr e.state.seq_num)
              r))
        ∷ []
unfolding on_init_pre_prepare
init-proposes ext e r honest fresh = rw fresh (rw honest refl)

-- A leader proposes a request once in a view. The first time it broadcasts a proposal for the request
-- with the next sequence number; and when the request comes again, after whatever commands were handled
-- since, with the replica in the same view, nothing is sent and nothing changes. This is for a node that
-- is no equivocator.
pub proposed_once :
    (ext : External) (e e' : Consensus) (r : ClientRequest)
    → e.config.is_equivocator ≡ false
    → was_sent e r ≡ false
    → Handled ext (after e (on_init_pre_prepare ext e r)) e'
    → e'.state.view ≡ (after e (on_init_pre_prepare ext e r)).state.view
    → ((sent (on_init_pre_prepare ext e r)).to_node
        ≡ broad_cast_message (
            pre_prepare_message (
              PrePrepare.new_with_signature ext e.keypair_bytes e.id e.state.view
                (incr e.state.seq_num)
                r))
          ∷ [])
      × (on_init_pre_prepare ext e' r ≡ continues e' quiet)
proposed_once ext e e' r honest fresh later same =
    let e₁ = after e (on_init_pre_prepare ext e r) in
    let kept = Handled-keeps (e₁.state.view, r) later (init-marks ext e r honest) in
    (
      init-proposes ext e r honest fresh,
      sent_quiet ext e' r (ap (λ v. contains (marks e'.state) (v, r)) same ∙ kept),
    )
