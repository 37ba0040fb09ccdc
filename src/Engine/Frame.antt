-- ===== src/Engine/Frame.antt =====
-- src/consensus.rs: what handlers leave as it is, and what they send to the engine itself.
use p_bft.Base.{
  ℕ, ◌≡◌, refl, ◌∙◌, some, map, All, All-append, All-map, arith, nat_eq, pair_eq, ◌*◌, Option-cases,
  Bool-cases, inl, inr, leb, length,
}
use p_bft.Collections.BTreeMap.{Bytes, bytes_eq}
use p_bft.Collections.HashMap.{get}
use p_bft.Collections.HashSet
use p_bft.External.{External}
use p_bft.State.{
  State, update_checkpoint_meta, garbage_collect, applied, get_next_consecutive_commits,
}
use p_bft.Messages.Commit.{Commit}
use p_bft.Messages.Prepare.{Prepare}
use p_bft.Messages.CheckPoint.{CheckPoint}
use p_bft.Messages.NewView.{NewView}
use p_bft.Messages.PrePrepare.{PrePrepare}
use p_bft.Messages.ClientRequest.{ClientRequest}
use p_bft.Messages.Message.{Message, identifier_message}
use p_bft.Messages.Command.{
  ConsensusCommand, process_message, init_pre_prepare, accept_pre_prepare, accept_prepare,
  accept_commit, accept_new_view, apply_commit, accept_checkpoint,
}
use p_bft.Consensus.Defs.{Consensus, Outcome, continues, returns, panics, on_process_message}
use p_bft.Consensus.Proposals.{
  on_misdirected_client_request, on_init_pre_prepare, on_rebroadcast_pre_prepare,
  on_accept_pre_prepare,
}
use p_bft.Consensus.Votes.{
  on_accept_prepare, on_enter_commit, on_accept_commit, count_prepare, count_commit,
}
use p_bft.Consensus.Changes.{on_init_view_change, on_accept_view_change, on_accept_new_view}
use p_bft.Consensus.Execution.{
  apply_in_order, on_apply_commit, on_accept_checkpoint, stabilise, fast_forward, record_checkpoint,
}
use p_bft.Consensus.Handle.{handle}
use p_bft.Consensus.Invariant.Preserved.{Passed}

-- A handler that goes on leaves the node's identity and configuration as they were, and sends itself
-- no message that the network task should have kept.
abbrev pub Frame : Consensus → Outcome → Type 0
Frame e (continues e' effects) =
    (e'.config ≡ e.config)
    × (e'.id ≡ e.id)
    × (e'.keypair_bytes ≡ e.keypair_bytes)
    × (e'.state.config ≡ e.state.config)
    × (e'.state.id ≡ e.state.id)
    × All Passed effects.to_self
Frame e returns = Unit
Frame e panics = Unit

on_process_message-Frame :
    (ext : External) (e : Consensus) (m : Message) → Frame e (on_process_message ext e m)
unfolding on_process_message
on_process_message-Frame ext e (identifier_message m) = tt
on_process_message-Frame ext e m = ground arith

on_accept_pre_prepare-Frame :
    (ext : External) (e : Consensus) (p : PrePrepare) → Frame e (on_accept_pre_prepare ext e p)
unfolding on_accept_pre_prepare
on_accept_pre_prepare-Frame ext e p =
    (refl, refl, refl, refl, refl, All-map Passed accept_prepare (λ q. tt) _)

count_prepare-Passed :
    (f : ℕ) (e : State) (p : Prepare) → All Passed (count_prepare f e.prepare_votes p).1
unfolding count_prepare
count_prepare-Passed f e p = ground arith

count_commit-Passed :
    (f : ℕ) (e : State) (c : Commit) → All Passed (count_commit f e.commit_votes c).1
unfolding count_commit
count_commit-Passed f e c = ground arith

on_accept_prepare-Frame : (e : Consensus) (p : Prepare) → Frame e (on_accept_prepare e p)
unfolding on_accept_prepare
on_accept_prepare-Frame e p = (
  refl,
  refl,
  refl,
  refl,
  refl,
  All-append Passed (count_prepare e.config.num_faulty e.state.prepare_votes p).1 _
      (count_prepare-Passed e.config.num_faulty e.state p)
      (All-map Passed accept_commit (λ c. tt) _),
)

on_accept_commit-Frame : (e : Consensus) (c : Commit) → Frame e (on_accept_commit e c)
unfolding on_accept_commit
on_accept_commit-Frame e c =
    (refl, refl, refl, refl, refl, count_commit-Passed e.config.num_faulty e.state c)

on_accept_new_view-Frame : (e : Consensus) (n : NewView) → Frame e (on_accept_new_view e n)
unfolding on_accept_new_view
on_accept_new_view-Frame e n = ground (
  arith,
  All-append Passed
      (map (λ (p : PrePrepare). init_pre_prepare p.client_request) n.outstanding_pre_prepares)
      (map init_pre_prepare e.view_changer.wait_set)
      (All-map Passed (λ (p : PrePrepare). init_pre_prepare p.client_request) (λ p. tt)
        n.outstanding_pre_prepares)
      (All-map Passed init_pre_prepare (λ r. tt) e.view_changer.wait_set),
)

apply_in_order-Frame :
    (ext : External) (e : Consensus) (c : Commit) (r : ClientRequest)
    → let (e', effects) = apply_in_order ext e c r in Frame e (continues e' effects)
unfolding apply_in_order p_bft.State.apply_commit applied
apply_in_order-Frame ext e c r = ground (
  arith,
  All-map Passed apply_commit (λ d. tt) (get_next_consecutive_commits (applied e.state r c)),
)

on_apply_commit-Frame :
    (ext : External) (e : Consensus) (c : Commit) → Frame e (on_apply_commit ext e c)
unfolding on_apply_commit
on_apply_commit-Frame ext e c =
    elim (Option-cases
      (get e.state.message_bank.accepted_pre_prepare_requests (c.view, c.seq_num))) [
        | inl n ↦ rw (n, on_apply_commit) (refl, refl, refl, refl, refl, tt)
        | inr (p, h) ↦ rw (h, on_apply_commit) (apply_in_order-Frame ext e c p.client_request)
      ]

update_checkpoint_meta-same :
    (s t : State) (n : ℕ) (d : Bytes)
    → update_checkpoint_meta s n d ≡ some t
    → (t.config ≡ s.config) × (t.id ≡ s.id)
unfolding update_checkpoint_meta
update_checkpoint_meta-same s t n d h = ground arith

fast_forward-same :
    (s : State) (c : CheckPoint)
    → ((fast_forward s c).config ≡ s.config) × ((fast_forward s c).id ≡ s.id)
fast_forward-same s c = ground arith

stabilise-Frame :
    (e : Consensus) (s : State) (c : CheckPoint)
    → s.config ≡ e.state.config
    → s.id ≡ e.state.id
    → Frame e (stabilise e s c)
unfolding stabilise garbage_collect
stabilise-Frame e s c p q =
    elim (Option-cases
      (update_checkpoint_meta (fast_forward s c) c.committed_seq_num c.state_digest)) [
        | inl n ↦ rw (n, stabilise) tt
        | inr (t, u) ↦
            let (same, same_id) = update_checkpoint_meta-same (fast_forward s c) t _ _ u in
            let (kept, kept_id) = fast_forward-same s c in
            rw (u, stabilise)
              (
                refl,
                refl,
                refl,
                same ∙ kept ∙ p,
                same_id ∙ kept_id ∙ q,
                All-map Passed apply_commit (λ d. tt) _,
              )
      ]

on_accept_checkpoint-Frame : (e : Consensus) (c : CheckPoint) → Frame e (on_accept_checkpoint e c)
unfolding on_accept_checkpoint
on_accept_checkpoint-Frame e c =
    elim (Option-cases
      (get (record_checkpoint e.state c).checkpoint_votes (c.committed_seq_num, c.state_digest))) [
        | inl n ↦ rw (n, on_accept_checkpoint) (refl, refl, refl, refl, refl, tt)
        | inr (voters, k) ↦
            rw (k, on_accept_checkpoint)
              (elim (Bool-cases
                (leb (2 * e.config.num_faulty) (length (HashSet.insert voters c.id).0))) [
                  | inl quorum ↦ rw quorum (stabilise-Frame e _ c refl refl)
                  | inr few ↦ rw few (refl, refl, refl, refl, refl, tt)
                ])
      ]

pub handle-Frame :
    (ext : External) (e : Consensus) (cmd : ConsensusCommand) → Frame e (handle ext e cmd)
unfolding handle on_misdirected_client_request on_init_pre_prepare on_rebroadcast_pre_prepare
    on_enter_commit on_init_view_change on_accept_view_change
handle-Frame ext e (process_message m) = on_process_message-Frame ext e m
handle-Frame ext e (accept_pre_prepare p) = on_accept_pre_prepare-Frame ext e p
handle-Frame ext e (accept_prepare p) = on_accept_prepare-Frame e p
handle-Frame ext e (accept_commit c) = on_accept_commit-Frame e c
handle-Frame ext e (accept_new_view n) = on_accept_new_view-Frame e n
handle-Frame ext e (apply_commit c) = on_apply_commit-Frame ext e c
handle-Frame ext e (accept_checkpoint c) = on_accept_checkpoint-Frame e c
handle-Frame ext e _ = ground arith
