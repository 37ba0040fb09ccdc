-- ===== src/Node/Handlers.antt =====
-- src/consensus.rs: the signatures on what each handler sends.
use p_bft.Base.{
  ◌≡◌, refl, [], All, All-append, arith, nat_eq, pair_eq, nat_beq, Bool-cases, Option-cases, inl,
  inr, ltb, leb, incr, length, ◌*◌, ◌||◌,
}
use p_bft.Collections.HashSet
use p_bft.Collections.BTreeMap.{bytes_eq}
use p_bft.Messages.ClientRequest.{request_eq, ClientRequest}
use p_bft.Collections.HashMap.{get, insert}
use p_bft.External.{External, SignaturesVerify}
use p_bft.State.{State, current_leader}
use p_bft.Messages.Commit.{Commit}
use p_bft.Messages.CheckPoint
use p_bft.Messages.ViewChange
use p_bft.Messages.ViewChange.{ViewChange, Prepared}
use p_bft.Messages.NewView
use p_bft.Messages.ClientResponse
use p_bft.Messages.Message.{Message, get_id, is_properly_signed_by}
use p_bft.Messages.Command.{
  ConsensusCommand, process_message, rebroadcast_pre_prepare, accept_pre_prepare, enter_commit,
  init_view_change, accept_view_change, apply_commit, accept_prepare, accept_commit,
  accept_new_view, misdirected_client_request, init_pre_prepare, accept_checkpoint,
}
use p_bft.Consensus.Defs.{Consensus, Outcome, sent, on_process_message}
use p_bft.Consensus.Proposals.{
  on_misdirected_client_request, on_init_pre_prepare, equivocate_pre_prepare, was_sent,
  on_accept_pre_prepare,
}
use p_bft.Consensus.Votes.{on_accept_prepare, on_enter_commit, on_accept_commit}
use p_bft.Consensus.Changes.{on_init_view_change, on_accept_view_change, on_accept_new_view}
use p_bft.Consensus.Execution.{on_apply_commit, on_accept_checkpoint, apply_in_order, stabilise}
use p_bft.Consensus.Handle.{handle}
use p_bft.Node.Signed.{
  Own, Fresh, pre_prepare-SignedBy, prepare-SignedBy, commit-SignedBy, equivocate_to-Own,
  checkpoint_commands-Own,
}

module _ (ext : External) (v : SignaturesVerify ext) where
  on_init_pre_prepare-Own :
      (e : Consensus) (r : ClientRequest)
      → All (Own ext e.keypair_bytes e.id) (sent (on_init_pre_prepare ext e r)).to_node
  unfolding on_init_pre_prepare equivocate_pre_prepare
  on_init_pre_prepare-Own e r = elim (Bool-cases (was_sent e r)) [
    | inl y ↦ rw y tt
    | inr n ↦ rw n (elim (Bool-cases e.config.is_equivocator) [
      | inl y ↦ rw y (
          equivocate_to-Own ext v e _ _ e.config.peer_addrs (pre_prepare-SignedBy ext v _ _ _ _ _)
            (pre_prepare-SignedBy ext v _ _ _ _ _))
      | inr n ↦ rw n (pre_prepare-SignedBy ext v _ _ _ _ _, tt)
    ])
  ]

  on_init_view_change-Own :
      (e : Consensus) (r : ClientRequest)
      → All (Own ext e.keypair_bytes e.id) (sent (on_init_view_change ext e r)).to_node
  unfolding on_init_view_change ViewChange.new_with_signature get_id
      ViewChange.is_properly_signed_by is_properly_signed_by
  on_init_view_change-Own e r =
      elim (Bool-cases (e.state.in_view_change || nat_beq (current_leader e.state) e.id)) [
        | inl y ↦ rw y tt
        | inr n ↦ rw n ((refl, v e.keypair_bytes _), tt)
      ]

  on_accept_view_change-Own :
      (e : Consensus) (c : ViewChange)
      → All (Own ext e.keypair_bytes e.id) (sent (on_accept_view_change ext e c)).to_node
  unfolding on_accept_view_change NewView.new_with_signature get_id is_properly_signed_by
  on_accept_view_change-Own e c =
      elim (Bool-cases
        (ltb (2 * e.config.num_faulty) (length (insert e.state.view_change_votes c.id c)))) [
          | inl y ↦ rw y ((refl, refl), tt)
          | inr n ↦ rw n tt
        ]

  apply_in_order-Own :
      (e : Consensus) (c : Commit) (r : ClientRequest)
      → All (Own ext e.keypair_bytes e.id) (apply_in_order ext e c r).1.to_node
  unfolding apply_in_order ClientResponse.new_with_signature get_id is_properly_signed_by
  apply_in_order-Own e c r =
      elim (Bool-cases (nat_beq c.seq_num (incr e.state.last_seq_num_committed))) [
        | inl y ↦ rw y ((refl, refl), tt)
        | inr n ↦ rw n (elim (Bool-cases (ltb (incr e.state.last_seq_num_committed) c.seq_num)) [
          | inl y ↦ rw y tt
          | inr n ↦ rw n tt
        ])
      ]

  apply_in_order_same :
      (e : Consensus) (c : Commit) (r : ClientRequest)
      → let e' = (apply_in_order ext e c r).0 in
        (e'.keypair_bytes ≡ e.keypair_bytes) × (e'.id ≡ e.id)
  unfolding apply_in_order
  apply_in_order_same e c r = (ground arith, ground arith)

  on_apply_commit-Own :
      (e : Consensus) (c : Commit)
      → All (Own ext e.keypair_bytes e.id) (sent (on_apply_commit ext e c)).to_node
  unfolding on_apply_commit
  on_apply_commit-Own e c =
      elim (Option-cases
        (get e.state.message_bank.accepted_pre_prepare_requests (c.view, c.seq_num))) [
          | inl n ↦ rw (n, on_apply_commit) tt
          | inr (p, k) ↦
              rw (k, on_apply_commit)
                (let (pair, id) = apply_in_order_same e c p.client_request in
                  All-append _ _ _ (apply_in_order-Own e c p.client_request) (
                    rw (pair, id) at
                      (checkpoint_commands-Own ext v (apply_in_order ext e c p.client_request).0)))
        ]

  silent :
      (e : Consensus) (o : Outcome)
      → (sent o).to_node ≡ []
      → All (Own ext e.keypair_bytes e.id) (sent o).to_node
  silent e o h = rw h tt

  misdirected-Own :
      (e : Consensus) (r : ClientRequest)
      → All (Own ext e.keypair_bytes e.id) (sent (on_misdirected_client_request e r)).to_node
  unfolding on_misdirected_client_request
  misdirected-Own e r = elim (Bool-cases (was_sent e r)) [
    | inl y ↦ rw y tt
    | inr n ↦ rw n (elim (Bool-cases e.config.is_equivocator) [
      | inl y ↦ rw y tt
      | inr n ↦ rw n (elim (Option-cases (get e.config.peer_addrs (current_leader e.state))) [
        | inl k ↦ rw (k, on_misdirected_client_request) tt
        | inr (addr, k) ↦ rw (k, on_misdirected_client_request) (tt, tt)
      ])
    ])
  ]

  stabilise_quiet :
      (e : Consensus) (s : State) (c : CheckPoint.CheckPoint)
      → (sent (stabilise e s c)).to_node ≡ []
  unfolding stabilise
  stabilise_quiet e s c = ground arith

  on_accept_checkpoint_quiet :
      (e : Consensus) (c : CheckPoint.CheckPoint) → (sent (on_accept_checkpoint e c)).to_node ≡ []
  unfolding on_accept_checkpoint
  on_accept_checkpoint_quiet e c =
      elim (Option-cases (get e.state.checkpoint_votes (c.committed_seq_num, c.state_digest))) [
        | inl n ↦ rw (n, on_accept_checkpoint) refl
        | inr (s, k) ↦
            rw (k, on_accept_checkpoint)
              (elim (Bool-cases
                (leb (2 * e.config.num_faulty) (length (HashSet.insert s c.id).0))) [
                  | inl y ↦ rw y (stabilise_quiet e _ c)
                  | inr n ↦ rw n refl
                ])
      ]

  on_process_message_quiet :
      (e : Consensus) (m : Message) → (sent (on_process_message ext e m)).to_node ≡ []
  unfolding on_process_message
  on_process_message_quiet e m = ground arith

  -- Whatever the engine sends, it sends under its own id, and its public key verifies it; but for a
  -- client's request that it forwards, and a proposal that it sends again.
  pub handle-Own :
      (e : Consensus) (cmd : ConsensusCommand)
      → Fresh cmd
      → All (Own ext e.keypair_bytes e.id) (sent (handle ext e cmd)).to_node
  unfolding handle
  handle-Own e (init_pre_prepare r) f = on_init_pre_prepare-Own e r
  handle-Own e (init_view_change r) f = on_init_view_change-Own e r
  handle-Own e (accept_view_change c) f = on_accept_view_change-Own e c
  handle-Own e (apply_commit c) f = on_apply_commit-Own e c
  handle-Own e (accept_pre_prepare p) f =
      unfold on_accept_pre_prepare in (prepare-SignedBy ext v _ _ _ _ _, tt)
  handle-Own e (enter_commit p) f = unfold on_enter_commit in (commit-SignedBy ext v _ _ _ _ _, tt)
  handle-Own e (rebroadcast_pre_prepare pair) f = absurd f
  handle-Own e (process_message m) f =
      silent e (on_process_message ext e m) (on_process_message_quiet e m)
  handle-Own e (misdirected_client_request r) f = misdirected-Own e r
  handle-Own e (accept_checkpoint c) f =
      silent e (on_accept_checkpoint e c) (on_accept_checkpoint_quiet e c)
  handle-Own e (accept_prepare p) f = unfold on_accept_prepare in tt
  handle-Own e (accept_commit c) f = unfold on_accept_commit in tt
  handle-Own e (accept_new_view n) f =
      silent e (on_accept_new_view e n) (unfold on_accept_new_view in ground arith)
