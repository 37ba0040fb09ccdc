-- ===== src/Network/Bounds/Handle.antt =====
-- src/consensus.rs, src/state.rs: every handler keeps to the numbers used so far.
use p_bft.Base.{
  ℕ, ◌≡◌, some, List, [], ◌∷◌, All, All-append, All-map, ◌≤◌, arith, Option-cases, inl, inr, nat_eq,
  pair_eq, Bool-cases, leb, length, ◌*◌,
}
use p_bft.Collections.HashMap.{HashMap, get}
use p_bft.Collections.HashMap.Laws.{get-Entries}
use p_bft.External.{External, SocketAddr}
use p_bft.Messages.CheckPoint
use p_bft.Messages.CheckPoint.{CheckPoint}
use p_bft.Messages.PrePrepare.{PrePrepare}
use p_bft.Messages.ClientRequest.{request_eq}
use p_bft.Collections.HashSet
use p_bft.Collections.BTreeMap.{Bytes, bytes_eq}
use p_bft.Messages.Commit.{Commit}
use p_bft.Messages.Message.{pre_prepare_message}
use p_bft.Messages.Command.{
  ConsensusCommand, process_message, init_pre_prepare, accept_pre_prepare, accept_prepare,
  accept_commit, accept_new_view, apply_commit, accept_checkpoint,
}
use p_bft.State.{State, update_checkpoint_meta}
use p_bft.State
use p_bft.Network.Growth.{own_proposal}
use p_bft.MessageBank.Collect.{garbage_collect-Entries}
use p_bft.Consensus.Invariant.Checkpoints.{vote}
use p_bft.Consensus.Defs.{Consensus}
use p_bft.Consensus.Proposals.{
  on_misdirected_client_request, on_init_pre_prepare, on_rebroadcast_pre_prepare,
  equivocate_pre_prepare, equivocate_to,
}
use p_bft.Network.Calm.Defs.{Goes}
use p_bft.Consensus.Votes.{on_enter_commit}
use p_bft.Consensus.Changes.{on_init_view_change, on_accept_view_change}
use p_bft.Consensus.Execution.{
  apply_in_order, on_apply_commit, on_accept_checkpoint, stabilise, checkpoint_commands,
  init_checkpoint, fast_forward, record_checkpoint,
}
use p_bft.Consensus.Handle.{handle}
use p_bft.Network.Bounds.Defs.{LowCommand, LowSent, Within, WithinAfter}
use p_bft.Network.Bounds.Votes.{
  on_process_message-Within, on_accept_prepare-Within, on_accept_commit-Within,
  on_accept_pre_prepare-Within, on_accept_new_view-Within, apply_in_order-Within,
}

checkpoint_commands-Low :
    (top : ℕ) (ext : External) (e : Consensus)
    → e.state.last_seq_num_committed ≤ top
    → All (LowSent top) (checkpoint_commands ext e)
unfolding checkpoint_commands init_checkpoint CheckPoint.new_with_signature
checkpoint_commands-Low top ext e h = ground arith

equivocate_to-Low :
    (top : ℕ) (p q : PrePrepare) (peers : HashMap ℕ SocketAddr)
    → All (LowSent top) (equivocate_to (pre_prepare_message p) (pre_prepare_message q) peers)
unfolding equivocate_to
equivocate_to-Low top p q [] = tt
equivocate_to-Low top p q ((id, addr) ∷ peers) = ground (arith, equivocate_to-Low top p q peers)

update_checkpoint_meta-Within :
    (top : ℕ) (s t : State) (n : ℕ) (d : Bytes)
    → update_checkpoint_meta s n d ≡ some t
    → Within top s
    → Within top t
unfolding update_checkpoint_meta
update_checkpoint_meta-Within top s t n d h w = ground arith

fast_forward-Within :
    (top : ℕ) (s : State) (c : CheckPoint)
    → c.committed_seq_num ≤ top
    → Within top s
    → Within top (fast_forward s c)
fast_forward-Within top s c h w = ground arith

module _ (top : ℕ) (ext : External) (e : Consensus) (s : Within top e.state) where
  on_apply_commit-Within : (c : Commit) → Goes (WithinAfter top) (on_apply_commit ext e c)
  unfolding on_apply_commit
  on_apply_commit-Within c =
      elim (Option-cases
        (get e.state.message_bank.accepted_pre_prepare_requests (c.view, c.seq_num))) [
          | inl n ↦ rw (n, on_apply_commit) (record { state = s; own = tt; told = tt })
          | inr (p, h) ↦
              let low = get-Entries (λ pair p. pair.1 ≤ top) _ (c.view, c.seq_num) p s.log h in
              let a = apply_in_order-Within top ext e s c p.client_request low in
              rw (h, on_apply_commit)
                (record {
                  state = a.state;
                  own = a.own;
                  told =
                      All-append (LowSent top) (apply_in_order ext e c p.client_request).1.to_node _
                        a.told
                        (checkpoint_commands-Low top ext (apply_in_order ext e c p.client_request).0
                          a.state.applied);
                })
        ]

  stabilise-Within :
      (t : State) (c : CheckPoint)
      → Within top (fast_forward t c)
      → Goes (WithinAfter top) (stabilise e t c)
  unfolding stabilise State.garbage_collect p_bft.MessageBank.garbage_collect
  stabilise-Within t c w =
      elim (Option-cases
        (update_checkpoint_meta (fast_forward t c) c.committed_seq_num c.state_digest)) [
          | inl n ↦ rw (n, stabilise) tt
          | inr (u, h) ↦
              let w' = update_checkpoint_meta-Within top (fast_forward t c) u _ _ h w in
              rw (h, stabilise)
                (record {
                  state = record {
                    applied = w'.applied;
                    log =
                        garbage_collect-Entries (λ pair p. pair.1 ≤ top) u.message_bank
                          c.committed_seq_num w'.log;
                  };
                  own = All-map (LowCommand top) apply_commit (λ d. tt) _;
                  told = tt;
                })
        ]

  on_accept_checkpoint-Within :
      (c : CheckPoint)
      → c.committed_seq_num ≤ top
      → Goes (WithinAfter top) (on_accept_checkpoint e c)
  unfolding on_accept_checkpoint
  on_accept_checkpoint-Within c h =
      elim (Option-cases (
        get (record_checkpoint e.state c).checkpoint_votes (c.committed_seq_num, c.state_digest))) [
          | inl n ↦ rw (n, on_accept_checkpoint) (record { state = voted []; own = tt; told = tt })
          | inr (voters, k) ↦
              rw (k, on_accept_checkpoint)
                (elim (Bool-cases
                  (leb (2 * e.config.num_faulty) (length (HashSet.insert voters c.id).0))) [
                    | inl quorum ↦ rw quorum (
                        stabilise-Within (vote (record_checkpoint e.state c) c voters) c (
                          fast_forward-Within top (vote (record_checkpoint e.state c) c voters) c h
                            (voted voters)))
                    | inr few ↦ rw few (record { state = voted voters; own = tt; told = tt })
                  ])
        ]
    where
      voted : (voters : List ℕ) → Within top (vote (record_checkpoint e.state c) c voters)
      voted voters = record { applied = s.applied; log = s.log }

  -- A replica that keeps to the numbers used does so after any command that keeps to them, and so do
  -- the commands and the checkpoints that it sends.
  pub handle-Within :
      (cmd : ConsensusCommand) → LowCommand top cmd → Goes (WithinAfter top) (handle ext e cmd)
  unfolding handle on_misdirected_client_request on_init_pre_prepare on_rebroadcast_pre_prepare
      on_enter_commit on_init_view_change on_accept_view_change equivocate_pre_prepare
  handle-Within (process_message m) h = on_process_message-Within top ext e s m h
  handle-Within (accept_pre_prepare p) h = on_accept_pre_prepare-Within top ext e s p h
  handle-Within (accept_prepare p) h = on_accept_prepare-Within top ext e s p
  handle-Within (accept_commit c) h = on_accept_commit-Within top ext e s c
  handle-Within (accept_new_view n) h = on_accept_new_view-Within top ext e s n
  handle-Within (apply_commit c) h = on_apply_commit-Within c
  handle-Within (accept_checkpoint c) h = on_accept_checkpoint-Within c h
  handle-Within (init_pre_prepare r) h = ground (
    arith,
    equivocate_to-Low top (own_proposal ext e r) (own_proposal ext e (record r { value = some 42 }))
        e.config.peer_addrs,
  )
  handle-Within cmd h = ground arith
