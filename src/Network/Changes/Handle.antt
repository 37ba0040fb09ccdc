-- ===== src/Network/Changes/Handle.antt =====
-- src/consensus.rs: every handler, where few nodes ask for a view change.
use p_bft.Base.{
  ℕ, ◌*◌, ◌≤◌, ◌≡◌, refl, ◌∙◌, inl, inr, some, List, [], ◌∷◌, All, All-append, All-map, arith,
  nat_eq, pair_eq, leb, length, Option-cases, Bool-cases,
}
use p_bft.Collections.BTreeMap.{Bytes, bytes_eq}
use p_bft.Collections.HashMap.{HashMap, get}
use p_bft.Collections.HashSet
use p_bft.Collections.HashSet.{contains}
use p_bft.External.{External, SocketAddr}
use p_bft.Messages.ClientRequest.{ClientRequest, request_eq}
use p_bft.Messages.PrePrepare.{PrePrepare}
use p_bft.Messages.Commit.{Commit}
use p_bft.Messages.CheckPoint.{CheckPoint}
use p_bft.Messages.Message.{pre_prepare_message}
use p_bft.Messages.Command.{
  ConsensusCommand, process_message, init_pre_prepare, accept_pre_prepare, accept_prepare,
  accept_commit, accept_view_change, accept_new_view, apply_commit, accept_checkpoint,
}
use p_bft.State
use p_bft.State.{
  State, initial, update_checkpoint_meta, garbage_collect, applied, get_next_consecutive_commits,
}
use p_bft.Consensus.Defs.{Consensus}
use p_bft.Consensus.Proposals.{
  on_misdirected_client_request, on_init_pre_prepare, on_rebroadcast_pre_prepare,
  equivocate_pre_prepare, equivocate_to,
}
use p_bft.Consensus.Votes.{on_enter_commit}
use p_bft.Consensus.Changes.{on_init_view_change}
use p_bft.Consensus.Execution.{
  apply_in_order, on_apply_commit, on_accept_checkpoint, stabilise, checkpoint_commands,
  init_checkpoint, fast_forward, record_checkpoint,
}
use p_bft.Consensus.Invariant.Checkpoints.{vote}
use p_bft.Consensus.Handle.{handle}
use p_bft.Network.Calm.Defs.{Goes, NoNewView}
use p_bft.Network.Growth.{own_proposal}
use p_bft.Network.Changes.Defs.{LateCommand, LateVotes, LateAfter}
use p_bft.Network.Changes.Votes.{
  on_accept_view_change-Late, on_process_message-Late, on_accept_prepare-Late,
  on_accept_commit-Late, on_accept_pre_prepare-Late, on_accept_new_view-Late,
}

update_checkpoint_meta-votes :
    (s t : State) (n : ℕ) (d : Bytes)
    → update_checkpoint_meta s n d ≡ some t
    → t.view_change_votes ≡ s.view_change_votes
unfolding update_checkpoint_meta
update_checkpoint_meta-votes s t n d h = ground arith

fast_forward-votes :
    (s : State) (c : CheckPoint) → (fast_forward s c).view_change_votes ≡ s.view_change_votes
fast_forward-votes s c = ground arith

equivocate_to-quiet :
    (p q : PrePrepare) (peers : HashMap ℕ SocketAddr)
    → All NoNewView (equivocate_to (pre_prepare_message p) (pre_prepare_message q) peers)
unfolding equivocate_to
equivocate_to-quiet p q [] = tt
equivocate_to-quiet p q ((id, addr) ∷ peers) = ground (arith, equivocate_to-quiet p q peers)

checkpoint_commands-quiet :
    (ext : External) (e : Consensus) → All NoNewView (checkpoint_commands ext e)
unfolding checkpoint_commands init_checkpoint
checkpoint_commands-quiet ext e = ground arith

-- The same votes are as few.
LateVotes-same :
    (late : List ℕ) (s t : State)
    → t.view_change_votes ≡ s.view_change_votes
    → LateVotes late s
    → LateVotes late t
LateVotes-same late s t same v = record { voters = rw same v.voters; distinct = rw same v.distinct }

module _ (late : List ℕ) (ext : External) (e : Consensus) (s : LateVotes late e.state) where
  apply_in_order-Late :
      (c : Commit) (r : ClientRequest)
      → let (e', effects) = apply_in_order ext e c r in LateAfter late e' effects
  unfolding apply_in_order State.apply_commit applied
  apply_in_order-Late c r = ground (
    arith,
    All-map (LateCommand late) apply_commit (λ d. tt)
        (get_next_consecutive_commits (applied e.state r c)),
  )

  on_apply_commit-Late : (c : Commit) → Goes (LateAfter late) (on_apply_commit ext e c)
  unfolding on_apply_commit
  on_apply_commit-Late c =
      elim (Option-cases
        (get e.state.message_bank.accepted_pre_prepare_requests (c.view, c.seq_num))) [
          | inl n ↦ rw (n, on_apply_commit) (record { state = s; own = tt; told = tt })
          | inr (p, h) ↦
              let a = apply_in_order-Late c p.client_request in
              rw (h, on_apply_commit)
                (record {
                  state = a.state;
                  own = a.own;
                  told =
                      All-append NoNewView (apply_in_order ext e c p.client_request).1.to_node _
                        a.told
                        (checkpoint_commands-quiet ext (apply_in_order ext e c p.client_request).0);
                })
        ]

  stabilise-Late :
      (t : State) (c : CheckPoint)
      → t.view_change_votes ≡ e.state.view_change_votes
      → Goes (LateAfter late) (stabilise e t c)
  unfolding stabilise garbage_collect
  stabilise-Late t c kept =
      elim (Option-cases
        (update_checkpoint_meta (fast_forward t c) c.committed_seq_num c.state_digest)) [
          | inl n ↦ rw (n, stabilise) tt
          | inr (u, h) ↦
              let same =
                update_checkpoint_meta-votes (fast_forward t c) u _ _ h
                ∙ fast_forward-votes t c
                ∙ kept in
              let w = LateVotes-same late e.state u same s in
              rw (h, stabilise)
                (record {
                  state = record { voters = w.voters; distinct = w.distinct };
                  own = All-map (LateCommand late) apply_commit (λ d. tt) _;
                  told = tt;
                })
        ]

  on_accept_checkpoint-Late : (c : CheckPoint) → Goes (LateAfter late) (on_accept_checkpoint e c)
  unfolding on_accept_checkpoint
  on_accept_checkpoint-Late c =
      elim (Option-cases (
        get (record_checkpoint e.state c).checkpoint_votes (c.committed_seq_num, c.state_digest))) [
          | inl n ↦ rw (n, on_accept_checkpoint) (record { state = voted []; own = tt; told = tt })
          | inr (voters, k) ↦
              rw (k, on_accept_checkpoint)
                (elim (Bool-cases
                  (leb (2 * e.config.num_faulty) (length (HashSet.insert voters c.id).0))) [
                    | inl quorum ↦ rw quorum (stabilise-Late _ c refl)
                    | inr few ↦ rw few (record { state = voted voters; own = tt; told = tt })
                  ])
        ]
    where
      voted : (voters : List ℕ) → LateVotes late (vote (record_checkpoint e.state c) c voters)
      voted voters = record { voters = s.voters; distinct = s.distinct }

  -- With so few that ask for it, a view change does not complete.
  pub handle-Late :
      (cmd : ConsensusCommand)
      → length late ≤ 2 * e.config.num_faulty
      → LateCommand late cmd
      → Goes (LateAfter late) (handle ext e cmd)
  unfolding handle on_misdirected_client_request on_init_pre_prepare on_rebroadcast_pre_prepare
      on_enter_commit on_init_view_change equivocate_pre_prepare
  handle-Late (process_message m) few h = on_process_message-Late late ext e s m h
  handle-Late (accept_pre_prepare p) few h = on_accept_pre_prepare-Late late ext e s p
  handle-Late (accept_prepare p) few h = on_accept_prepare-Late late ext e s p
  handle-Late (accept_commit c) few h = on_accept_commit-Late late ext e s c
  handle-Late (accept_view_change v) few h = on_accept_view_change-Late late ext e s v few h
  handle-Late (accept_new_view n) few h = on_accept_new_view-Late late ext e s n
  handle-Late (apply_commit c) few h = on_apply_commit-Late c
  handle-Late (accept_checkpoint c) few h = on_accept_checkpoint-Late c
  handle-Late (init_pre_prepare r) few h = ground (
    arith,
    equivocate_to-quiet (own_proposal ext e r) (own_proposal ext e (record r { value = some 42 }))
        e.config.peer_addrs,
  )
  handle-Late cmd few h = ground arith
