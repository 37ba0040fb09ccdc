-- ===== src/Replication/Stores.antt =====
-- src/consensus.rs, src/state.rs: the store of a replica and the decided requests.
use p_bft.Base.{
  ℕ, suc, ◌+◌, ◌<◌, ◌≡◌, refl, some, List, [], usize_mod, arith, Option-cases, Bool-cases, inl, inr,
  nat_eq, pair_eq, leb, ◌*◌, length,
}
use p_bft.Collections.BTreeMap.{Bytes, BTreeMap, bytes_eq}
use p_bft.Collections.HashMap.{Entries, get}
use p_bft.Collections.HashMap.Laws.{insert-Entries, get-Entries}
use p_bft.Collections.HashSet
use p_bft.External.{External}
use p_bft.MessageBank.Collect.{garbage_collect-Entries}
use p_bft.State.{State, digest, execute, applied, update_checkpoint_meta, proof_of, garbage_collect}
use p_bft.State
use p_bft.Messages.ClientRequest.{ClientRequest}
use p_bft.Messages.Commit.{Commit}
use p_bft.Messages.CheckPoint.{CheckPoint}
use p_bft.Messages.Message.{Message, identifier_message}
use p_bft.Messages.Command.{
  ConsensusCommand, process_message, accept_pre_prepare, apply_commit, accept_checkpoint,
}
use p_bft.Consensus.Defs.{Consensus, on_process_message}
use p_bft.Consensus.Proposals.{
  on_misdirected_client_request, on_init_pre_prepare, on_rebroadcast_pre_prepare,
  on_accept_pre_prepare,
}
use p_bft.Consensus.Votes.{on_accept_prepare, on_enter_commit, on_accept_commit}
use p_bft.Consensus.Changes.{on_init_view_change, on_accept_view_change, on_accept_new_view}
use p_bft.Consensus.Execution.{
  apply_in_order, on_apply_commit, on_accept_checkpoint, stabilise, fast_forward, record_checkpoint,
}
use p_bft.Consensus.Handle.{handle}
use p_bft.Consensus.Invariant.Steps.{After}
use p_bft.Consensus.Invariant.Checkpoints.{vote}
use p_bft.Replication.Agreed.{Decided, replay, AgreesWith, Consistent, Honest}

-- The update of the checkpoint's proof leaves the store, the log and the count alone.
update_checkpoint_meta-same :
    (s t : State) (n : ℕ) (d : Bytes)
    → update_checkpoint_meta s n d ≡ some t
    → (t.store ≡ s.store)
      × (t.last_seq_num_committed ≡ s.last_seq_num_committed)
      × (t.message_bank ≡ s.message_bank)
unfolding update_checkpoint_meta
update_checkpoint_meta-same s t n d h = ground arith

pub replay-zero : (decided : Decided) → replay decided 0 ≡ []
unfolding replay
replay-zero decided = refl

module _ (decided : Decided) (ext : External) where
  replay-suc : (n : ℕ) → replay decided (suc n) ≡ (execute (replay decided n) (decided (suc n))).1
  unfolding replay
  replay-suc n = refl

  replay-next :
      (n m : ℕ) (store : BTreeMap ℕ) (r : ClientRequest)
      → m ≡ suc n
      → store ≡ replay decided n
      → r ≡ decided m
      → (execute store r).1 ≡ replay decided m
  replay-next n m store r e h d = cc (replay-suc n)

  -- The next request is applied to the store, any other leaves it.
  pub apply_in_order-Consistent :
      (e : Consensus) (c : Commit) (r : ClientRequest)
      → r ≡ decided c.seq_num
      → e.state.last_seq_num_committed + 1 < usize_mod
      → Consistent decided e.state
      → Consistent decided (apply_in_order ext e c r).0.state
  unfolding apply_in_order State.apply_commit applied
  apply_in_order-Consistent e c r d b h =
      ground (arith, replay-next e.state.last_seq_num_committed c.seq_num e.state.store r)

  on_apply_commit-Consistent :
      (e : Consensus) (c : Commit)
      → e.state.last_seq_num_committed + 1 < usize_mod
      → Consistent decided e.state
      → After (Consistent decided) (on_apply_commit ext e c)
  unfolding on_apply_commit
  on_apply_commit-Consistent e c b h =
      elim (Option-cases
        (get e.state.message_bank.accepted_pre_prepare_requests (c.view, c.seq_num))) [
          | inl n ↦ rw (n, on_apply_commit) h
          | inr (p, s) ↦
              rw (s, on_apply_commit)
                (apply_in_order-Consistent e c p.client_request
                  (get-Entries (AgreesWith decided) _ (c.view, c.seq_num) p h.log s) b h)
        ]

  on_process_message-Consistent :
      (e : Consensus) (m : Message)
      → Consistent decided e.state
      → After (Consistent decided) (on_process_message ext e m)
  unfolding on_process_message
  on_process_message-Consistent e (identifier_message m) h = tt
  on_process_message-Consistent e m h = ground arith

  fast_forward-Consistent :
      (s : State) (c : CheckPoint)
      → c.state ≡ replay decided c.committed_seq_num
      → Consistent decided s
      → Consistent decided (fast_forward s c)
  fast_forward-Consistent s c d h = ground arith

  -- What is left of a state after a quorum of checkpoints has the same store and a smaller log.
  stabilise-Consistent :
      (e : Consensus) (s : State) (c : CheckPoint)
      → Consistent decided (fast_forward s c)
      → After (Consistent decided) (stabilise e s c)
  unfolding stabilise garbage_collect p_bft.MessageBank.garbage_collect
  stabilise-Consistent e s c h =
      elim (Option-cases
        (update_checkpoint_meta (fast_forward s c) c.committed_seq_num c.state_digest)) [
          | inl n ↦ rw (n, stabilise) tt
          | inr (t, u) ↦
              let same = update_checkpoint_meta-same (fast_forward s c) t _ _ u in
              let log : Entries (AgreesWith decided) t.message_bank.accepted_pre_prepare_requests =
                rw same.2 h.log in
              rw (u, stabilise)
                (record {
                  store = ground arith;
                  log =
                      garbage_collect-Entries (AgreesWith decided) t.message_bank
                        c.committed_seq_num log;
                })
        ]

  on_accept_checkpoint-Consistent :
      (e : Consensus) (c : CheckPoint)
      → c.state ≡ replay decided c.committed_seq_num
      → Consistent decided e.state
      → After (Consistent decided) (on_accept_checkpoint e c)
  unfolding on_accept_checkpoint
  on_accept_checkpoint-Consistent e c d h =
      elim (Option-cases (
        get (record_checkpoint e.state c).checkpoint_votes (c.committed_seq_num, c.state_digest))) [
          | inl n ↦ rw (n, on_accept_checkpoint) (voted [])
          | inr (voters, k) ↦
              rw (k, on_accept_checkpoint)
                (elim (Bool-cases
                  (leb (2 * e.config.num_faulty) (length (HashSet.insert voters c.id).0))) [
                    | inl quorum ↦ rw quorum (
                        stabilise-Consistent e (vote (record_checkpoint e.state c) c voters) c (
                          fast_forward-Consistent (vote (record_checkpoint e.state c) c voters) c d
                            (voted voters)))
                    | inr few ↦ rw few (voted voters)
                  ])
        ]
    where
      voted : (voters : List ℕ) → Consistent decided (vote (record_checkpoint e.state c) c voters)
      voted voters = record { store = h.store; log = h.log }

  -- Every command that agreement allows keeps the replica consistent with the decided requests:
  -- whatever the order in which commits arrive, however often, and with fast-forwards in between. The
  -- last applied sequence number is assumed to be below the top of its type.
  pub handle-Consistent :
      (e : Consensus) (cmd : ConsensusCommand)
      → e.state.last_seq_num_committed + 1 < usize_mod
      → Honest decided cmd
      → Consistent decided e.state
      → After (Consistent decided) (handle ext e cmd)
  unfolding handle on_misdirected_client_request on_init_pre_prepare on_accept_pre_prepare
      on_rebroadcast_pre_prepare on_accept_prepare on_enter_commit on_accept_commit
      on_init_view_change on_accept_view_change on_accept_new_view
  handle-Consistent e (process_message m) b d h = on_process_message-Consistent e m h
  handle-Consistent e (apply_commit c) b d h = on_apply_commit-Consistent e c b h
  handle-Consistent e (accept_checkpoint c) b d h = on_accept_checkpoint-Consistent e c d h
  handle-Consistent e (accept_pre_prepare p) b d h = record {
    store = h.store;
    log =
        insert-Entries (AgreesWith decided) e.state.message_bank.accepted_pre_prepare_requests
          (p.view, p.seq_num) p h.log d;
  }
  handle-Consistent e _ b d h = ground arith
