-- ===== src/Network/Calm/Execution.antt =====
-- src/consensus.rs: commits and checkpoints, while no view change completes.
use p_bft.Base.{
  ℕ, ◌≡◌, refl, some, List, [], All, All-append, All-map, arith, nat_eq, pair_eq, ◌*◌, ◌∙◌,
  Option-cases, Bool-cases, inl, inr, leb, length,
}
use p_bft.Collections.BTreeMap.{Bytes, bytes_eq}
use p_bft.Collections.HashMap.{Entries, get}
use p_bft.External.{External}
use p_bft.Messages.ClientRequest.{ClientRequest}
use p_bft.Messages.PrePrepare.{PrePrepare}
use p_bft.Messages.Command.{apply_commit}
use p_bft.State.{
  State, current_leader, update_checkpoint_meta, applied, get_next_consecutive_commits,
  garbage_collect,
}
use p_bft.Consensus.Defs.{Consensus, quiet}
use p_bft.Consensus.Execution.{
  apply_in_order, on_apply_commit, on_accept_checkpoint, stabilise, fast_forward, record_checkpoint,
  checkpoint_commands, init_checkpoint,
}
use p_bft.Messages.Commit.{Commit}
use p_bft.Messages.CheckPoint
use p_bft.Messages.CheckPoint.{CheckPoint}
use p_bft.Collections.HashSet
use p_bft.Consensus.Invariant.Checkpoints.{vote}
use p_bft.MessageBank.Collect.{garbage_collect-Entries}
use p_bft.State
use p_bft.Network.Calm.Defs.{Goes, CalmSent, CalmState, CalmCommand, CalmAfter}

module _ (P : PrePrepare → Type 0) (leads : Type 0) where
  checkpoint_commands-Calm :
      (ext : External) (e : Consensus)
      → e.state.view ≡ 0
      → All (CalmSent P) (checkpoint_commands ext e)
  unfolding checkpoint_commands init_checkpoint CheckPoint.new_with_signature
  checkpoint_commands-Calm ext e h = ground arith

  apply_in_order-Calm :
      (ext : External) (e : Consensus) (c : Commit) (r : ClientRequest)
      → CalmState P e.state
      → let (e', effects) = apply_in_order ext e c r in CalmAfter P leads e.state.seq_num e' effects
  unfolding apply_in_order State.apply_commit applied
  apply_in_order-Calm ext e c r s = ground (
    arith,
    All-map (CalmCommand P leads) apply_commit (λ d. tt)
        (get_next_consecutive_commits (applied e.state r c)),
  )

  pub on_apply_commit-Calm :
      (ext : External) (e : Consensus) (c : Commit)
      → CalmState P e.state
      → Goes (CalmAfter P leads e.state.seq_num) (on_apply_commit ext e c)
  unfolding on_apply_commit
  on_apply_commit-Calm ext e c s =
      elim (Option-cases
        (get e.state.message_bank.accepted_pre_prepare_requests (c.view, c.seq_num))) [
          | inl n ↦ rw (n, on_apply_commit) (record { state = s; seq = refl; own = tt; told = tt })
          | inr (p, h) ↦
              let a = apply_in_order-Calm ext e c p.client_request s in
              rw (h, on_apply_commit)
                (record {
                  state = a.state;
                  seq = a.seq;
                  own = a.own;
                  told =
                      All-append (CalmSent P) (apply_in_order ext e c p.client_request).1.to_node _
                        a.told
                        (checkpoint_commands-Calm ext (apply_in_order ext e c p.client_request).0
                          a.state.view);
                })
        ]

  update_checkpoint_meta-Calm :
      (s t : State) (c : CheckPoint) (n : ℕ) (d : Bytes)
      → update_checkpoint_meta (fast_forward s c) n d ≡ some t
      → (t.seq_num ≡ s.seq_num) × (t.message_bank ≡ s.message_bank)
  unfolding update_checkpoint_meta
  update_checkpoint_meta-Calm s t c n d h = ground arith

  stabilise-Calm :
      (e : Consensus) (s : State) (c : CheckPoint)
      → c.view ≡ 0
      → s.seq_num ≡ e.state.seq_num
      → CalmState P s
      → Goes (CalmAfter P leads e.state.seq_num) (stabilise e s c)
  unfolding stabilise garbage_collect p_bft.MessageBank.garbage_collect
  stabilise-Calm e s c v q h =
      elim (Option-cases
        (update_checkpoint_meta (fast_forward s c) c.committed_seq_num c.state_digest)) [
          | inl n ↦ rw (n, stabilise) tt
          | inr (t, u) ↦
              let same = update_checkpoint_meta-Calm s t c _ _ u in
              let log : Entries (λ pair p. P p) t.message_bank.accepted_pre_prepare_requests =
                rw same.1 h.log in
              rw (u, stabilise)
                (record {
                  state = record {
                    view = v;
                    log =
                        garbage_collect-Entries (λ pair p. P p) t.message_bank c.committed_seq_num
                          log;
                  };
                  seq = same.0 ∙ q;
                  own = All-map (CalmCommand P leads) apply_commit (λ d. tt) _;
                  told = tt;
                })
        ]

  pub on_accept_checkpoint-Calm :
      (e : Consensus) (c : CheckPoint)
      → c.view ≡ 0
      → CalmState P e.state
      → Goes (CalmAfter P leads e.state.seq_num) (on_accept_checkpoint e c)
  unfolding on_accept_checkpoint
  on_accept_checkpoint-Calm e c v s =
      elim (Option-cases (
        get (record_checkpoint e.state c).checkpoint_votes (c.committed_seq_num, c.state_digest))) [
          | inl n ↦ rw (n, on_accept_checkpoint) (quiet_after [])
          | inr (voters, k) ↦
              rw (k, on_accept_checkpoint)
                (elim (Bool-cases
                  (leb (2 * e.config.num_faulty) (length (HashSet.insert voters c.id).0))) [
                    | inl quorum ↦ rw quorum (
                        stabilise-Calm e (vote (record_checkpoint e.state c) c voters) c v refl
                          (record { view = s.view; log = s.log }))
                    | inr few ↦ rw few (quiet_after voters)
                  ])
        ]
    where
      quiet_after :
          (voters : List ℕ)
          → CalmAfter P leads e.state.seq_num
              (record e { state = vote (record_checkpoint e.state c) c voters })
              quiet
      quiet_after voters = record {
        state = record { view = s.view; log = s.log };
        seq = refl;
        own = tt;
        told = tt;
      }
