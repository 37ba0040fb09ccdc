-- ===== src/Execution/Due.antt =====
-- src/consensus.rs, `ApplyCommit`: when a checkpoint is broadcast, and what is in it.
use native.Mathlib.Nat.{div-add-mod', mul-mod_left}
use p_bft.Base.{
  ℕ, ◌*◌, ◌/◌, ◌%◌, ◌<◌, ◌≡◌, ◌↔◌, refl, sym, ap, ◌∙◌, inl, inr, ◌⊎◌, true, List, [], ◌∷◌, ◌++◌,
  Has, arith, nat_eq, pair_eq, nat_beq_iff, ltb, incr, nat_beq, Bool-cases,
}
use p_bft.External.{External, SocketAddr}
use p_bft.State
use p_bft.State.{State, execute}
use p_bft.Messages.PrePrepare.{PrePrepare}
use p_bft.Messages.Commit.{Commit}
use p_bft.Messages.ClientResponse
use p_bft.Messages.CheckPoint
use p_bft.Messages.CheckPoint.{CheckPoint}
use p_bft.Messages.ClientRequest.{ClientRequest}
use p_bft.Messages.Message.{Message, check_point_message, client_response_message}
use p_bft.Messages.Command.{NodeCommand, send_message, broad_cast_message}
use p_bft.Consensus.Defs.{Consensus, after, sent}
use p_bft.Consensus.Execution.{
  flatten, apply_in_order, on_apply_commit, checkpoint_due, checkpoint_commands, init_checkpoint,
}
use p_bft.Execution.Order.{Proposed}

-- The checkpoint is broadcast.
abbrev pub Broadcasts : CheckPoint → List NodeCommand → Type 0
Broadcasts k = Has (broad_cast_message (check_point_message k))

-- It describes the replica's own state.
abbrev pub Describes : External → Consensus → CheckPoint → Type 0
Describes ext e k =
    (k.id ≡ e.id)
    × (k.committed_seq_num ≡ e.state.last_seq_num_committed)
    × (k.view ≡ e.state.view)
    × (k.state ≡ e.state.store)
    × (k.state_digest ≡ State.digest ext e.state)

-- The last applied sequence number is a multiple of the frequency, beyond the stable one.
abbrev pub IsDue : Consensus → Type 0
IsDue e =
    ((times : ℕ) × (e.state.last_seq_num_committed ≡ times * e.config.checkpoint_frequency))
    × (e.state.last_stable_seq_num < e.state.last_seq_num_committed)

checkpoint_due_iff : (e : Consensus) → (checkpoint_due e ≡ true) ↔ IsDue e
unfolding checkpoint_due
checkpoint_due_iff e =
    let n = e.state.last_seq_num_committed in
    let f = e.config.checkpoint_frequency in
    (
      λ h. ((n / f, ground (arith, sym (div-add-mod' n f), nat_beq_iff (n % f) 0)), ground arith),
      λ ((k, same), above). ground (arith, ap (λ x. x % f) same ∙ mul-mod_left k f),
    )

-- The request's own answer is no checkpoint.
apply_in_order-answers :
    (ext : External) (e : Consensus) (c : Commit) (r : ClientRequest)
    → ((apply_in_order ext e c r).1.to_node ≡ [])
      ⊎ ((to : SocketAddr) × (m : Message) × ((apply_in_order ext e c r).1.to_node
            ≡ send_message to m ∷ []))
unfolding apply_in_order p_bft.State.apply_commit
apply_in_order-answers ext e c r =
    elim (Bool-cases (nat_beq c.seq_num (incr e.state.last_seq_num_committed))) [
      | inl next ↦ inr (
        r.respond_addr,
        client_response_message (
            ClientResponse.new_with_signature ext e.keypair_bytes e.id r.time_stamp r.key
              (flatten (execute e.state.store r).0) true),
        rw next refl,
      )
      | inr other ↦ elim (Bool-cases (ltb (incr e.state.last_seq_num_committed) c.seq_num)) [
        | inl later ↦ inl (rw other (rw later refl))
        | inr old ↦ inl (rw other (rw old refl))
      ]
    ]

no_checkpoint :
    (k : CheckPoint) (cs ds : List NodeCommand)
    → ((cs ≡ []) ⊎ ((to : SocketAddr) × (m : Message) × (cs ≡ send_message to m ∷ [])))
    → Broadcasts k (cs ++ ds)
    → Broadcasts k ds
no_checkpoint k cs ds (inl none_) h = rw none_ at h
no_checkpoint k cs ds (inr (to, m, one)) h = elim (rw one at h) [
  | inl same ↦ absurd (cc)
  | inr rest ↦ rest
]

init_checkpoint-Describes :
    (ext : External) (e : Consensus) (k : CheckPoint)
    → init_checkpoint ext e ≡ broad_cast_message (check_point_message k)
    → Describes ext e k
unfolding init_checkpoint CheckPoint.new_with_signature
init_checkpoint-Describes ext e k h =
    (ground arith, ground arith, ground arith, ground arith, ground arith)

checkpoint_commands-Describes :
    (ext : External) (e : Consensus) (k : CheckPoint)
    → Broadcasts k (checkpoint_commands ext e)
    → IsDue e × Describes ext e k
unfolding checkpoint_commands
checkpoint_commands-Describes ext e k h = elim (Bool-cases (checkpoint_due e)) [
  | inr early ↦ absurd (let b : ⊥ = rw early at h in b)
  | inl due ↦ elim (rw due at h) [
    | inl same ↦ ((checkpoint_due_iff e).0 due, init_checkpoint-Describes ext e k same)
    | inr none_ ↦ absurd none_
  ]
]

Has-append_right : (c : NodeCommand) (cs ds : List NodeCommand) → Has c ds → Has c (cs ++ ds)
Has-append_right c [] ds h = h
Has-append_right c (x ∷ cs) ds h = inr (Has-append_right c cs ds h)

checkpoint_commands-Broadcasts :
    (ext : External) (e : Consensus)
    → IsDue e
    → (k : CheckPoint) × Broadcasts k (checkpoint_commands ext e)
unfolding checkpoint_commands init_checkpoint
checkpoint_commands-Broadcasts ext e d =
    let due = (checkpoint_due_iff e).1 d in
    (
      CheckPoint.new_with_signature ext e.keypair_bytes e.id e.state.last_seq_num_committed
          e.state.view (State.digest ext e.state) e.state.store,
      rw due (inl refl),
    )

-- After a commit whose proposal is on record, executed or not, a checkpoint is broadcast exactly if the
-- last applied sequence number is a multiple of the checkpoint frequency and beyond the stable one, and
-- it describes the replica's own state: its last applied sequence number, view, store and digest. The
-- frequency is assumed not to be 0.
pub checkpoint_broadcast_iff :
    (ext : External) (e : Consensus) (c : Commit) (p : PrePrepare)
    → Proposed e c p
    → 0 < e.config.checkpoint_frequency
    → let e' = after e (on_apply_commit ext e c) in
      let told = (sent (on_apply_commit ext e c)).to_node in
      (((k : CheckPoint) × Broadcasts k told) ↔ IsDue e')
      × ((k : CheckPoint) → Broadcasts k told → Describes ext e' k)
unfolding on_apply_commit
checkpoint_broadcast_iff ext e c p known often =
    let (e', fx) = apply_in_order ext e c p.client_request in
    let only : (k : CheckPoint)
        → Broadcasts k (fx.to_node ++ checkpoint_commands ext e')
        → Broadcasts k (checkpoint_commands ext e') =
      λ k.
        no_checkpoint k fx.to_node (checkpoint_commands ext e')
          (apply_in_order-answers ext e c p.client_request) in
    rw (known, on_apply_commit)
      (
        (
          λ (k, h). (checkpoint_commands-Describes ext e' k (only k h)).0,
          λ d.
              let (k, h) = checkpoint_commands-Broadcasts ext e' d in
              (k, Has-append_right _ fx.to_node (checkpoint_commands ext e') h),
        ),
        λ k h. (checkpoint_commands-Describes ext e' k (only k h)).1,
      )
