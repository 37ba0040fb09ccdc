-- ===== src/Network/Checkpoints.antt =====
-- src/consensus.rs: the checkpoints that a replica sends, where it follows what was decided.
use p_bft.Base.{
  Option, none, suc, ◌≤◌, ap, ◌∙◌, true, nat_beq, nat_beq_iff, incr, ℕ, ◌+◌, ◌<◌, ◌≡◌, refl, some,
  [], ◌∷◌, All, All-append, arith, usize_mod, Option-cases, inl, inr, nat_eq, pair_eq, Bool-cases,
  leb, length, ◌*◌,
}
use p_bft.Collections.HashMap.{HashMap, get}
use p_bft.Collections.HashMap.Laws.{get-Entries}
use p_bft.External.{External, SocketAddr}
use p_bft.Messages.CheckPoint
use p_bft.Messages.CheckPoint.{CheckPoint}
use p_bft.Messages.PrePrepare.{PrePrepare}
use p_bft.Messages.ClientRequest.{ClientRequest, request_eq}
use p_bft.Collections.HashSet
use p_bft.Collections.BTreeMap.{bytes_eq}
use p_bft.Network.Growth.{own_proposal}
use p_bft.Messages.Commit.{Commit}
use p_bft.Messages.ClientResponse
use p_bft.Messages.ClientResponse.{ClientResponse}
use p_bft.Consensus.Execution.{
  flatten, apply_in_order, on_apply_commit, on_accept_checkpoint, stabilise, checkpoint_commands,
  init_checkpoint, fast_forward, record_checkpoint,
}
use p_bft.Execution.Order.{flatten-execute, read_value}
use p_bft.Replication.Reads.{last_write, get-replay}
use p_bft.State.{execute, State}
use p_bft.Collections.BTreeMap
use p_bft.Messages.Message.{
  Message, pre_prepare_message, check_point_message, client_response_message, identifier_message,
  client_request_message,
}
use p_bft.Messages.Command.{
  NodeCommand, ConsensusCommand, process_message, init_pre_prepare, apply_commit, accept_checkpoint,
}
use p_bft.State
use p_bft.Consensus.Defs.{Consensus, sent, on_process_message}
use p_bft.Consensus.Proposals.{
  on_misdirected_client_request, on_init_pre_prepare, on_rebroadcast_pre_prepare,
  on_accept_pre_prepare, equivocate_pre_prepare, equivocate_to,
}
use p_bft.Consensus.Votes.{on_accept_prepare, on_enter_commit, on_accept_commit}
use p_bft.Consensus.Changes.{on_init_view_change, on_accept_view_change, on_accept_new_view}
use p_bft.Consensus.Handle.{handle}
use p_bft.Replication.Agreed.{Decided, replay, AgreesWith, Consistent}
use p_bft.Replication.Stores.{apply_in_order-Consistent}
use p_bft.Network.{message_of}
use p_bft.Network.Bounds.Defs.{Within}

-- What the request decided at `n + 1` answers: a read the last write before it, a write nothing.
abbrev pub answer_of : Decided → ℕ → Option ℕ
answer_of decided n = elim (decided (suc n)).value [
  | some v ↦ none
  | none ↦ last_write decided (decided (suc n)).key n
]

-- The answer is that of a decided request, at `top` at most, executed in its turn.
abbrev pub AnswersDecided : Decided → ℕ → ClientResponse → Type 0
AnswersDecided decided top a =
    (n : ℕ) × (n < top)
    × (a.time_stamp ≡ (decided (suc n)).time_stamp)
    × (a.key ≡ (decided (suc n)).key)
    × (a.value ≡ answer_of decided n)

-- The store of a checkpoint sent is the replay, and an answer is one to a decided request.
abbrev pub HonestNews : Decided → ℕ → Message → Type 0
HonestNews decided top (check_point_message c) = c.state ≡ replay decided c.committed_seq_num
HonestNews decided top (client_response_message a) = AnswersDecided decided top a
HonestNews decided top _ = Unit

abbrev pub HonestSent : Decided → ℕ → NodeCommand → Type 0
HonestSent decided top c = HonestNews decided top (message_of c)

module _ (decided : Decided) (top : ℕ) (ext : External) (e : Consensus) where
  checkpoint_commands-Honest :
      Consistent decided e.state → All (HonestSent decided top) (checkpoint_commands ext e)
  unfolding checkpoint_commands init_checkpoint CheckPoint.new_with_signature
  checkpoint_commands-Honest h = ground (arith, h.store)

  on_process_message-quiet : (m : Message) → (sent (on_process_message ext e m)).to_node ≡ []
  unfolding on_process_message
  on_process_message-quiet (identifier_message m) = refl
  on_process_message-quiet (client_request_message m) = ground arith
  on_process_message-quiet m = ground arith

  stabilise-quiet : (s : State) (c : CheckPoint) → (sent (stabilise e s c)).to_node ≡ []
  unfolding stabilise
  stabilise-quiet s c =
      elim (Option-cases
        (State.update_checkpoint_meta (fast_forward s c) c.committed_seq_num c.state_digest)) [
          | inl n ↦ rw (n, stabilise) refl
          | inr (t, u) ↦ rw (u, stabilise) refl
        ]

  on_accept_checkpoint-quiet : (c : CheckPoint) → (sent (on_accept_checkpoint e c)).to_node ≡ []
  unfolding on_accept_checkpoint
  on_accept_checkpoint-quiet c =
      elim (Option-cases (
        get (record_checkpoint e.state c).checkpoint_votes (c.committed_seq_num, c.state_digest))) [
          | inl n ↦ rw (n, on_accept_checkpoint) refl
          | inr (voters, k) ↦
              rw (k, on_accept_checkpoint)
                (elim (Bool-cases
                  (leb (2 * e.config.num_faulty) (length (HashSet.insert voters c.id).0))) [
                    | inl quorum ↦ rw quorum (stabilise-quiet _ c)
                    | inr few ↦ rw few refl
                  ])
        ]

  read_decided :
      Consistent decided e.state
      → let n = e.state.last_seq_num_committed in
        read_value e.state (decided (suc n)) ≡ answer_of decided n
  read_decided h =
      let n = e.state.last_seq_num_committed in
      let r = decided (suc n) in
      ap {A = Option ℕ} (λ x. elim r.value as (λ _. Option ℕ) [ some v ↦ none | none ↦ x ])
        (ap (λ m. BTreeMap.get m r.key) h.store ∙ get-replay decided r.key n)

  executed-Answers :
      (c : Commit) (r : ClientRequest)
      → r ≡ decided c.seq_num
      → c.seq_num ≡ suc e.state.last_seq_num_committed
      → c.seq_num ≤ top
      → Consistent decided e.state
      → AnswersDecided decided top (
          ClientResponse.new_with_signature ext e.keypair_bytes e.id r.time_stamp r.key
            (flatten (execute e.state.store r).0)
            true)
  unfolding ClientResponse.new_with_signature
  executed-Answers c r is next_ low h =
      let n = e.state.last_seq_num_committed in
      let same : r ≡ decided (suc n) = is ∙ ap decided next_ in
      (
        n,
        omega arith,
        ap (λ x. x.time_stamp) same,
        ap (λ x. x.key) same,
        flatten-execute e.state r ∙ ap (read_value e.state) same ∙ read_decided h,
      )

  apply_in_order-Honest :
      (c : Commit) (r : ClientRequest)
      → r ≡ decided c.seq_num
      → c.seq_num ≤ top
      → e.state.last_seq_num_committed + 1 < usize_mod
      → Consistent decided e.state
      → All (HonestSent decided top) (apply_in_order ext e c r).1.to_node
  unfolding apply_in_order State.apply_commit
  apply_in_order-Honest c r is low b h =
      elim (Bool-cases (nat_beq c.seq_num (incr e.state.last_seq_num_committed))) [
        | inl next_ ↦ rw next_ (
          executed-Answers c r is
              ((nat_beq_iff c.seq_num (incr e.state.last_seq_num_committed)).0 next_ ∙ omega arith)
              low h,
          tt,
        )
        | inr other ↦ rw other (ground arith)
      ]

equivocate_to-Honest :
    (decided : Decided) (top : ℕ) (p q : PrePrepare) (peers : HashMap ℕ SocketAddr)
    → All
        (HonestSent decided top)
        (equivocate_to (pre_prepare_message p) (pre_prepare_message q) peers)
unfolding equivocate_to
equivocate_to-Honest decided top p q [] = tt
equivocate_to-Honest decided top p q ((id, addr) ∷ peers) =
    ground (arith, equivocate_to-Honest decided top p q peers)

module _ (decided : Decided) (top : ℕ) (ext : External) (e : Consensus) where
  on_apply_commit-Honest :
      (c : Commit)
      → e.state.last_seq_num_committed + 1 < usize_mod
      → Within top e.state
      → Consistent decided e.state
      → All (HonestSent decided top) (sent (on_apply_commit ext e c)).to_node
  unfolding on_apply_commit
  on_apply_commit-Honest c b w h =
      elim (Option-cases
        (get e.state.message_bank.accepted_pre_prepare_requests (c.view, c.seq_num))) [
          | inl n ↦ rw (n, on_apply_commit) tt
          | inr (p, s) ↦
              let agrees = get-Entries (AgreesWith decided) _ (c.view, c.seq_num) p h.log s in
              let low = get-Entries (λ pair p. pair.1 ≤ top) _ (c.view, c.seq_num) p w.log s in
              rw (s, on_apply_commit)
                (All-append (HonestSent decided top)
                  (apply_in_order ext e c p.client_request).1.to_node _
                  (apply_in_order-Honest decided top ext e c p.client_request agrees low b h)
                  (checkpoint_commands-Honest decided top ext
                    (apply_in_order ext e c p.client_request).0
                    (apply_in_order-Consistent decided ext e c p.client_request agrees b h)))
        ]

  -- A replica that follows what was decided sends no other checkpoint.
  pub handle-HonestSent :
      (cmd : ConsensusCommand)
      → e.state.last_seq_num_committed + 1 < usize_mod
      → Within top e.state
      → Consistent decided e.state
      → All (HonestSent decided top) (sent (handle ext e cmd)).to_node
  unfolding handle on_misdirected_client_request on_init_pre_prepare on_rebroadcast_pre_prepare
      on_accept_pre_prepare on_accept_prepare on_enter_commit on_accept_commit on_init_view_change
      on_accept_view_change on_accept_new_view equivocate_pre_prepare
  handle-HonestSent (process_message m) b w h = rw (on_process_message-quiet decided top ext e m) tt
  handle-HonestSent (apply_commit c) b w h = on_apply_commit-Honest c b w h
  handle-HonestSent (accept_checkpoint c) b w h =
      rw (on_accept_checkpoint-quiet decided top ext e c) tt
  handle-HonestSent (init_pre_prepare r) b w h = ground (
    arith,
    equivocate_to-Honest decided top (own_proposal ext e r)
        (own_proposal ext e (record r { value = some 42 })) e.config.peer_addrs,
  )
  handle-HonestSent cmd b w h = ground arith
