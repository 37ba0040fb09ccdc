-- ===== src/Execution/Order.antt =====
-- src/consensus.rs, `ApplyCommit`: the next request, a later one, an old one.
use p_bft.Base.{
  ℕ, ◌≡◌, refl, none, some, true, ◌∷◌, map, arith, nat_eq, pair_eq, incr, Option, nat_beq_iff,
}
use p_bft.Collections.BTreeMap
use p_bft.Collections.HashMap.{get}
use p_bft.External.{External}
use p_bft.State.{State, execute, applied, get_next_consecutive_commits}
use p_bft.Messages.ClientRequest.{ClientRequest}
use p_bft.Messages.ClientResponse
use p_bft.Messages.PrePrepare.{PrePrepare}
use p_bft.Messages.Commit.{Commit}
use p_bft.Messages.Message.{client_response_message}
use p_bft.Messages.Command.{NodeCommand, send_message, apply_commit}
use p_bft.Consensus.Defs.{Consensus, after, sent}
use p_bft.Consensus.Execution.{flatten, apply_in_order, on_apply_commit, checkpoint_commands}

-- the proposal on record for a commit
abbrev pub Proposed : Consensus → Commit → PrePrepare → Type 0
Proposed e c p = get e.state.message_bank.accepted_pre_prepare_requests (c.view, c.seq_num) ≡ some p

-- the answer to a client: the value for a read of a key that is there, nothing otherwise
abbrev pub answer : External → Consensus → ClientRequest → Option ℕ → NodeCommand
answer ext e r value = send_message r.respond_addr (
    client_response_message
      (ClientResponse.new_with_signature ext e.keypair_bytes e.id r.time_stamp r.key value true))

-- what a request reads
abbrev pub read_value : State → ClientRequest → Option ℕ
read_value s r = elim r.value [ some v ↦ none | none ↦ BTreeMap.get s.store r.key ]

pub flatten-execute :
    (s : State) (r : ClientRequest) → flatten (execute s.store r).0 ≡ read_value s r
unfolding execute
flatten-execute s r = ground arith

module _ (ext : External) (e : Consensus) (c : Commit) (p : PrePrepare)
    (known : Proposed e c p) where
  -- A commit whose proposal is on record, and that is the next in order, is executed: the store is
  -- that after the request, it counts as the last one applied, its client gets the value read, and
  -- all buffered commits that follow without a gap are sent to execution, with a checkpoint if one
  -- is due.
  pub on_apply_commit_next :
      c.seq_num ≡ incr e.state.last_seq_num_committed
      → let e' = after e (on_apply_commit ext e c) in
        let fx = sent (on_apply_commit ext e c) in
        let r = p.client_request in
        (e'.state ≡ applied e.state r c)
        × (e'.state.store ≡ (execute e.state.store r).1)
        × (e'.state.last_seq_num_committed ≡ c.seq_num)
        × (fx.to_node ≡ answer ext e r (read_value e.state r) ∷ checkpoint_commands ext e')
        × (fx.to_self ≡ map apply_commit (get_next_consecutive_commits e'.state))
  unfolding on_apply_commit apply_in_order applied p_bft.State.apply_commit
  on_apply_commit_next n =
      let next = (nat_beq_iff c.seq_num (incr e.state.last_seq_num_committed)).1 n in
      let value = flatten-execute e.state p.client_request in
      rw (known, on_apply_commit) (rw next (refl, refl, refl, rw value refl, refl))
