-- ===== src/Consensus/Execution.antt =====
-- src/consensus.rs: applying committed requests in order, and checkpoints.
use p_bft.Base.{
  ℕ, ◌%◌, ◌*◌, Bool, true, false, not, ◌&&◌, Option, none, some, List, [], ◌∷◌, ◌++◌, nat_eq,
  pair_eq, nat_beq, incr, ltb, leb, length, if◌then◌else◌, map,
}
use p_bft.Collections.BTreeMap.{Bytes, bytes_eq}
use p_bft.Collections.HashMap
use p_bft.Collections.HashMap.{HashMap}
use p_bft.Collections.HashSet
use p_bft.External.{External}
use p_bft.State
use p_bft.State.{State, update_checkpoint_meta, get_next_consecutive_commits, garbage_collect}
use p_bft.ViewChanger
use p_bft.Messages.ClientRequest.{ClientRequest}
use p_bft.Messages.ClientResponse
use p_bft.Messages.Commit.{Commit}
use p_bft.Messages.CheckPoint
use p_bft.Messages.CheckPoint.{CheckPoint}
use p_bft.Messages.Message.{client_response_message, check_point_message}
use p_bft.Messages.Command.{NodeCommand, send_message, broad_cast_message, apply_commit}
use p_bft.Consensus.Defs.{Consensus, Effects, Outcome, continues, panics, quiet, sends}

-- `res_val`: the value read, if the request was a read of a key that is there.
abbrev pub flatten : Option (Option ℕ) → Option ℕ
flatten none = none
flatten (some v) = v

-- the request is off the wait set, the proposal off the sent ones
abbrev unwait : Consensus → Commit → ClientRequest → Consensus
unwait e c r = record e {
  view_changer =
      ViewChanger.remove_from_sent_pre_prepares (ViewChanger.remove_from_wait_set e.view_changer r)
        (c.view, c.seq_num);
}

response : External → Consensus → ClientRequest → Option (Option ℕ) → NodeCommand
response ext e r ret = send_message r.respond_addr (
    client_response_message (
      ClientResponse.new_with_signature ext e.keypair_bytes e.id r.time_stamp r.key (flatten ret)
        true))

-- `Consensus::apply_commit`: the next request is applied, a later one is kept, an old one dropped.
unfoldable pub apply_in_order : External → Consensus → Commit → ClientRequest → Consensus × Effects
unfolding response
apply_in_order ext e₀ c r =
    let e = unwait e₀ c r in
    let s = e.state in
    if nat_beq c.seq_num (incr s.last_seq_num_committed)
    then (let (s', ret, new_applies) = State.apply_commit s r c in
        (
          record e { state = s' },
          record {
            to_node = response ext e r ret ∷ [];
            to_self = map apply_commit new_applies;
            timers = [];
          },
        ))
    else if ltb (incr s.last_seq_num_committed) c.seq_num
    then (
      record e {
        state = record s {
          message_bank = record s.message_bank {
            accepted_commits_not_applied =
                HashMap.insert s.message_bank.accepted_commits_not_applied c.seq_num c;
          };
        };
      },
      quiet,
    )
    else (e, quiet)

-- `Consensus::init_checkpoint`
unfoldable pub init_checkpoint : External → Consensus → NodeCommand
init_checkpoint ext e = broad_cast_message (
    check_point_message (
      CheckPoint.new_with_signature ext e.keypair_bytes e.id e.state.last_seq_num_committed
        e.state.view (State.digest ext e.state) e.state.store))

-- After a commit: is a checkpoint due?
unfoldable pub checkpoint_due : Consensus → Bool
checkpoint_due e =
    nat_beq (e.state.last_seq_num_committed % e.config.checkpoint_frequency) 0
    && ltb e.state.last_stable_seq_num e.state.last_seq_num_committed

unfoldable pub checkpoint_commands : External → Consensus → List NodeCommand
checkpoint_commands ext e = if checkpoint_due e then init_checkpoint ext e ∷ [] else []

-- `ConsensusCommand::ApplyCommit`
unfoldable pub on_apply_commit : External → Consensus → Commit → Outcome
on_apply_commit ext e c =
    elim (HashMap.get e.state.message_bank.accepted_pre_prepare_requests (c.view, c.seq_num)) [
      | none ↦ continues e quiet
      | some p ↦
          let (e', effects) = apply_in_order ext e c p.client_request in
          continues e' (record effects { to_node = effects.to_node ++ checkpoint_commands ext e' })
    ]

-- The checkpoint is stored, as the latest of its node too.
abbrev pub record_checkpoint : State → CheckPoint → State
record_checkpoint s c = record s {
  message_bank = record s.message_bank {
    checkpoint_messages =
        HashMap.insert s.message_bank.checkpoint_messages (c.committed_seq_num, c.state_digest) c;
  };
  checkpoints_current_round = HashMap.insert s.checkpoints_current_round c.id c;
}

-- A replica that is behind takes the store of the checkpoint.
abbrev pub fast_forward : State → CheckPoint → State
fast_forward s c =
    if ltb s.last_seq_num_committed c.committed_seq_num
    then record s { store = c.state; last_seq_num_committed = c.committed_seq_num }
    else s

-- What a quorum of checkpoints sets off, on the state that has counted the vote.
unfoldable pub stabilise : Consensus → State → CheckPoint → Outcome
stabilise e s c =
    elim (update_checkpoint_meta (fast_forward s c) c.committed_seq_num c.state_digest) [
      | none ↦ panics
      | some s₁ ↦
          let s₂ = record s₁ { last_stable_seq_num = c.committed_seq_num } in
          let moved = not (nat_beq c.view s₂.view) in
          let s₃ = record s₂ {
            in_view_change = if moved then false else s₂.in_view_change;
            view = c.view;
          } in
          continues
            (record e {
              state = garbage_collect s₃;
              view_changer = if moved then ViewChanger.reset e.view_changer else e.view_changer;
            })
            (sends (map apply_commit (get_next_consecutive_commits s₃)))
    ]

-- `ConsensusCommand::AcceptCheckpoint`
unfoldable pub on_accept_checkpoint : Consensus → CheckPoint → Outcome
on_accept_checkpoint e c =
    let s = record_checkpoint e.state c in
    let key : ℕ × Bytes = (c.committed_seq_num, c.state_digest) in
    elim (HashMap.get s.checkpoint_votes key) [
      | none ↦
          continues
            (record e {
              state = record s {
                checkpoint_votes = HashMap.insert s.checkpoint_votes key (HashSet.insert [] c.id).0;
              };
            })
            quiet
      | some curr_vote_set ↦
          let voted = (HashSet.insert curr_vote_set c.id).0 in
          let s' = record s { checkpoint_votes = HashMap.insert s.checkpoint_votes key voted } in
          if leb (2 * e.config.num_faulty) (length voted)
          then stabilise e s' c
          else continues (record e { state = s' }) quiet
    ]
