-- ===== src/State.antt =====
-- src/state.rs: the state of one replica, what it accepts, and how it applies a request.
pub mod Accept
pub mod Consecutive
use p_bft.Base.{
  ℕ, zero, suc, ◌%◌, ◌+◌, Bool, true, false, not, ◌&&◌, Option, none, some, List, [], ◌∷◌, length,
  nat_beq, nat_eq, pair_eq, incr, if◌then◌else◌, ◌==◌,
}
use p_bft.Collections.BTreeMap
use p_bft.Collections.BTreeMap.{Bytes, BTreeMap, bytes_beq, bytes_eq}
use p_bft.Collections.HashMap
use p_bft.Collections.HashMap.{HashMap}
use p_bft.Collections.HashSet.{HashSet}
use p_bft.External.{External}
use p_bft.Config.{Config}
use p_bft.MessageBank
use p_bft.MessageBank.{MessageBank}
use p_bft.Messages.ClientRequest
use p_bft.Messages.ClientRequest.{ClientRequest}
use p_bft.Messages.PrePrepare.{PrePrepare}
use p_bft.Messages.Prepare.{Prepare}
use p_bft.Messages.Commit.{Commit}
use p_bft.Messages.CheckPoint.{CheckPoint}
use p_bft.Messages.ViewChange.{ViewChange}
use p_bft.Messages.NewView.{NewView}

pub record State : Type 0 where
  pub config : Config
  pub id : ℕ
  pub in_view_change : Bool
  pub view : ℕ
  pub seq_num : ℕ
  pub last_stable_seq_num : ℕ
  pub last_seq_num_committed : ℕ
  pub prepare_votes : HashMap (ℕ × ℕ) (HashMap ℕ Prepare)
  pub commit_votes : HashMap (ℕ × ℕ) (HashSet ℕ)
  pub checkpoint_votes : HashMap (ℕ × Bytes) (HashSet ℕ)
  pub checkpoints_current_round : HashMap ℕ CheckPoint
  pub last_checkpoint_proof : List CheckPoint
  pub view_change_votes : HashMap ℕ ViewChange
  pub message_bank : MessageBank
  pub store : BTreeMap ℕ

-- `State { config, id, ..Default::default() }`
abbrev pub initial : Config → ℕ → State
initial config id = record {
  config = config;
  id = id;
  in_view_change = false;
  view = 0;
  seq_num = 0;
  last_stable_seq_num = 0;
  last_seq_num_committed = 0;
  prepare_votes = [];
  commit_votes = [];
  checkpoint_votes = [];
  checkpoints_current_round = [];
  last_checkpoint_proof = [];
  view_change_votes = [];
  message_bank = MessageBank.empty;
  store = [];
}

unfoldable pub get_leader_for_view : State → ℕ → ℕ
get_leader_for_view s view = view % s.config.num_nodes

unfoldable pub current_leader : State → ℕ
unfolding get_leader_for_view
current_leader s = get_leader_for_view s s.view

unfoldable pub should_accept_pre_prepare : External → State → PrePrepare → Bool
should_accept_pre_prepare ext s p =
    if s.in_view_change
    then false
    else if s.config.is_equivocator && not (nat_beq (current_leader s) s.id)
    then false
    else if not (nat_beq s.view p.view)
    then false
    else if not (bytes_beq p.client_request_digest (ClientRequest.digest ext p.client_request))
    then false
    else elim (HashMap.get s.message_bank.accepted_pre_prepare_requests (p.view, p.seq_num)) [
      | some e ↦ bytes_beq e.client_request_digest p.client_request_digest
      | none ↦ true
    ]

unfoldable pub should_accept_prepare : External → State → Prepare → Bool
should_accept_prepare ext s p =
    if s.in_view_change
    then false
    else if not (nat_beq s.view p.view)
    then false
    else elim (HashMap.get s.message_bank.accepted_pre_prepare_requests (p.view, p.seq_num)) [
      | some e ↦ bytes_beq p.client_request_digest (ClientRequest.digest ext e.client_request)
      | none ↦ false
    ]

unfoldable pub should_accept_commit : State → Commit → Bool
should_accept_commit s c =
    if s.in_view_change then false else if not (nat_beq s.view c.view) then false else true

unfoldable pub should_process_client_request : State → ClientRequest → Bool
should_process_client_request s r = if s.in_view_change then false else true

unfoldable pub should_accept_checkpoint : State → CheckPoint → Bool
should_accept_checkpoint s c = true

unfoldable pub should_accept_view_change : State → ViewChange → Bool
should_accept_view_change s v =
    if not (nat_beq v.new_view (incr s.view))
    then false
    else if not (nat_beq (get_leader_for_view s v.new_view) s.id)
    then false
    else true

unfoldable pub should_accept_new_view : State → NewView → Bool
should_accept_new_view s n = true

-- The `while let` loop from `try_commit`, for at most `fuel` rounds.
unfoldable pub consecutive_from : ℕ → HashMap ℕ Commit → ℕ → List Commit
consecutive_from zero m try_commit = []
consecutive_from (suc fuel) m try_commit = elim (HashMap.get m try_commit) [
  | some c ↦ c ∷ consecutive_from fuel m (incr try_commit)
  | none ↦ []
]

-- One round for each buffered commit, and one to see that there are no more.
unfoldable pub get_next_consecutive_commits : State → List Commit
get_next_consecutive_commits s =
    let m = s.message_bank.accepted_commits_not_applied in
    consecutive_from (suc (length m)) m (incr s.last_seq_num_committed)

-- What a request answers, and the store after it: a write answers nothing.
unfoldable pub execute : BTreeMap ℕ → ClientRequest → Option (Option ℕ) × BTreeMap ℕ
execute store r = elim r.value [
  | some v ↦ (none, BTreeMap.insert store r.key v)
  | none ↦ (some (BTreeMap.get store r.key), store)
]

-- The state after the commit, without the answer.
unfoldable pub applied : State → ClientRequest → Commit → State
applied s r c = record s {
  last_seq_num_committed = c.seq_num;
  message_bank = record s.message_bank {
    accepted_commits_not_applied =
        HashMap.remove s.message_bank.accepted_commits_not_applied c.seq_num;
    applied_commits = HashMap.insert s.message_bank.applied_commits c.seq_num (c, r);
  };
  store = (execute s.store r).1;
}

unfoldable pub apply_commit :
    State → ClientRequest → Commit → State × Option (Option ℕ) × List Commit
apply_commit s r c =
    (applied s r c, (execute s.store r).0, get_next_consecutive_commits (applied s r c))

-- The loop that pushes one checkpoint for each voter; `none` is the panic of `unwrap`.
unfoldable pub proof_of : HashMap ℕ CheckPoint → HashSet ℕ → Option (List CheckPoint)
proof_of round [] = some []
proof_of round (node_id ∷ ids) = elim (HashMap.get round node_id) [
  | none ↦ none
  | some c ↦ elim (proof_of round ids) [ none ↦ none | some cs ↦ some (c ∷ cs) ]
]

-- `none` is a panic of one of the `unwrap`s.
unfoldable pub update_checkpoint_meta : State → ℕ → Bytes → Option State
update_checkpoint_meta s seq_num state_digest =
    elim (HashMap.get s.checkpoint_votes (seq_num, state_digest)) [
      | none ↦ none
      | some voters ↦ elim (proof_of s.checkpoints_current_round voters) [
        | none ↦ none
        | some proof ↦ some (record s {
          last_checkpoint_proof = proof;
          checkpoint_votes = [];
          checkpoints_current_round = [];
        })
      ]
    ]

unfoldable pub garbage_collect : State → State
garbage_collect s = record s {
  message_bank = MessageBank.garbage_collect s.message_bank s.last_stable_seq_num;
}

-- `State::digest`
unfoldable pub digest : External → State → Bytes
digest ext s = ext.sha512 (ext.store_json s.store)
