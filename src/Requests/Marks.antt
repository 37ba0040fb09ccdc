-- ===== src/Requests/Marks.antt =====
-- src/consensus.rs: the requests that a replica has marked as sent in a view stay marked.
use p_bft.Base.{
  ℕ, ◌≡◌, refl, ap, ◌∙◌, true, some, arith, nat_eq, pair_eq, ◌*◌, Option-cases, Bool-cases, inl,
  inr, leb, length,
}
use p_bft.Collections.BTreeMap.{Bytes, bytes_eq}
use p_bft.Collections.HashMap.{get}
use p_bft.Collections.HashSet
use p_bft.Collections.HashSet.{HashSet, contains}
use p_bft.Collections.HashSet.Laws.{contains-insert}
use p_bft.External.{External}
use p_bft.State.{current_leader, State, update_checkpoint_meta, garbage_collect, applied}
use p_bft.Messages.Commit.{Commit}
use p_bft.Messages.CheckPoint.{CheckPoint}
use p_bft.Messages.ViewChange.{ViewChange}
use p_bft.Messages.NewView.{NewView}
use p_bft.Messages.ClientRequest.{ClientRequest, request_eq}
use p_bft.Messages.Message.{Message, identifier_message}
use p_bft.Messages.Command.{
  ConsensusCommand, process_message, init_pre_prepare, apply_commit, accept_checkpoint,
  misdirected_client_request, rebroadcast_pre_prepare, accept_pre_prepare, accept_prepare,
  enter_commit, accept_commit, init_view_change, accept_view_change, accept_new_view,
}
use p_bft.Consensus.Defs.{
  Consensus, Outcome, Effects, continues, returns, panics, on_process_message,
}
use p_bft.Consensus.Proposals.{
  on_misdirected_client_request, on_init_pre_prepare, on_rebroadcast_pre_prepare,
  on_accept_pre_prepare, was_sent,
}
use p_bft.Consensus.Votes.{on_accept_prepare, on_enter_commit, on_accept_commit}
use p_bft.Consensus.Changes.{on_init_view_change, on_accept_view_change, on_accept_new_view}
use p_bft.Consensus.Execution.{
  apply_in_order, on_apply_commit, on_accept_checkpoint, stabilise, fast_forward, record_checkpoint,
}
use p_bft.Consensus.Handle.{handle}

abbrev pub marks : State → HashSet (ℕ × ClientRequest)
marks s = s.message_bank.sent_requests

-- Most handlers do not touch the marks.
abbrev SameMarks : State → Outcome → Type 0
SameMarks s (continues e' fx) = marks e'.state ≡ marks s
SameMarks s returns = Unit {0}
SameMarks s panics = Unit {0}

process_message-SameMarks :
    (ext : External) (e : Consensus) (m : Message) → SameMarks e.state (on_process_message ext e m)
unfolding on_process_message
process_message-SameMarks ext e (identifier_message m) = tt
process_message-SameMarks ext e m = ground arith

apply_in_order-marks :
    (ext : External) (e : Consensus) (c : Commit) (r : ClientRequest)
    → marks (apply_in_order ext e c r).0.state ≡ marks e.state
unfolding apply_in_order p_bft.State.apply_commit applied
apply_in_order-marks ext e c r = ground arith

on_apply_commit-SameMarks :
    (ext : External) (e : Consensus) (c : Commit) → SameMarks e.state (on_apply_commit ext e c)
unfolding on_apply_commit
on_apply_commit-SameMarks ext e c =
    elim (Option-cases
      (get e.state.message_bank.accepted_pre_prepare_requests (c.view, c.seq_num))) [
        | inl n ↦ rw (n, on_apply_commit) refl
        | inr (p, h) ↦ rw (h, on_apply_commit) (apply_in_order-marks ext e c p.client_request)
      ]

update_checkpoint_meta-marks :
    (s t : State) (n : ℕ) (d : Bytes) → update_checkpoint_meta s n d ≡ some t → marks t ≡ marks s
unfolding update_checkpoint_meta
update_checkpoint_meta-marks s t n d h = ground arith

fast_forward-marks : (s : State) (c : CheckPoint) → marks (fast_forward s c) ≡ marks s
fast_forward-marks s c = ground arith

stabilise-SameMarks : (e : Consensus) (s : State) (c : CheckPoint) → SameMarks s (stabilise e s c)
unfolding stabilise garbage_collect p_bft.MessageBank.garbage_collect
stabilise-SameMarks e s c =
    elim (Option-cases
      (update_checkpoint_meta (fast_forward s c) c.committed_seq_num c.state_digest)) [
        | inl n ↦ rw (n, stabilise) tt
        | inr (t, u) ↦
            rw (u, stabilise)
              (update_checkpoint_meta-marks (fast_forward s c) t _ _ u ∙ fast_forward-marks s c)
      ]

on_accept_checkpoint-SameMarks :
    (e : Consensus) (c : CheckPoint) → SameMarks e.state (on_accept_checkpoint e c)
unfolding on_accept_checkpoint
on_accept_checkpoint-SameMarks e c =
    elim (Option-cases
      (get (record_checkpoint e.state c).checkpoint_votes (c.committed_seq_num, c.state_digest))) [
        | inl n ↦ rw (n, on_accept_checkpoint) refl
        | inr (voters, k) ↦
            rw (k, on_accept_checkpoint)
              (elim (Bool-cases
                (leb (2 * e.config.num_faulty) (length (HashSet.insert voters c.id).0))) [
                  | inl quorum ↦ rw quorum (stabilise-SameMarks e _ c)
                  | inr few ↦ rw few refl
                ])
      ]

-- What is marked stays marked.
abbrev pub KeepsMarks : State → Outcome → Type 0
KeepsMarks s (continues e' fx) =
    (x : ℕ × ClientRequest) → contains (marks s) x ≡ true → contains (marks e'.state) x ≡ true
KeepsMarks s returns = Unit {0}
KeepsMarks s panics = Unit {0}

same-KeepsMarks : (s : State) (o : Outcome) → SameMarks s o → KeepsMarks s o
same-KeepsMarks s (continues e' fx) same = λ x h. ap (λ ms. contains ms x) same ∙ h
same-KeepsMarks s returns same = tt
same-KeepsMarks s panics same = tt

insert-keeps :
    (s : HashSet (ℕ × ClientRequest)) (a x : ℕ × ClientRequest)
    → contains s x ≡ true
    → contains (HashSet.insert s a).0 x ≡ true
insert-keeps s a x h = ground (arith, contains-insert s a x)

on_init_pre_prepare-KeepsMarks :
    (ext : External) (e : Consensus) (r : ClientRequest)
    → KeepsMarks e.state (on_init_pre_prepare ext e r)
unfolding on_init_pre_prepare
on_init_pre_prepare-KeepsMarks ext e r = elim (Bool-cases (was_sent e r)) [
  | inl old ↦ rw old (λ x h. h)
  | inr new_ ↦ elim (Bool-cases e.config.is_equivocator) [
    | inl bad ↦ rw new_ (rw bad (λ x h. h))
    | inr honest ↦ rw new_ (rw honest (insert-keeps (marks e.state) (e.state.view, r)))
  ]
]

misdirected-KeepsMarks :
    (e : Consensus) (r : ClientRequest) → KeepsMarks e.state (on_misdirected_client_request e r)
unfolding on_misdirected_client_request
misdirected-KeepsMarks e r = elim (Bool-cases (was_sent e r)) [
  | inl old ↦ rw old (λ x h. h)
  | inr new_ ↦ elim (Bool-cases e.config.is_equivocator) [
    | inl bad ↦ rw new_ (rw bad (λ x h. h))
    | inr honest ↦ elim (Option-cases (get e.config.peer_addrs (current_leader e.state))) [
      | inl missing ↦ rw new_ (rw honest (rw missing tt))
      | inr (addr, k) ↦ rw new_ (rw honest (rw k (insert-keeps (marks e.state) (e.state.view, r))))
    ]
  ]
]

rebroadcast-SameMarks :
    (e : Consensus) (pair : ℕ × ℕ) → SameMarks e.state (on_rebroadcast_pre_prepare e pair)
unfolding on_rebroadcast_pre_prepare
rebroadcast-SameMarks e pair = ground arith

init_view_change-SameMarks :
    (ext : External) (e : Consensus) (r : ClientRequest)
    → SameMarks e.state (on_init_view_change ext e r)
unfolding on_init_view_change
init_view_change-SameMarks ext e r = ground arith

accept_view_change-SameMarks :
    (ext : External) (e : Consensus) (v : ViewChange)
    → SameMarks e.state (on_accept_view_change ext e v)
unfolding on_accept_view_change
accept_view_change-SameMarks ext e v = ground arith

accept_new_view-SameMarks :
    (e : Consensus) (n : NewView) → SameMarks e.state (on_accept_new_view e n)
unfolding on_accept_new_view
accept_new_view-SameMarks e n = ground arith

handle-KeepsMarks :
    (ext : External) (e : Consensus) (cmd : ConsensusCommand)
    → KeepsMarks e.state (handle ext e cmd)
unfolding handle on_accept_pre_prepare on_accept_prepare on_enter_commit on_accept_commit
handle-KeepsMarks ext e (process_message m) =
    same-KeepsMarks e.state (on_process_message ext e m) (process_message-SameMarks ext e m)
handle-KeepsMarks ext e (misdirected_client_request r) = misdirected-KeepsMarks e r
handle-KeepsMarks ext e (init_pre_prepare r) = on_init_pre_prepare-KeepsMarks ext e r
handle-KeepsMarks ext e (rebroadcast_pre_prepare pair) =
    same-KeepsMarks e.state (on_rebroadcast_pre_prepare e pair) (rebroadcast-SameMarks e pair)
handle-KeepsMarks ext e (accept_pre_prepare p) = λ x h. h
handle-KeepsMarks ext e (accept_prepare p) = λ x h. h
handle-KeepsMarks ext e (enter_commit p) = λ x h. h
handle-KeepsMarks ext e (accept_commit c) = λ x h. h
handle-KeepsMarks ext e (init_view_change r) =
    same-KeepsMarks e.state (on_init_view_change ext e r) (init_view_change-SameMarks ext e r)
handle-KeepsMarks ext e (accept_view_change v) =
    same-KeepsMarks e.state (on_accept_view_change ext e v) (accept_view_change-SameMarks ext e v)
handle-KeepsMarks ext e (accept_new_view n) =
    same-KeepsMarks e.state (on_accept_new_view e n) (accept_new_view-SameMarks e n)
handle-KeepsMarks ext e (apply_commit c) =
    same-KeepsMarks e.state (on_apply_commit ext e c) (on_apply_commit-SameMarks ext e c)
handle-KeepsMarks ext e (accept_checkpoint c) =
    same-KeepsMarks e.state (on_accept_checkpoint e c) (on_accept_checkpoint-SameMarks e c)

-- The engine after it has handled some commands, whichever they are.
pub data Handled (ext : External) (e : Consensus) : Consensus → Type 0 where
  none_yet : Handled ext e e
  and_then :
      {e₁ e₂ : Consensus} {fx : Effects} (cmd : ConsensusCommand)
      → Handled ext e e₁
      → handle ext e₁ cmd ≡ continues e₂ fx
      → Handled ext e e₂

pub Handled-keeps :
    {ext : External} {e e' : Consensus} (x : ℕ × ClientRequest)
    → Handled ext e e'
    → contains (marks e.state) x ≡ true
    → contains (marks e'.state) x ≡ true
Handled-keeps x none_yet h = h
Handled-keeps {ext} x (and_then {e₁} {e₂} {fx} cmd before goes) h =
    let keeps : KeepsMarks e₁.state (continues e₂ fx) = rw goes at (handle-KeepsMarks ext e₁ cmd) in
    keeps x (Handled-keeps x before h)
