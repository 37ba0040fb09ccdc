-- ===== src/State/Accept.antt =====
-- src/state.rs: what a replica accepts, as conditions on its state and the message.
use p_bft.Base.{
  ◌≡◌, ap, ◌∙◌, ◌↔◌, ◌⊎◌, inl, inr, some, true, false, arith, nat_eq, pair_eq, incr, Option-cases,
  ◌%◌,
}
use p_bft.Collections.BTreeMap.{bytes_beq_iff}
use p_bft.Collections.HashMap.{get}
use p_bft.External.{External}
use p_bft.Messages.ClientRequest
use p_bft.Messages.PrePrepare.{PrePrepare}
use p_bft.Messages.Prepare.{Prepare}
use p_bft.Messages.Commit.{Commit}
use p_bft.Messages.ViewChange.{ViewChange}
use p_bft.State.{
  State, current_leader, get_leader_for_view, should_accept_pre_prepare, should_accept_prepare,
  should_accept_commit, should_accept_view_change,
}

-- the proposal on record for the view and sequence number, if any, has this digest
abbrev pub NoConflict : State → PrePrepare → Type 0
NoConflict s p =
    (q : PrePrepare)
    → get s.message_bank.accepted_pre_prepare_requests (p.view, p.seq_num) ≡ some q
    → q.client_request_digest ≡ p.client_request_digest

-- A proposal is accepted exactly if no view change is under way, the node is not an equivocator that
-- has lost the lead, the view is the current one, the digest is the request's, and no other digest
-- is on record for its view and sequence number.
should_accept_pre_prepare_iff :
    (ext : External) (s : State) (p : PrePrepare)
    → (should_accept_pre_prepare ext s p ≡ true) ↔ (
        (s.in_view_change ≡ false)
        × ((s.config.is_equivocator ≡ false) ⊎ (current_leader s ≡ s.id))
        × (s.view ≡ p.view)
        × (p.client_request_digest ≡ ClientRequest.digest ext p.client_request)
        × NoConflict s p)
unfolding should_accept_pre_prepare
should_accept_pre_prepare_iff ext s p =
    let own = bytes_beq_iff p.client_request_digest (ClientRequest.digest ext p.client_request) in
    elim (Option-cases (get s.message_bank.accepted_pre_prepare_requests (p.view, p.seq_num))) [
      | inl n ↦ (
        λ h. (ground arith, ground arith, ground arith, ground arith, λ q e. cc),
        λ h. let (a, b, c, d, _) = h in ground arith,
      )
      | inr (q, e) ↦
          let same = bytes_beq_iff q.client_request_digest p.client_request_digest in
          (
            λ h. (
              ground arith,
              ground arith,
              ground arith,
              ground arith,
              λ q' e'. let r : q ≡ q' = cc in let t = same.0 (ground arith) in cc,
            ),
            λ h. let (a, b, c, d, k) = h in let t = same.1 (k q e) in ground arith,
          )
    ]

-- A prepare is accepted exactly if no view change is under way, its view is the current one, and its
-- digest is that of the request proposed for its view and sequence number.
should_accept_prepare_iff :
    (ext : External) (s : State) (p : Prepare)
    → (should_accept_prepare ext s p ≡ true) ↔ (
        (s.in_view_change ≡ false)
        × (s.view ≡ p.view)
        × ((q : PrePrepare) × (get s.message_bank.accepted_pre_prepare_requests (p.view, p.seq_num)
              ≡ some q)
            × (p.client_request_digest ≡ ClientRequest.digest ext q.client_request)))
unfolding should_accept_prepare
should_accept_prepare_iff ext s p =
    elim (Option-cases (get s.message_bank.accepted_pre_prepare_requests (p.view, p.seq_num))) [
      | inl n ↦ (λ h. absurd (ground arith), λ h. ground arith)
      | inr (q, e) ↦
          let same =
            bytes_beq_iff p.client_request_digest (ClientRequest.digest ext q.client_request) in
          (
            λ h. (ground arith, ground arith, (q, e, ground arith)),
            λ h.
                let (a, b, (q', e', d)) = h in
                let r : q' ≡ q = cc in
                let t = same.1 (d ∙ ap (λ u. ClientRequest.digest ext u.client_request) r) in
                ground arith,
          )
    ]

-- A commit is accepted exactly if no view change is under way and its view is the current one: its
-- digest is not looked at.
pub should_accept_commit_iff :
    (s : State) (c : Commit)
    → (should_accept_commit s c ≡ true) ↔ ((s.in_view_change ≡ false) × (s.view ≡ c.view))
unfolding should_accept_commit
should_accept_commit_iff s c = ground arith

-- A view change is accepted exactly if it is for the next view, and this node leads that view.
pub should_accept_view_change_iff :
    (s : State) (v : ViewChange)
    → (should_accept_view_change s v ≡ true)
      ↔ ((v.new_view ≡ incr s.view) × (incr s.view % s.config.num_nodes ≡ s.id))
unfolding should_accept_view_change get_leader_for_view
should_accept_view_change_iff s v = ground arith
