-- ===== src/Consensus/Changes.antt =====
-- src/consensus.rs: the view change. A replica that waited too long reports what it prepared, the
-- next leader collects the reports into a new view, and a replica enters it.
use Prim.Native.Nat.{max}
use p_bft.Base.{
  ℕ, zero, suc, ◌*◌, ◌-◌, true, false, ◌||◌, Option, none, some, List, [], ◌∷◌, ◌++◌, nat_eq,
  pair_eq, nat_beq, incr, ltb, leb, length, if◌then◌else◌, map,
}
use p_bft.Collections.HashMap
use p_bft.Collections.HashMap.{HashMap, values}
use p_bft.External.{External}
use p_bft.State.{current_leader}
use p_bft.ViewChanger
use p_bft.Messages.ClientRequest.{ClientRequest, no_op}
use p_bft.Messages.PrePrepare
use p_bft.Messages.PrePrepare.{PrePrepare}
use p_bft.Messages.Prepare.{Prepare}
use p_bft.Messages.ViewChange
use p_bft.Messages.ViewChange.{ViewChange, Prepared}
use p_bft.Messages.NewView
use p_bft.Messages.NewView.{NewView}
use p_bft.Messages.Message.{view_change_message, new_view_message}
use p_bft.Messages.Command.{broad_cast_message, init_pre_prepare}
use p_bft.Consensus.Defs.{Consensus, Outcome, continues, quiet, sends, tells, with_state}

-- One round of the loop over the accepted pre-prepares.
unfoldable pub add_prepared :
    ℕ → ℕ → HashMap (ℕ × ℕ) (HashMap ℕ Prepare) → ℕ × ℕ → PrePrepare → Prepared → Prepared
add_prepared num_faulty stable votes (view, seq_num) p acc =
    if leb seq_num stable then acc else elim (HashMap.get votes (view, seq_num)) [
      | none ↦ acc
      | some vote_set ↦
          if ltb (2 * num_faulty) (length vote_set)
          then HashMap.insert acc seq_num (p, values vote_set)
          else acc
    ]

-- The loop, in the order of the map.
unfoldable pub prepared_from :
    ℕ → ℕ → HashMap (ℕ × ℕ) (HashMap ℕ Prepare) → HashMap (ℕ × ℕ) PrePrepare → Prepared → Prepared
unfolding add_prepared
prepared_from num_faulty stable votes [] acc = acc
prepared_from num_faulty stable votes ((pair, p) ∷ log) acc =
    prepared_from num_faulty stable votes log (add_prepared num_faulty stable votes pair p acc)

unfoldable pub subsequent_prepares : Consensus → Prepared
unfolding prepared_from
subsequent_prepares e =
    prepared_from e.config.num_faulty e.state.last_stable_seq_num e.state.prepare_votes
      e.state.message_bank.accepted_pre_prepare_requests []

-- `ConsensusCommand::InitViewChange`
unfoldable pub on_init_view_change : External → Consensus → ClientRequest → Outcome
on_init_view_change ext e r =
    let s = e.state in
    if s.in_view_change || nat_beq (current_leader s) e.id
    then continues e quiet
    else continues (with_state e (record s { in_view_change = true })) (
        tells (
          broad_cast_message (
            view_change_message (
              ViewChange.new_with_signature ext e.keypair_bytes e.id (incr s.view)
                s.last_stable_seq_num s.last_checkpoint_proof (subsequent_prepares e)))))

-- `latest_stable_seq_num`
unfoldable pub latest_stable : ℕ → List ViewChange → ℕ
latest_stable n [] = n
latest_stable n (v ∷ vs) = latest_stable (max n v.last_stable_seq_num) vs

unfoldable pub max_key : ℕ → Prepared → ℕ
max_key n [] = n
max_key n ((seq_num, p) ∷ m) = max_key (max n seq_num) m

-- `max_seq_num`
unfoldable pub max_seq : ℕ → List ViewChange → ℕ
unfolding max_key
max_seq n [] = n
max_seq n (v ∷ vs) = max_seq (max_key n v.subsequent_prepares) vs

-- The later of the best pre-prepare so far and one that was reported.
unfoldable pub better : Option PrePrepare → Option (PrePrepare × List Prepare) → Option PrePrepare
better best none = best
better none (some (p, _)) = some p
better (some b) (some (p, _)) = if ltb b.view p.view then some p else some b

-- `pre_prepare_highest_view_at_seq_num`
unfoldable pub highest_view_at : ℕ → List ViewChange → Option PrePrepare → Option PrePrepare
unfolding better
highest_view_at seq_num [] best = best
highest_view_at seq_num (v ∷ vs) best =
    highest_view_at seq_num vs (better best (HashMap.get v.subsequent_prepares seq_num))

-- The request listed in the new view at a sequence number, a no-op where nothing was reported.
unfoldable pub request_at : List ViewChange → ℕ → ClientRequest
request_at vs seq_num = elim (highest_view_at seq_num vs none) [
  | some p ↦ p.client_request
  | none ↦ no_op
]

-- The loop over `start..start + count`.
unfoldable pub outstanding_from : External → Consensus → List ViewChange → ℕ → ℕ → List PrePrepare
outstanding_from ext e vs zero start = []
outstanding_from ext e vs (suc count) start =
    PrePrepare.new_with_signature ext e.keypair_bytes e.id (incr e.state.view) start
      (request_at vs start)
    ∷ outstanding_from ext e vs count (suc start)

-- `outstanding_pre_prepares`
unfoldable pub outstanding : External → Consensus → List ViewChange → List PrePrepare
outstanding ext e vs =
    let low = latest_stable e.state.last_stable_seq_num vs in
    let high = max_seq e.state.last_stable_seq_num vs in
    outstanding_from ext e vs (incr high - incr low) (incr low)

-- `ConsensusCommand::AcceptViewChange`
unfoldable pub on_accept_view_change : External → Consensus → ViewChange → Outcome
on_accept_view_change ext e v =
    let s = e.state in
    let votes = HashMap.insert s.view_change_votes v.id v in
    let s' = record s { view_change_votes = votes } in
    if ltb (2 * e.config.num_faulty) (length votes)
    then (let vs = values votes in
        continues (with_state e (record s' { seq_num = latest_stable s.last_stable_seq_num vs })) (
          tells (
            broad_cast_message (
              new_view_message (
                NewView.new_with_signature e.keypair_bytes e.id v.new_view vs
                  (outstanding ext e vs))))))
    else continues (with_state e s') quiet

-- `ConsensusCommand::AcceptNewView`
unfoldable pub on_accept_new_view : Consensus → NewView → Outcome
on_accept_new_view e n =
    let s = record e.state { in_view_change = false; checkpoint_votes = []; view = n.view } in
    let e' = record e { state = s; view_changer = ViewChanger.reset e.view_changer } in
    if nat_beq (current_leader s) e.id
    then continues e' (
        sends (
          map (λ p. init_pre_prepare p.client_request) n.outstanding_pre_prepares
          ++ map init_pre_prepare e.view_changer.wait_set))
    else continues e' quiet
