-- ===== src/Tests/Requests.antt =====
-- A request at a replica, and what the replica reports.
use p_bft.Base.{
  false, inl, ◌<◌, ℕ, ◌≡◌, refl, some, List, [], ◌∷◌, arith, nat_eq, pair_eq, pair_beq, true,
  is_some, ◌<◌, inl,
}
use p_bft.Collections.BTreeMap.{bytes_eq, bytes_beq, compare_bytes}
use p_bft.Collections.HashMap
use p_bft.Collections.HashMap.{HashMap, get}
use p_bft.Collections.HashSet
use p_bft.Collections.HashSet.{HashSet}
use p_bft.Messages.PrePrepare
use p_bft.Messages.PrePrepare.{PrePrepare}
use p_bft.Messages.Prepare
use p_bft.Messages.Prepare.{Prepare}
use p_bft.Messages.Commit
use p_bft.Messages.ViewChange
use p_bft.Messages.Command.{broad_cast_message}
use p_bft.MessageBank
use p_bft.State.{initial}
use p_bft.Consensus.Defs.{Consensus, after, sent, continues, quiet}
use p_bft.Consensus.Proposals.{on_init_pre_prepare}
use p_bft.Consensus.Changes.{subsequent_prepares}
use p_bft.Consensus.Handle.{handle}
use p_bft.Consensus.Invariant.Defs.{WellFormed}
use p_bft.Consensus.Proposals.{was_sent}
use p_bft.Messages.Message.{pre_prepare_message}
use p_bft.Messages.Command.{init_pre_prepare}
use p_bft.Requests.Marks.{none_yet, and_then}
use p_bft.Requests.{proposed_once}
use p_bft.Views.Report.{subsequent_prepares_sound, subsequent_prepares_complete, PreparedAt}
use p_bft.Messages.ViewChange.{ViewChange}
use p_bft.Tests.World.{plain, cluster, replica, write, proposal, prepare_of}

-- The leader proposes the write, then gets a second request.
abbrev leads_once : Consensus
leads_once = after (replica 0) (on_init_pre_prepare plain (replica 0) (write 5))

abbrev leads_twice : Consensus
leads_twice = after leads_once (on_init_pre_prepare plain leads_once (write 6))

fresh_write : was_sent (replica 0) (write 5) ≡ false
unfolding HashSet.contains
fresh_write = refl

second_handled :
    handle plain leads_once (init_pre_prepare (write 6))
    ≡ continues leads_twice (sent (on_init_pre_prepare plain leads_once (write 6)))
unfolding handle on_init_pre_prepare HashSet.contains HashSet.insert
    p_bft.Messages.ClientRequest.request_beq bytes_beq compare_bytes pair_beq
second_handled = refl

same_view : leads_twice.state.view ≡ leads_once.state.view
unfolding on_init_pre_prepare HashSet.contains HashSet.insert
    p_bft.Messages.ClientRequest.request_beq bytes_beq compare_bytes pair_beq
same_view = refl

proposed_once_example :
    ((sent (on_init_pre_prepare plain (replica 0) (write 5))).to_node
      ≡ broad_cast_message (pre_prepare_message (proposal 1 5)) ∷ [])
    × (on_init_pre_prepare plain leads_twice (write 5) ≡ continues leads_twice quiet)
proposed_once_example =
    proposed_once plain (replica 0) leads_twice (write 5) refl fresh_write
      (and_then (init_pre_prepare (write 6)) none_yet second_handled) same_view

-- a replica that waits for the request, with its proposal and a quorum of prepares on record
abbrev prepared : Consensus
prepared = record (replica 1) {
  state = record (initial cluster 1) {
    prepare_votes =
        ((0, 1), (0, prepare_of 0 1 5) ∷ (2, prepare_of 2 1 5) ∷ (3, prepare_of 3 1 5) ∷ []) ∷ [];
    message_bank = record MessageBank.empty {
      accepted_pre_prepare_requests = ((0, 1), proposal 1 5) ∷ [];
    };
  };
  view_changer = record { wait_set = write 5 ∷ []; sent_pre_prepares = [] };
}

prepared-WellFormed : WellFormed prepared.state
unfolding PrePrepare.new_with_signature p_bft.Collections.HashSet.Laws.IsDistinct HashSet.contains
    Prepare.new_with_signature
prepared-WellFormed = record {
  log = (refl, tt);
  prepares = (((refl, (refl, (refl, tt))), ((refl, refl), ((refl, refl), ((refl, refl), tt)))), tt);
  commits = tt;
  checkpoints = tt;
  buffered = tt;
  applied = tt;
  changes = tt;
  changers = tt;
  stable = omega arith;
}

abbrev three_votes : HashMap ℕ Prepare
three_votes = (0, prepare_of 0 1 5) ∷ (2, prepare_of 2 1 5) ∷ (3, prepare_of 3 1 5) ∷ []

abbrev listed_votes : List Prepare
listed_votes = prepare_of 0 1 5 ∷ prepare_of 2 1 5 ∷ prepare_of 3 1 5 ∷ []

prepared_report : get (subsequent_prepares prepared) 1 ≡ some (proposal 1 5, listed_votes)
unfolding get subsequent_prepares pair_beq HashMap.insert
prepared_report = refl

subsequent_prepares_sound_example :
    PreparedAt 1 0 prepared.state.prepare_votes 1 (proposal 1 5, listed_votes)
subsequent_prepares_sound_example =
    subsequent_prepares_sound prepared 1 (proposal 1 5) listed_votes prepared-WellFormed
      prepared_report

prepared_log :
    get prepared.state.message_bank.accepted_pre_prepare_requests (0, 1) ≡ some (proposal 1 5)
unfolding get pair_beq
prepared_log = refl

prepared_votes : get prepared.state.prepare_votes (0, 1) ≡ some three_votes
unfolding get pair_beq
prepared_votes = refl

subsequent_prepares_complete_example : is_some (get (subsequent_prepares prepared) 1) ≡ true
subsequent_prepares_complete_example =
    subsequent_prepares_complete prepared 0 1 (proposal 1 5) three_votes prepared_log (omega arith)
      prepared_votes (omega arith)

-- The next leader has the view changes of nodes 0 and 3, and gets that of the replica that prepared the
-- proposal.
abbrev no_report : ℕ → ViewChange
no_report id = ViewChange.new_with_signature plain (id ∷ []) id 1 0 [] []

abbrev next_leader : Consensus
next_leader = record (replica 1) {
  state = record (replica 1).state { view_change_votes = (0, no_report 0) ∷ (3, no_report 3) ∷ [] };
}

abbrev change_report : ViewChange
change_report = ViewChange.new_with_signature plain (2 ∷ []) 2 1 0 [] (subsequent_prepares prepared)
