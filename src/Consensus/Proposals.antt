-- ===== src/Consensus/Proposals.antt =====
-- src/consensus.rs: requests and proposals, from a client's request to the prepare.
use p_bft.Base.{
  ℕ, ◌%◌, Bool, true, false, none, some, List, [], ◌∷◌, nat_beq, nat_eq, pair_eq, incr,
  if◌then◌else◌, map, keep,
}
use p_bft.Collections.HashMap
use p_bft.Collections.HashMap.{HashMap}
use p_bft.Collections.HashSet
use p_bft.External.{External, SocketAddr}
use p_bft.State.{State, current_leader}
use p_bft.ViewChanger
use p_bft.ViewChanger.{ViewChanger, Timer, wait_for, wait_for_sent_pre_prepares}
use p_bft.Messages.ClientRequest.{ClientRequest, request_eq}
use p_bft.Messages.PrePrepare
use p_bft.Messages.PrePrepare.{PrePrepare}
use p_bft.Messages.Prepare
use p_bft.Messages.Prepare.{Prepare, prepare_eq, corresponds_to}
use p_bft.Messages.Commit.{commit_eq}
use p_bft.Messages.Message.{Message, pre_prepare_message, prepare_message, client_request_message}
use p_bft.Messages.Command.{NodeCommand, send_message, broad_cast_message, accept_prepare}
use p_bft.Consensus.Defs.{Consensus, Outcome, continues, returns, panics, quiet, with_state}

abbrev pub was_sent : Consensus → ClientRequest → Bool
was_sent e r = HashSet.contains e.state.message_bank.sent_requests (e.state.view, r)

abbrev mark_sent : State → ClientRequest → State
mark_sent s r = record s {
  message_bank = record s.message_bank {
    sent_requests = (HashSet.insert s.message_bank.sent_requests (s.view, r)).0;
  };
}

-- A timer for a request that was not waited for before.
abbrev pub wait_timers : Bool → ClientRequest → List Timer
wait_timers true r = wait_for r ∷ []
wait_timers false r = []

-- `ConsensusCommand::MisdirectedClientRequest`; a leader without an address is a panic of `unwrap`.
unfoldable pub on_misdirected_client_request : Consensus → ClientRequest → Outcome
on_misdirected_client_request e r =
    if was_sent e r
    then continues e quiet
    else if e.config.is_equivocator
    then continues e quiet
    else elim (HashMap.get e.config.peer_addrs (current_leader e.state)) [
      | none ↦ panics
      | some addr ↦
          let (w, added) = ViewChanger.add_to_wait_set e.view_changer r in
          continues (record e { state = mark_sent e.state r; view_changer = w })
            (record {
              to_node = send_message addr (client_request_message r) ∷ [];
              to_self = [];
              timers = wait_timers added r;
            })
    ]

-- The proposal that a node with this state makes for a request.
abbrev pub propose : External → Consensus → State → ClientRequest → PrePrepare
propose ext e s r = PrePrepare.new_with_signature ext e.keypair_bytes e.id s.view s.seq_num r

-- The loop of `equivocate_pre_prepare`: peers with an even id get the changed request.
unfoldable pub equivocate_to : Message → Message → HashMap ℕ SocketAddr → List NodeCommand
equivocate_to m d [] = []
equivocate_to m d ((peer_id, addr) ∷ peers) =
    (if nat_beq (peer_id % 2) 0 then send_message addr d else send_message addr m)
    ∷ equivocate_to m d peers

-- `equivocate_pre_prepare`
unfoldable pub equivocate_pre_prepare :
    External → Consensus → State → ClientRequest → List NodeCommand
unfolding equivocate_to
equivocate_pre_prepare ext e s r =
    equivocate_to (pre_prepare_message (propose ext e s r))
      (pre_prepare_message (propose ext e s (record r { value = some 42 }))) e.config.peer_addrs

-- `ConsensusCommand::InitPrePrepare`
unfoldable pub on_init_pre_prepare : External → Consensus → ClientRequest → Outcome
on_init_pre_prepare ext e r =
    if was_sent e r
    then continues e quiet
    else let s = record e.state { seq_num = incr e.state.seq_num } in
      if e.config.is_equivocator
      then continues (with_state e s)
          (record { to_node = equivocate_pre_prepare ext e s r; to_self = []; timers = [] })
      else let p = propose ext e s r in
        let pair : ℕ × ℕ = (p.view, p.seq_num) in
        continues
          (record e {
            state = mark_sent s r;
            view_changer = (ViewChanger.add_to_sent_pre_prepares e.view_changer pair).0;
          })
          (record {
            to_node = broad_cast_message (pre_prepare_message p) ∷ [];
            to_self = [];
            timers = wait_for_sent_pre_prepares pair ∷ [];
          })

-- `ConsensusCommand::RebroadcastPrePrepare`: a proposal that is not in the log ends the engine.
unfoldable pub on_rebroadcast_pre_prepare : Consensus → ℕ × ℕ → Outcome
on_rebroadcast_pre_prepare e pair =
    elim (HashMap.get e.state.message_bank.accepted_pre_prepare_requests pair) [
      | none ↦ returns
      | some p ↦ continues e (record {
        to_node = broad_cast_message (pre_prepare_message p) ∷ [];
        to_self = [];
        timers = wait_for_sent_pre_prepares (p.view, p.seq_num) ∷ [];
      })
    ]

-- `ConsensusCommand::AcceptPrePrepare`
unfoldable pub on_accept_pre_prepare : External → Consensus → PrePrepare → Outcome
on_accept_pre_prepare ext e p =
    let bank = e.state.message_bank in
    let prepare =
      Prepare.new_with_signature ext e.keypair_bytes e.id p.view p.seq_num p.client_request in
    let (w, added) = ViewChanger.add_to_wait_set e.view_changer p.client_request in
    continues
      (record e {
        state = record e.state {
          message_bank = record bank {
            accepted_pre_prepare_requests =
                HashMap.insert bank.accepted_pre_prepare_requests (p.view, p.seq_num) p;
          };
        };
        view_changer = w;
      })
      (record {
        to_node = broad_cast_message (prepare_message prepare) ∷ [];
        to_self = map accept_prepare (keep (λ o. corresponds_to o p) bank.outstanding_prepares);
        timers = wait_timers added p.client_request;
      })
