-- ===== src/Consensus/Defs.antt =====
-- src/consensus.rs: the struct `Consensus`, what a handler does, and the handling of messages.
use p_bft.Base.{ℕ, not, List, [], ◌∷◌, nat_beq, nat_eq, pair_eq, if◌then◌else◌}
use p_bft.Collections.BTreeMap.{Bytes}
use p_bft.Collections.HashSet
use p_bft.External.{External}
use p_bft.Config.{Config}
use p_bft.State.{
  State, initial, current_leader, should_accept_pre_prepare, should_accept_prepare,
  should_accept_commit, should_accept_view_change, should_accept_new_view, should_accept_checkpoint,
  should_process_client_request,
}
use p_bft.ViewChanger
use p_bft.ViewChanger.{ViewChanger, Timer, wait_for, wait_for_sent_pre_prepares}
use p_bft.Messages.ClientRequest.{request_eq}
use p_bft.Messages.Prepare.{prepare_eq}
use p_bft.Messages.Commit.{commit_eq}
use p_bft.Messages.Message.{
  Message, identifier_message, pre_prepare_message, prepare_message, commit_message,
  view_change_message, new_view_message, check_point_message, client_request_message,
  client_response_message,
}
use p_bft.Messages.Command.{
  NodeCommand, ConsensusCommand, misdirected_client_request, init_pre_prepare, accept_pre_prepare,
  accept_prepare, accept_commit, accept_view_change, accept_new_view, accept_checkpoint,
}

-- The channels are not fields: a handler returns what it sends.
pub record Consensus : Type 0 where
  pub id : ℕ
  pub config : Config
  pub keypair_bytes : Bytes
  pub state : State
  pub view_changer : ViewChanger

-- `Consensus::new`
abbrev pub new : ℕ → Config → Bytes → Consensus
new id config pair = record {
  id = id;
  config = config;
  keypair_bytes = pair;
  state = initial config id;
  view_changer = ViewChanger.empty;
}

pub record Effects : Type 0 where
  pub to_node : List NodeCommand
  pub to_self : List ConsensusCommand
  pub timers : List Timer

abbrev pub quiet : Effects
quiet = record { to_node = []; to_self = []; timers = [] }

abbrev pub sends : List ConsensusCommand → Effects
sends cs = record { to_node = []; to_self = cs; timers = [] }

abbrev pub tells : NodeCommand → Effects
tells c = record { to_node = c ∷ []; to_self = []; timers = [] }

-- `continues` goes round the loop of `spawn`, `returns` leaves it, and so ends the engine.
pub data Outcome : Type 0 where
  continues : Consensus → Effects → Outcome
  returns : Outcome
  panics : Outcome

-- The engine after a handler, and what it sent; one that stops leaves nothing.
abbrev pub after : Consensus → Outcome → Consensus
after e (continues e' effects) = e'
after e returns = e
after e panics = e

abbrev pub sent : Outcome → Effects
sent (continues e' effects) = effects
sent returns = quiet
sent panics = quiet

-- `self.state.message_bank.… = …` and the like
abbrev pub with_state : Consensus → State → Consensus
with_state e s = record e { state = s }

-- `ConsensusCommand::ProcessMessage`
unfoldable pub on_process_message : External → Consensus → Message → Outcome
on_process_message ext e (identifier_message m) = panics
on_process_message ext e (pre_prepare_message p) =
    if should_accept_pre_prepare ext e.state p
    then continues e (sends (accept_pre_prepare p ∷ []))
    else continues e quiet
on_process_message ext e (prepare_message p) =
    if should_accept_prepare ext e.state p
    then continues e (sends (accept_prepare p ∷ []))
    else continues
        (with_state e (record e.state {
          message_bank = record e.state.message_bank {
            outstanding_prepares = (HashSet.insert e.state.message_bank.outstanding_prepares p).0;
          };
        }))
        quiet
on_process_message ext e (commit_message c) =
    if should_accept_commit e.state c
    then continues e (sends (accept_commit c ∷ []))
    else continues
        (with_state e (record e.state {
          message_bank = record e.state.message_bank {
            outstanding_commits = (HashSet.insert e.state.message_bank.outstanding_commits c).0;
          };
        }))
        quiet
on_process_message ext e (view_change_message v) =
    if should_accept_view_change e.state v
    then continues e (sends (accept_view_change v ∷ []))
    else continues e quiet
on_process_message ext e (new_view_message n) =
    if should_accept_new_view e.state n
    then continues e (sends (accept_new_view n ∷ []))
    else continues e quiet
on_process_message ext e (check_point_message c) =
    if should_accept_checkpoint e.state c
    then continues e (sends (accept_checkpoint c ∷ []))
    else continues e quiet
on_process_message ext e (client_request_message r) =
    if should_process_client_request e.state r
    then if not (nat_beq e.id (current_leader e.state))
      then continues e (sends (misdirected_client_request r ∷ []))
      else continues e (sends (init_pre_prepare r ∷ []))
    else continues e quiet
on_process_message ext e (client_response_message m) = continues e quiet
