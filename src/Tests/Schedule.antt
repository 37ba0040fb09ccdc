-- ===== src/Tests/Schedule.antt =====
-- A cluster that runs by a schedule: which node takes its next command, and which message reaches whom.
use mathlib.Core.Logic.{dite}
use native.Mathlib.Decide.{dec_lt}
use p_bft.Base.{
  ℕ, zero, suc, ◌+◌, ◌≤◌, ◌<◌, ◌≡◌, ◌⊎◌, refl, sym, ◌∙◌, ap, inl, inr, Option, none, some, List, [],
  ◌∷◌, length, arith, nat_beq, nat_beq_iff, usize_mod, Bool-cases, if◌then◌else◌,
}
use p_bft.Collections.BTreeMap.{Bytes}
use p_bft.External.{External}
use p_bft.Config.{Config}
use p_bft.Messages.ClientRequest.{ClientRequest}
use p_bft.Messages.Message.{Message, identifier_message, client_request_message}
use p_bft.Messages.Command.{NodeCommand, process_message}
use p_bft.Consensus.Invariant.Preserved.{Passed}
use p_bft.Engine.{Engine, Status, running, round, capacity, start}
use p_bft.Engine.Reach.{handles, receives, queued}
use p_bft.Network.{message_of, Carries, Engines, set_engine, acts, NetworkReach, here, next}
use p_bft.Network.Induction.{at_other}

-- Node `i` handles its next command, gets a client's request, or gets the `k`-th message of node `j`.
pub data Action : Type 0 where
  takes : (i : ℕ) → Action
  asks : (i : ℕ) → ClientRequest → Action
  delivers : (i j k : ℕ) → Action

-- a message that was sent, and where it is among those
nth_sent : (cs : List NodeCommand) → ℕ → Option ((m : Message) × Carries m cs)
nth_sent [] k = none
nth_sent (c ∷ cs) zero = some (message_of c, inl refl)
nth_sent (c ∷ cs) (suc k) = elim (nth_sent cs k) [ none ↦ none | some (m, h) ↦ some (m, inr h) ]

passed : (m : Message) → Option (Passed (process_message m))
passed (identifier_message m) = none
passed m = some tt

unfoldable pub went_on : (s : Status) → Option ((g : Engine) × (s ≡ running g))
went_on (running g) = some (g, refl)
went_on s = none

module _ (ext : External) (config : Config) (pairs : ℕ → Bytes) where
  pub record Run : Type 0 where
    pub engines : Engines
    pub reach : NetworkReach ext config pairs engines

  abbrev pub begin : Run
  begin = record { engines = λ i. start i config (pairs i); reach = here }

  -- A message for node `i`, if there is room for it.
  receive :
      (r : Run) (i : ℕ) (m : Message)
      → (((q : ClientRequest) × (m ≡ client_request_message q))
          ⊎ ((j : ℕ) × (j < config.num_nodes) × Carries m (r.engines j).sent))
      → Run
  unfolding passed dec_lt
  receive r i m from = elim (passed m) [
    | none ↦ r
    | some p ↦
        dite (dec_lt i config.num_nodes)
          (λ lt.
            dite (dec_lt (length (r.engines i).queue) capacity)
              (λ room.
                dite (dec_lt ((r.engines i).consensus.state.seq_num + 1) usize_mod)
                  (λ below. record {
                    engines = set_engine r.engines i (queued (r.engines i) (process_message m));
                    reach = next r.reach (acts i (receives m p room) lt below from);
                  })
                  (λ _. r))
              (λ _. r))
          (λ _. r)
  ]

  act : Run → Action → Run
  unfolding receive nth_sent went_on dec_lt
  act r (asks i q) = receive r i (client_request_message q) (inl (q, refl))
  act r (delivers i j k) =
      dite (dec_lt j config.num_nodes)
        (λ lt. elim (nth_sent (r.engines j).sent k) [
          | none ↦ r
          | some (m, h) ↦ receive r i m (inr (j, lt, h))
        ])
        (λ _. r)
  act r (takes i) = elim (went_on (round ext (r.engines i))) [
    | none ↦ r
    | some (g, e) ↦
        dite (dec_lt i config.num_nodes)
          (λ lt.
            dite (dec_lt ((r.engines i).consensus.state.last_seq_num_committed + 1) usize_mod)
              (λ top.
                dite (dec_lt ((r.engines i).consensus.state.seq_num + 1) usize_mod)
                  (λ below. record {
                    engines = set_engine r.engines i g;
                    reach = next r.reach (acts i (handles top e) lt below tt);
                  })
                  (λ _. r))
              (λ _. r))
          (λ _. r)
  ]

  -- The line names what a run computes with, for the tests.
  unfoldable pub run : Run → List Action → Run
  unfolding act p_bft.Engine.round p_bft.Consensus.Handle.handle
      p_bft.Consensus.Defs.on_process_message p_bft.State.should_process_client_request
      p_bft.State.current_leader p_bft.Engine.deliver p_bft.Consensus.Proposals.on_init_pre_prepare
      p_bft.Collections.HashSet.contains p_bft.State.should_accept_pre_prepare
      p_bft.Messages.PrePrepare.new_with_signature p_bft.Collections.BTreeMap.bytes_beq
      p_bft.Collections.BTreeMap.compare_bytes p_bft.Messages.ClientRequest.digest
      p_bft.Messages.ClientRequest.hashed p_bft.External.addr_text p_bft.External.le_bytes
      p_bft.Collections.HashMap.get p_bft.Consensus.Proposals.on_accept_pre_prepare
      p_bft.State.should_accept_prepare p_bft.Messages.Prepare.new_with_signature
      p_bft.Collections.HashMap.insert p_bft.Base.pair_beq p_bft.Consensus.Votes.on_accept_prepare
      p_bft.Consensus.Votes.count_prepare p_bft.Consensus.Votes.on_enter_commit
      p_bft.State.should_accept_commit p_bft.Messages.Commit.new_with_signature
      p_bft.Consensus.Votes.on_accept_commit p_bft.Consensus.Votes.count_commit
      p_bft.Collections.HashSet.insert p_bft.Consensus.Execution.on_apply_commit
      p_bft.Consensus.Execution.apply_in_order p_bft.State.apply_commit
      p_bft.State.get_next_consecutive_commits p_bft.State.consecutive_from p_bft.State.applied
      p_bft.Collections.HashMap.remove p_bft.Consensus.Execution.checkpoint_commands
      p_bft.Consensus.Execution.checkpoint_due p_bft.State.execute p_bft.Collections.BTreeMap.insert
  run r [] = r
  run r (a ∷ as_) = run (act r a) as_

-- An id that is no node's stays as it was at the start.
pub NetworkReach-unused :
    {ext : External} {config : Config} {pairs : ℕ → Bytes} {w : Engines}
    → NetworkReach ext config pairs w
    → (i : ℕ) → config.num_nodes ≤ i
    → w i ≡ start i config (pairs i)
NetworkReach-unused here i h = refl
NetworkReach-unused (next {w = w} r (acts j {g'} st lt below del)) i h =
    at_other w j g' i (ground arith) ∙ NetworkReach-unused r i h
