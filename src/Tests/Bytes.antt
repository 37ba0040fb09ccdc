-- ===== src/Tests/Bytes.antt =====
-- The node programs of a cluster, which talk in bytes: a client's request is read and proposed.
use mathlib.Core.Path.{subst}
use mathlib.Core.Logic.{dite}
use native.Mathlib.Decide.{dec_lt}
use p_bft.Base.{
  ℕ, zero, suc, ◌+◌, ◌<◌, ◌≡◌, ◌⊎◌, inl, inr, refl, sym, false, none, some, List, [], ◌∷◌, take,
  arith, nat_eq, usize_mod, Bool-cases, if◌then◌else◌, All,
}
use p_bft.Collections.BTreeMap.{Bytes, bytes_beq}
use p_bft.Collections.HashMap
use p_bft.Collections.HashSet.{contains}
use p_bft.Config.{Config}
use p_bft.External.{text}
use p_bft.Messages.ClientRequest.{request_beq, request_beq_iff}
use p_bft.Messages.Message.{
  Message, client_request_message, identifier_message, pre_prepare_message, prepare_message,
  commit_message, view_change_message, new_view_message, check_point_message,
  client_response_message,
}
use p_bft.Messages.Command.{process_message}
use p_bft.Engine.{start, round, capacity}
use p_bft.Engine.Reach.{handles, queued}
use p_bft.Network.Agreement.{NewViewFree}
use p_bft.Network.Calm.Defs.{NoNewView}
use p_bft.Network.Engines.{first_leader}
use p_bft.Network.Growth.{proposals}
use p_bft.Replication.Agreed.{replay}
use p_bft.Node.{InnerNode, passes}
use p_bft.Node.Wire.{Json, Link, serialize, send_bytes, read_connection}
use p_bft.Node.Wire.Lines.{IsOneLine}
use p_bft.Main.Program.{main}
use p_bft.Programs.{Programs, set_program, by_client, reads, works, ProgramReach, started, next}
use p_bft.Programs.Parts.{PartsReadBack}
use p_bft.Programs.Refinement.{ProgramReach-NetworkReach, programs_follow_leader, engines_of}
use p_bft.Tests.Schedule.{went_on, NetworkReach-unused}
use p_bft.Tests.World.{plain, addr, write, digit, any_addr}

-- A stand-in for the JSON text, in which one request can be told from the other messages.
abbrev json : Json
json = record {
  to_string = λ m. elim m [
    | client_request_message r ↦ if request_beq r (write 5) then text "{}" else text "?"
    | identifier_message i ↦ text "?"
    | pre_prepare_message p ↦ text "?"
    | prepare_message p ↦ text "?"
    | commit_message p ↦ text "?"
    | view_change_message p ↦ text "?"
    | new_view_message p ↦ text "?"
    | check_point_message p ↦ text "?"
    | client_response_message p ↦ text "?"
  ];
  from_str = λ bytes.
      if bytes_beq (take 2 bytes) (text "{}")
      then some (client_request_message (write 5))
      else none;
}

-- What is no client's request does not parse.
other_parts : (k : ℕ) → json.from_str (take k (text "?\n")) ≡ none
unfolding bytes_beq p_bft.Collections.BTreeMap.compare_bytes
other_parts zero = refl
other_parts (suc zero) = refl
other_parts (suc (suc k)) = refl

request_parts :
    (k : ℕ)
    → (json.from_str (take k (text "{}\n")) ≡ none)
      ⊎ (json.from_str (take k (text "{}\n")) ≡ some (client_request_message (write 5)))
unfolding bytes_beq p_bft.Collections.BTreeMap.compare_bytes
request_parts zero = inl refl
request_parts (suc zero) = inl refl
request_parts (suc (suc k)) = inr refl

one_line : (m : Message) → IsOneLine json m
unfolding contains
one_line (client_request_message r) = elim (Bool-cases (request_beq r (write 5))) [
  | inl same ↦ rw same refl
  | inr other ↦ rw other refl
]
one_line (identifier_message i) = refl
one_line (pre_prepare_message i) = refl
one_line (prepare_message i) = refl
one_line (commit_message i) = refl
one_line (view_change_message i) = refl
one_line (new_view_message i) = refl
one_line (check_point_message i) = refl
one_line (client_response_message i) = refl

parts : PartsReadBack json
unfolding serialize
parts (client_request_message r) k = elim (Bool-cases (request_beq r (write 5))) [
  | inl same ↦ rw same (
      subst
        (λ q.
          (json.from_str (take k (text "{}\n")) ≡ none)
          ⊎ (json.from_str (take k (text "{}\n")) ≡ some (client_request_message q)))
        (sym ((request_beq_iff r (write 5)).0 same)) (request_parts k))
  | inr other ↦ rw other (inl (other_parts k))
]
parts (identifier_message i) k = inl (other_parts k)
parts (pre_prepare_message i) k = inl (other_parts k)
parts (prepare_message i) k = inl (other_parts k)
parts (commit_message i) k = inl (other_parts k)
parts (view_change_message i) k = inl (other_parts k)
parts (new_view_message i) k = inl (other_parts k)
parts (check_point_message i) k = inl (other_parts k)
parts (client_response_message i) k = inl (other_parts k)

-- four nodes at one address, each with its id as its key pair
abbrev four : Config
four = record {
  num_nodes = 4;
  num_faulty = 1;
  peer_addrs = (0, addr 8000) ∷ (1, addr 8000) ∷ (2, addr 8000) ∷ (3, addr 8000) ∷ [];
  checkpoint_frequency = 10;
  is_equivocator = false;
}

abbrev pairs : ℕ → Bytes
pairs i = i ∷ []

abbrev args : ℕ → List Bytes
args i = text "4" ∷ text "a" ∷ text "b" ∷ text "c" ∷ text "d" ∷ ((i + 48) ∷ []) ∷ []

abbrev task_of : ℕ → InnerNode
task_of i = record {
  id = i;
  config = four;
  keypair_bytes = pairs i;
  pub_key = pairs i;
  peer_pub_keys = [];
}

mains :
    (i : ℕ)
    → i < 4
    → main plain digit any_addr (pairs i) (args i) ≡ some (task_of i, start i four (pairs i))
unfolding main p_bft.Main.Program.start_node p_bft.Main.node_config p_bft.Main.peers_from
    p_bft.Main.finish p_bft.Main.num_faulty_of p_bft.Node.new HashMap.insert HashMap.get
mains zero lt = refl
mains (suc zero) lt = refl
mains (suc (suc zero)) lt = refl
mains (suc (suc (suc zero))) lt = refl
mains (suc (suc (suc (suc i)))) lt = absurd (omega arith)

abbrev Reached : Programs → Type 0
Reached = ProgramReach plain json digit any_addr four pairs

record Run : Type 0 where
  programs : Programs
  reach : Reached programs

abbrev begun : Run
begun = record {
  programs = λ i. record { inner = task_of i; engine = start i four (pairs i) };
  reach = started args task_of mains;
}

request_written :
    send_bytes json (λ a. some 3) (addr 8000) (client_request_message (write 5))
    ≡ some (text "{}\n")
unfolding send_bytes serialize request_beq bytes_beq p_bft.Collections.BTreeMap.compare_bytes
request_written = refl

request_read :
    read_connection json plain (task_of 0) (text "{}\n")
    ≡ some (passes (process_message (client_request_message (write 5))))
unfolding read_connection p_bft.Node.Wire.read_line bytes_beq
    p_bft.Collections.BTreeMap.compare_bytes p_bft.Node.read_message p_bft.Node.should_drop
    p_bft.Node.forward
request_read = refl

-- The leader reads the request from a connection that took all of its line.
abbrev asked : Run
asked = record {
  programs = set_program begun.programs 0 (record (begun.programs 0) {
    engine = queued (begun.programs 0).engine (process_message (client_request_message (write 5)));
  });
  reach = next begun.reach (
      reads 0 (text "{}\n") (process_message (client_request_message (write 5))) (omega arith)
        (by_client (λ a. some 3) (addr 8000) (write 5) request_written) request_read (omega arith)
        (omega arith));
}

-- The leader takes its next command.
takes : Run → Run
unfolding went_on dec_lt
takes r = elim (went_on (round plain (r.programs 0).engine)) [
  | none ↦ r
  | some (g, e) ↦
      dite (dec_lt ((r.programs 0).engine.consensus.state.last_seq_num_committed + 1) usize_mod)
        (λ top.
          dite (dec_lt ((r.programs 0).engine.consensus.state.seq_num + 1) usize_mod)
            (λ below. record {
              programs = set_program r.programs 0 (record (r.programs 0) { engine = g });
              reach = next r.reach (works 0 (handles top e) tt (omega arith) below);
            })
            (λ _. r))
        (λ _. r)
]

proposed : Run
proposed = takes (takes asked)

nothing_new : NewViewFree (engines_of proposed.programs)
unfolding proposed takes p_bft.Engine.round p_bft.Consensus.Handle.handle
    p_bft.Consensus.Defs.on_process_message p_bft.State.should_process_client_request
    p_bft.State.current_leader p_bft.Engine.deliver p_bft.Consensus.Proposals.on_init_pre_prepare
    contains p_bft.Messages.PrePrepare.new_with_signature
nothing_new zero = (tt, tt)
nothing_new (suc zero) = tt
nothing_new (suc (suc zero)) = tt
nothing_new (suc (suc (suc zero))) = tt
nothing_new (suc (suc (suc (suc i)))) =
    subst (λ g. All NoNewView g.sent)
      (sym (
        NetworkReach-unused (ProgramReach-NetworkReach one_line parts proposed.reach)
          (suc (suc (suc (suc i)))) (omega arith)))
      tt

programs_follow_leader_example :
    (proposed.programs 0).engine.consensus.state.store
    ≡ replay
        (proposals (proposed.programs (first_leader four)).engine)
        (proposed.programs 0).engine.consensus.state.last_seq_num_committed
programs_follow_leader_example =
    programs_follow_leader one_line parts refl proposed.reach nothing_new 0

leader_proposed : (proposed.programs 0).engine.consensus.state.seq_num ≡ 1
unfolding proposed takes went_on dec_lt p_bft.Engine.round p_bft.Consensus.Handle.handle
    p_bft.Consensus.Defs.on_process_message p_bft.State.should_process_client_request
    p_bft.State.current_leader p_bft.Engine.deliver p_bft.Consensus.Proposals.on_init_pre_prepare
    contains
leader_proposed = refl
