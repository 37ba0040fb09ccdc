-- ===== src/Programs/Refinement.antt =====
-- The node programs of a cluster against its engines: what the programs do over connections in bytes is
-- what the engines do with whole messages.
use mathlib.Core.Path.{subst, fun_ext}
use p_bft.Base.{
  ℕ, ◌≡◌, refl, ap, sym, inl, inr, Bool-cases, Bool, true, false, Option, if◌then◌else◌, nat_beq,
  nat_beq_iff, ◌∙◌,
}
use p_bft.Collections.BTreeMap.{Bytes}
use p_bft.External.{External, SocketAddr}
use p_bft.Config.{Config}
use p_bft.Engine.{Engine}
use p_bft.Engine.Reach.{Step, handles, receives, expires, fires, queued}
use p_bft.Network.{Engines, set_engine, Delivered, acts, NetworkReach, here, next}
use p_bft.Network.Agreement.{NewViewFree}
use p_bft.Network.Engines.{first_leader}
use p_bft.Network.Growth.{proposals}
use p_bft.Network.Stores.{stores_follow_leader}
use p_bft.Replication.Agreed.{replay}
use p_bft.Node.Wire.{Json}
use p_bft.Node.Wire.Lines.{IsOneLine}
use p_bft.Programs
use p_bft.Programs.{
  Running, Programs, set_program, IsOwn, ProgramReach, started, records_key, reads, works,
}
use p_bft.Programs.Parts.{PartsReadBack, read_connection-From}

abbrev pub engines_of : Programs → Engines
engines_of w j = (w j).engine

engine-if :
    (b : Bool) (p q : Running) → (if b then p else q).engine ≡ (if b then p.engine else q.engine)
engine-if true p q = refl
engine-if false p q = refl

engines_of-set_program :
    (w : Programs) (i : ℕ) (p : Running)
    → engines_of (set_program w i p) ≡ set_engine (engines_of w) i p.engine
engines_of-set_program w i p = fun_ext (λ j. engine-if (nat_beq j i) p (w j))

set_engine-same : (w : Engines) (i : ℕ) → set_engine w i (w i) ≡ w
set_engine-same w i = fun_ext (λ j. elim (Bool-cases (nat_beq j i)) [
  | inl same ↦ rw same (ap w (sym ((nat_beq_iff j i).0 same)))
  | inr other ↦ rw other refl
])

IsOwn-Delivered :
    {ext : External} {g g' : Engine} (nodes : ℕ) (w : Engines) (st : Step ext g g')
    → IsOwn st
    → Delivered nodes w st
IsOwn-Delivered nodes w (receives m p room) own = elim own [ ]
IsOwn-Delivered nodes w (handles top e) own = tt
IsOwn-Delivered nodes w (expires before later t e h) own = tt
IsOwn-Delivered nodes w (fires before later t cmd e h room) own = tt

module _ {ext : External} {json : Json} {parse : Bytes → Option ℕ}
    {from_str : Bytes → Option SocketAddr} {config : Config} {pairs : ℕ → Bytes}
    (one : (m : _) → IsOneLine json m) (parts : PartsReadBack json) where
  -- The engines of node programs that talk in bytes get only where engines get that are handed whole
  -- messages, of clients and of each other.
  pub ProgramReach-NetworkReach :
      {w : Programs}
      → ProgramReach ext json parse from_str config pairs w
      → NetworkReach ext config pairs (engines_of w)
  ProgramReach-NetworkReach (started args inner all) = here
  ProgramReach-NetworkReach (Programs.next {w = w} r (records_key i bytes n written read)) =
      subst (NetworkReach ext config pairs)
        (sym (engines_of-set_program w i _ ∙ set_engine-same (engines_of w) i))
        (ProgramReach-NetworkReach r)
  ProgramReach-NetworkReach
        (Programs.next {w = w} r (reads i bytes cmd lt written read room below)) =
      let (m, same, p, from) =
        read_connection-From json ext config.num_nodes w (w i).inner bytes cmd one parts written
          read in
      subst (NetworkReach ext config pairs)
        (ap (λ c. set_engine (engines_of w) i (queued (w i).engine c)) (sym same)
          ∙ sym (engines_of-set_program w i _))
        (next (ProgramReach-NetworkReach r) (acts i (receives m p room) lt below from))
  ProgramReach-NetworkReach (Programs.next {w = w} r (works i st own lt below)) =
      subst (NetworkReach ext config pairs) (sym (engines_of-set_program w i _)) (
        next (ProgramReach-NetworkReach r)
          (acts i st lt below (IsOwn-Delivered config.num_nodes (engines_of w) st own)))

  -- The store of every node that `main` started is that after the requests that the first leader
  -- proposed, in the order of their sequence numbers, up to the node's last applied one, until a view
  -- change completes: whatever requests clients send, which connections fail, take a part of a message
  -- only, are late or repeated, when timers run out, and which nodes stop. It is assumed that the JSON of
  -- a message is one line, and that a part of that line does not parse or reads back as the message. No
  -- node is an equivocator, and sequence numbers stay below the top of their type.
  pub programs_follow_leader :
      {w : Programs}
      → config.is_equivocator ≡ false
      → ProgramReach ext json parse from_str config pairs w
      → NewViewFree (engines_of w)
      → (i : ℕ)
      → (w i).engine.consensus.state.store
        ≡ replay
            (proposals (w (first_leader config)).engine)
            (w i).engine.consensus.state.last_seq_num_committed
  programs_follow_leader honest r free i =
      stores_follow_leader honest (ProgramReach-NetworkReach r) free i
