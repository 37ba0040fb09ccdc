-- ===== src/Replication/Cluster.antt =====
-- src/consensus.rs: the engines of several replicas, each with its own queue and its own messages.
use p_bft.Base.{ℕ, ◌+◌, ◌<◌, ◌≡◌, some, ◌∷◌, All, All-append, arith, usize_mod, sym}
use p_bft.Collections.BTreeMap.{Bytes}
use p_bft.External.{External}
use p_bft.Config.{Config}
use p_bft.State.{digest}
use p_bft.ViewChanger.{ViewChanger, Timer, fire}
use p_bft.Messages.Command.{ConsensusCommand}
use p_bft.Engine.{Engine, running, round, start}
use p_bft.Engine.Reach.{Reach, here, next, Step, handles, receives, expires, fires}
use p_bft.Engine.Safety.{round_cases, deliver_parts}
use p_bft.Replication.Agreed.{Decided, Honest, HonestMessage, Consistent}
use p_bft.Replication.Stores.{handle-Consistent, replay-zero}
use p_bft.Replication.Sends.{handle-Honest}

-- Each message that the engine received on its way here is as agreement allows.
abbrev pub HonestStep : {ext : External} {g g' : Engine} → Decided → Step ext g g' → Type 0
HonestStep decided (receives m p room) = HonestMessage decided m
HonestStep decided _ = Unit {0}

abbrev pub HonestHistory :
    {ext : External} {id : ℕ} {config : Config} {pair : Bytes} {g : Engine}
    → Decided
    → Reach ext id config pair g
    → Type 0
HonestHistory decided here = Unit {0}
HonestHistory decided (next r st) = HonestStep decided st × HonestHistory decided r

-- The replica follows the decided requests, and its queue holds nothing that agreement rules out.
pub record Follows (decided : Decided) (g : Engine) : Type 0 where
  pub state : Consistent decided g.consensus.state
  pub queue : All (Honest decided) g.queue

pub start-Follows :
    (decided : Decided) (id : ℕ) (config : Config) (pair : Bytes)
    → Follows decided (start id config pair)
start-Follows decided id config pair = record {
  state = record { store = sym (replay-zero decided); log = tt };
  queue = tt;
}

round-Follows :
    (decided : Decided) (ext : External) (g g' : Engine)
    → g.consensus.state.last_seq_num_committed + 1 < usize_mod
    → Follows decided g
    → round ext g ≡ running g'
    → Follows decided g'
round-Follows decided ext g g' b s h =
    let (cmd, rest, e, fx, q, o, d) = round_cases ext g g' h in
    let (same, queue) = deliver_parts g g' rest e fx d in
    let p : All (Honest decided) (cmd ∷ rest) = rw q at s.queue in
    let c : Consistent decided e.state =
      rw o at (handle-Consistent decided ext g.consensus cmd b p.0 s.state) in
    let own : All (Honest decided) fx.to_self =
      rw o at (handle-Honest decided ext g.consensus cmd p.0) in
    record {
      state = rw same c;
      queue = rw queue (All-append (Honest decided) rest fx.to_self p.1 own);
    }

fire-Honest :
    (decided : Decided) (w : ViewChanger) (t : Timer) (cmd : ConsensusCommand)
    → fire w t ≡ some cmd
    → Honest decided cmd
unfolding fire
fire-Honest decided w t cmd h = ground arith

pub Step-Follows :
    {ext : External} {g g' : Engine} (decided : Decided) (st : Step ext g g')
    → HonestStep decided st
    → Follows decided g
    → Follows decided g'
Step-Follows {ext} {g} {g'} decided (handles b h) a s = round-Follows decided ext g g' b s h
Step-Follows {ext} {g} decided (receives m p room) a s = record {
  state = s.state;
  queue = All-append (Honest decided) g.queue _ s.queue (a, tt);
}
Step-Follows decided (expires before later t e f) a s = record { state = s.state; queue = s.queue }
Step-Follows {ext} {g} decided (fires before later t cmd e f room) a s = record {
  state = s.state;
  queue =
      All-append (Honest decided) g.queue _ s.queue
        (fire-Honest decided g.consensus.view_changer t cmd f, tt);
}

-- Every state that the engine reaches follows the decided requests, in whatever order messages, timers
-- and its own commands come in, if the proposals and checkpoints among the messages received agree
-- with them. The last applied sequence number is assumed to stay below the top of its type.
pub Reach-Follows :
    {ext : External} {id : ℕ} {config : Config} {pair : Bytes} {g : Engine} (decided : Decided)
    (r : Reach ext id config pair g)
    → HonestHistory decided r
    → Follows decided g
Reach-Follows {id} {config} {pair} decided here h = start-Follows decided id config pair
Reach-Follows decided (next r st) h = Step-Follows decided st h.0 (Reach-Follows decided r h.1)

-- Two replicas of one cluster that have applied equally many requests have the same store and the same
-- digest of it, whatever the messages that each received and their order, if the proposals and
-- checkpoints among these agree with the decided requests. The last applied sequence numbers are
-- assumed to stay below the top of their type.
pub same_store :
    {ext : External} {config : Config} {i j : ℕ} {pair pair' : Bytes} {g g' : Engine}
    (decided : Decided) (r : Reach ext i config pair g) (r' : Reach ext j config pair' g')
    → HonestHistory decided r
    → HonestHistory decided r'
    → g.consensus.state.last_seq_num_committed ≡ g'.consensus.state.last_seq_num_committed
    → (g.consensus.state.store ≡ g'.consensus.state.store)
      × (digest ext g.consensus.state ≡ digest ext g'.consensus.state)
unfolding digest
same_store {g} {g'} decided r r' h h' n =
    let c = (Reach-Follows decided r h).state in
    let c' = (Reach-Follows decided r' h').state in
    let same : g.consensus.state.store ≡ g'.consensus.state.store = cc (c.store, c'.store, n) in
    (same, rw same)
