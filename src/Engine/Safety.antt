-- ===== src/Engine/Safety.antt =====
-- src/consensus.rs: the invariant and panics, over the states that the engine can reach.
use p_bft.Base.{
  ℕ, ◌+◌, ◌<◌, ◌%◌, ◌≡◌, ◌≢◌, refl, some, is_some, true, List, [], ◌∷◌, ◌++◌, All, All-append,
  arith, nat_eq, inl, inr, ◌⊎◌, usize_mod, false, ap, nat_beq_iff, Bool-cases,
}
use p_bft.Collections.BTreeMap.{Bytes}
use p_bft.Collections.HashMap.{get}
use p_bft.External.{External}
use p_bft.Config.{Config}
use p_bft.State.{current_leader, get_leader_for_view}
use p_bft.ViewChanger.{ViewChanger, Timer, fire}
use p_bft.Messages.Command.{ConsensusCommand, apply_commit}
use p_bft.Consensus.Defs.{Consensus, Effects, continues, returns, panics}
use p_bft.Consensus.Handle.{handle, Outcome-cases}
use p_bft.Consensus.Invariant.Defs.{WellFormed, initial-WellFormed}
use p_bft.Consensus.Invariant.Preserved.{Passed, handle-WellFormed, handle-ne-panics}
use p_bft.Engine.{Engine, running, crashed, round, deliver, divides_by_zero, start}
use p_bft.Engine.Reach.{Reach, here, next, Step, handles, receives, expires, fires}
use p_bft.Engine.Frame.{Frame, handle-Frame}

pub record Safe (config : Config) (g : Engine) : Type 0 where
  pub state : WellFormed g.consensus.state
  pub own : g.consensus.config ≡ config
  pub shared : g.consensus.state.config ≡ config
  pub passed : All Passed g.queue

start-Safe : (id : ℕ) (config : Config) (pair : Bytes) → Safe config (start id config pair)
start-Safe id config pair = record {
  state = initial-WellFormed config id;
  own = refl;
  shared = refl;
  passed = tt;
}

pub deliver_parts :
    (g g' : Engine) (rest : List ConsensusCommand) (e : Consensus) (fx : Effects)
    → deliver g rest e fx ≡ running g'
    → (g'.consensus ≡ e) × (g'.queue ≡ rest ++ fx.to_self)
unfolding deliver
deliver_parts g g' rest e fx h = ground arith

pub List-cases :
    (q : List ConsensusCommand)
    → (q ≡ []) ⊎ ((cmd : ConsensusCommand) × (rest : List ConsensusCommand) × (q ≡ cmd ∷ rest))
List-cases [] = inl refl
List-cases (cmd ∷ rest) = inr (cmd, rest, refl)

-- A round that goes on takes the first command and delivers what its handler gives.
pub round_cases :
    (ext : External) (g g' : Engine)
    → round ext g ≡ running g'
    → (cmd : ConsensusCommand) × (rest : List ConsensusCommand) × (e : Consensus) × (fx : Effects)
      × (g.queue ≡ cmd ∷ rest)
      × (handle ext g.consensus cmd ≡ continues e fx)
      × (deliver g rest e fx ≡ running g')
unfolding round
round_cases ext g g' h = elim (List-cases g.queue) [
  | inl n ↦ absurd (cc (rw (n, round) at h))
  | inr (cmd, rest, q) ↦ elim (Bool-cases (divides_by_zero g.consensus cmd)) [
    | inl zero ↦ absurd (cc (rw (q, round, zero) at h))
    | inr sound ↦ elim (Outcome-cases (handle ext g.consensus cmd)) [
      | inl (e, fx, o) ↦ (cmd, rest, e, fx, q, o, rw (q, round, sound, o) at h)
      | inr (inl o) ↦ absurd (cc (rw (q, round, sound, o) at h))
      | inr (inr o) ↦ absurd (cc (rw (q, round, sound, o) at h))
    ]
  ]
]

round-Safe :
    (ext : External) (config : Config) (g g' : Engine)
    → g.consensus.state.last_seq_num_committed + 1 < usize_mod
    → Safe config g
    → round ext g ≡ running g'
    → Safe config g'
round-Safe ext config g g' b s h =
    let (cmd, rest, e, fx, q, o, d) = round_cases ext g g' h in
    let (same, queue) = deliver_parts g g' rest e fx d in
    let w : WellFormed e.state = rw o at (handle-WellFormed ext g.consensus cmd b s.state) in
    let f : Frame g.consensus (continues e fx) = rw o at (handle-Frame ext g.consensus cmd) in
    let p : All Passed (cmd ∷ rest) = rw q at s.passed in
    record {
      state = rw same w;
      own = ground arith;
      shared = ground arith;
      passed = rw queue (All-append Passed rest fx.to_self p.1 f.5);
    }

fire-Passed :
    (w : ViewChanger) (t : Timer) (cmd : ConsensusCommand) → fire w t ≡ some cmd → Passed cmd
unfolding fire
fire-Passed w t cmd h = ground arith

Step-Safe :
    {ext : External} {config : Config} {g g' : Engine}
    → Step ext g g'
    → Safe config g
    → Safe config g'
Step-Safe {ext} {config} {g} {g'} (handles b h) s = round-Safe ext config g g' b s h
Step-Safe {ext} {config} {g} (receives m p room) s = record {
  state = s.state;
  own = s.own;
  shared = s.shared;
  passed = All-append Passed g.queue _ s.passed (p, tt);
}
Step-Safe (expires before later t e f) s = record {
  state = s.state;
  own = s.own;
  shared = s.shared;
  passed = s.passed;
}
Step-Safe {ext} {config} {g} (fires before later t cmd e f room) s = record {
  state = s.state;
  own = s.own;
  shared = s.shared;
  passed = All-append Passed g.queue _ s.passed (fire-Passed g.consensus.view_changer t cmd f, tt);
}

-- Every state that the engine reaches is safe: the replica's state is well formed, its configuration
-- and the state's are the one it was started with, and no identifier is in its queue, in whatever
-- order messages and timers come in. The last applied sequence number is assumed to stay below the
-- top of its type.
pub Reach-Safe :
    {ext : External} {id : ℕ} {config : Config} {pair : Bytes} {g : Engine}
    → Reach ext id config pair g
    → Safe config g
Reach-Safe {id} {config} {pair} here = start-Safe id config pair
Reach-Safe (next r st) = Step-Safe st (Reach-Safe r)

-- each node of the cluster has an address
abbrev pub HasPeers : Config → Type 0
HasPeers config =
    (0 < config.num_nodes)
    × ((i : ℕ) → i < config.num_nodes → is_some (get config.peer_addrs i) ≡ true)

leader_address :
    (e : Consensus) (config : Config)
    → HasPeers config
    → e.config ≡ config
    → e.state.config ≡ config
    → is_some (get e.config.peer_addrs (current_leader e.state)) ≡ true
unfolding current_leader get_leader_for_view
leader_address e config h p q =
    rw (p, q) (h.1 (e.state.view % config.num_nodes) (omega (arith, h.0)))

-- The frequency is not divided by where it is 0.
sound_division :
    (e : Consensus) (config : Config) (cmd : ConsensusCommand)
    → e.config ≡ config
    → 0 < config.checkpoint_frequency
    → divides_by_zero e cmd ≡ false
sound_division e config (apply_commit c) same some_ =
    let f = ap (λ (x : Config). x.checkpoint_frequency) same in
    ground (arith, nat_beq_iff e.config.checkpoint_frequency 0)
sound_division e config cmd same some_ = refl

-- In no state that it can reach does the engine panic, if the cluster has a node, each node of it has an
-- address, and the checkpoint frequency is not 0. It reaches states by any messages but identifiers, by
-- timers and by its own commands, as long as the last applied sequence number is below the top of its
-- type.
pub reachable-ne-crashed :
    {ext : External} {id : ℕ} {config : Config} {pair : Bytes} {g : Engine}
    → HasPeers config
    → 0 < config.checkpoint_frequency
    → Reach ext id config pair g
    → round ext g ≢ crashed
unfolding round deliver
reachable-ne-crashed {ext} {config} {g} h often r p =
    let s = Reach-Safe r in
    elim (List-cases g.queue) [
      | inl n ↦ cc (rw (n, round) at p)
      | inr (cmd, rest, q) ↦
          let passed : All Passed (cmd ∷ rest) = rw q at s.passed in
          handle-ne-panics ext g.consensus cmd s.state
            (leader_address g.consensus config h s.own s.shared) passed.0
            (panic cmd rest q (sound_division g.consensus config cmd s.own often)
              (Outcome-cases (handle ext g.consensus cmd)))
    ]
  where
    panic :
        (cmd : ConsensusCommand) (rest : List ConsensusCommand)
        → g.queue ≡ cmd ∷ rest
        → divides_by_zero g.consensus cmd ≡ false
        → ((e : Consensus) × (fx : Effects) × (handle ext g.consensus cmd ≡ continues e fx))
          ⊎ ((handle ext g.consensus cmd ≡ returns) ⊎ (handle ext g.consensus cmd ≡ panics))
        → handle ext g.consensus cmd ≡ panics
    panic cmd rest q z (inl (e, fx, o)) =
        absurd (let d : deliver g rest e fx ≡ crashed = rw (q, round, z, o) at p in ground arith)
    panic cmd rest q z (inr (inl o)) = absurd (cc (rw (q, round, z, o) at p))
    panic cmd rest q z (inr (inr o)) = o
