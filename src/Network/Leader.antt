-- ===== src/Network/Leader.antt =====
-- src/consensus.rs: a step of the leader's engine and one of another's, while no view change completes.
use p_bft.Base.{
  ℕ, ◌+◌, ◌<◌, ◌≡◌, ◌≢◌, refl, sym, ◌∙◌, some, List, [], All, All-append, arith, false, usize_mod,
  nat_eq, pair_eq,
}
use p_bft.External.{External}
use p_bft.Config.{Config}
use p_bft.Messages.ClientRequest.{request_eq}
use p_bft.Messages.PrePrepare.{PrePrepare}
use p_bft.Messages.Command.{ConsensusCommand}
use p_bft.ViewChanger.{ViewChanger, Timer, fire}
use p_bft.Engine.{Engine}
use mathlib.Core.List.{append-nil}
use p_bft.Engine.Reach.{Step, handles, receives, expires, fires, queued, without_timer}
use p_bft.Network.Calm.Defs.{NoNewView, Calm, CalmCommand}
use p_bft.Network.Engines.{first_leader, CalmEngine}
use p_bft.Network.Growth.{last_used, SettledAt, LeaderStep, CalmRound-LeaderStep}
use p_bft.Network.Rounds.{round-LeaderStep, round-calm}

fire-Calm :
    (P : PrePrepare → Type 0) (leads : Type 0) (w : ViewChanger) (t : Timer)
    (cmd : ConsensusCommand)
    → fire w t ≡ some cmd
    → CalmCommand P leads cmd
unfolding fire
fire-Calm P leads w t cmd h = ground arith

-- A message received, if there is one, is calm.
abbrev pub CalmReceipt :
    {ext : External} {g g' : Engine} → (PrePrepare → Type 0) → Step ext g g' → Type 0
CalmReceipt P (receives m p room) = Calm P m
CalmReceipt P _ = Unit {0}

-- Another command in the queue.
queued-calm :
    (P : PrePrepare → Type 0) (config : Config) (i : ℕ) (g : Engine) (cmd : ConsensusCommand)
    → CalmEngine P config i g
    → CalmCommand P (i ≡ first_leader config) cmd
    → CalmEngine P config i (queued g cmd)
queued-calm P config i g cmd c h = record {
  id = c.id;
  own = c.own;
  shared = c.shared;
  state = c.state;
  queue = All-append (CalmCommand P (i ≡ first_leader config)) g.queue _ c.queue (h, tt);
  sent = c.sent;
}

-- Another set of timers.
timed-calm :
    (P : PrePrepare → Type 0) (config : Config) (i : ℕ) (g : Engine) (before later : List Timer)
    → CalmEngine P config i g
    → CalmEngine P config i (without_timer g before later)
timed-calm P config i g before later c = record {
  id = c.id;
  own = c.own;
  shared = c.shared;
  state = c.state;
  queue = c.queue;
  sent = c.sent;
}

-- The steps that are no round leave the engine's state and what it sent.
same-LeaderStep :
    (config : Config) (i : ℕ) (g g' : Engine)
    → g'.sent ≡ g.sent
    → last_used g' ≡ last_used g
    → CalmEngine (SettledAt g) config i g'
    → LeaderStep config i g g'
same-LeaderStep config i g g' p q c =
    CalmRound-LeaderStep config i g g'
      (record { calm = c; seq = q; news = []; sent = p ∙ sym (append-nil g.sent); told = tt })

pub Step-LeaderStep :
    {ext : External} {g g' : Engine} (config : Config) (i : ℕ) (st : Step ext g g')
    → config.is_equivocator ≡ false
    → last_used g + 1 < usize_mod
    → CalmReceipt (SettledAt g) st
    → All NoNewView g'.sent
    → CalmEngine (SettledAt g) config i g
    → LeaderStep config i g g'
Step-LeaderStep {ext} {g} {g'} config i (handles b h) honest r m unmoved c =
    round-LeaderStep ext config i g g' honest r c unmoved h
Step-LeaderStep {g} config i (receives m p room) honest r h unmoved c =
    same-LeaderStep config i g _ refl refl (queued-calm (SettledAt g) config i g _ c h)
Step-LeaderStep {g} config i (expires before later t e f) honest r h unmoved c =
    same-LeaderStep config i g _ refl refl (timed-calm (SettledAt g) config i g before later c)
Step-LeaderStep {g} config i (fires before later t cmd e f room) honest r h unmoved c =
    same-LeaderStep config i g _ refl refl (
      queued-calm (SettledAt g) config i (without_timer g before later) cmd
        (timed-calm (SettledAt g) config i g before later c)
        (fire-Calm (SettledAt g) (i ≡ first_leader config) g.consensus.view_changer t cmd f))

pub Step-calm :
    {ext : External} {g g' : Engine} (P : PrePrepare → Type 0) (config : Config) (i : ℕ)
    (st : Step ext g g')
    → i ≢ first_leader config
    → CalmReceipt P st
    → All NoNewView g'.sent
    → CalmEngine P config i g
    → CalmEngine P config i g'
Step-calm {ext} {g} {g'} P config i (handles b h) follower m unmoved c =
    round-calm P ext config i g g' follower c unmoved h
Step-calm {g} P config i (receives m p room) follower h unmoved c = queued-calm P config i g _ c h
Step-calm {g} P config i (expires before later t e f) follower h unmoved c =
    timed-calm P config i g before later c
Step-calm {g} P config i (fires before later t cmd e f room) follower h unmoved c =
    queued-calm P config i (without_timer g before later) cmd
      (timed-calm P config i g before later c)
      (fire-Calm P (i ≡ first_leader config) g.consensus.view_changer t cmd f)
