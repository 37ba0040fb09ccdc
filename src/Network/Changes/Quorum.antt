-- ===== src/Network/Changes/Quorum.antt =====
-- The cluster: no view change completes unless more than `2 f` nodes ask for one.
use mathlib.Core.Path.{subst}
use p_bft.Base.{
  ℕ, ◌*◌, ◌≤◌, ◌<◌, ◌≡◌, ◌⊎◌, refl, sym, ap, ◌∙◌, inl, inr, some, List, ◌∷◌, All, All-append, arith,
  nat_eq, pair_eq, length,
}
use p_bft.Collections.BTreeMap.{Bytes, bytes_eq}
use p_bft.Collections.HashSet.Laws.{IsDistinct}
use p_bft.External.{External}
use p_bft.Config.{Config}
use p_bft.Messages.ClientRequest.{ClientRequest, request_eq}
use p_bft.Messages.Message.{Message, client_request_message}
use p_bft.Messages.Command.{ConsensusCommand}
use p_bft.ViewChanger.{ViewChanger, Timer, fire}
use p_bft.Consensus.Defs.{continues}
use p_bft.Engine.{Engine, running, round}
use p_bft.Engine.Safety.{round_cases}
use p_bft.Engine.Frame.{Frame, handle-Frame}
use p_bft.Engine.Reach.{Step, handles, receives, expires, fires}
use p_bft.Network.{Carries, Engines, Delivered, NetworkReach}
use p_bft.Network.Calm.Defs.{Goes, NoNewView}
use p_bft.Network.Engines.{deliver_sent}
use p_bft.Network.Agreement.{NewViewFree}
use p_bft.Network.Induction.{NetworkReach-induct, Carries-All}
use p_bft.Network.Changes.Defs.{LateMessage, LateSent, LateCommand, LateVotes, LateAfter}
use p_bft.Network.Changes.Handle.{handle-Late}

-- The engine has votes for a view change from these nodes only, and has sent no new view.
record Late (late : List ℕ) (config : Config) (g : Engine) : Type 0 where
  own : g.consensus.config ≡ config
  votes : LateVotes late g.consensus.state
  queue : All (LateCommand late) g.queue
  told : All NoNewView g.sent

fire-Late :
    (late : List ℕ) (w : ViewChanger) (t : Timer) (cmd : ConsensusCommand)
    → fire w t ≡ some cmd
    → LateCommand late cmd
unfolding fire
fire-Late late w t cmd h = ground arith

module _ (late : List ℕ) (config : Config) (few : length late ≤ 2 * config.num_faulty) where
  round-Late :
      (ext : External) (g g' : Engine)
      → Late late config g
      → round ext g ≡ running g'
      → Late late config g'
  round-Late ext g g' l h =
      let (cmd, rest, e, fx, q, o, d) = round_cases ext g g' h in
      let (same, queue, all) = deliver_sent g g' rest e fx d in
      let held : All (LateCommand late) (cmd ∷ rest) = rw q at l.queue in
      let f : Frame g.consensus (continues e fx) = rw o at (handle-Frame ext g.consensus cmd) in
      let bound : length late ≤ 2 * g.consensus.config.num_faulty =
        subst (λ k. length late ≤ 2 * k.num_faulty) (sym l.own) few in
      let a : Goes (LateAfter late) (continues e fx) =
        rw o at (handle-Late late ext g.consensus l.votes cmd bound held.0) in
      record {
        own = ap (λ x. x.config) same ∙ f.0 ∙ l.own;
        votes = rw same a.state;
        queue = rw queue (All-append (LateCommand late) rest fx.to_self held.1 a.own);
        told = rw all (All-append NoNewView g.sent fx.to_node l.told a.told);
      }

  Delivered-Late :
      (nodes : ℕ) (w : Engines) (m : Message)
      → ((j : ℕ) → All (LateSent late) (w j).sent)
      → ((r : ClientRequest) × (m ≡ client_request_message r))
        ⊎ ((j : ℕ) × (j < nodes) × Carries m (w j).sent)
      → LateMessage late m
  Delivered-Late nodes w m a (inl (r, is)) = subst (LateMessage late) (sym is) tt
  Delivered-Late nodes w m a (inr (j, lt, from)) =
      Carries-All (LateSent late) (LateMessage late) (λ c h. h) m (w j).sent from (a j)

  Step-Late :
      {ext : External} (nodes : ℕ) (w : Engines) (i : ℕ) (g' : Engine) (st : Step ext (w i) g')
      → ((j : ℕ) → All (LateSent late) (w j).sent)
      → ((j : ℕ) → Late late config (w j))
      → Delivered nodes w st
      → Late late config g'
  Step-Late {ext} nodes w i g' (handles b h) a l d = round-Late ext (w i) g' (l i) h
  Step-Late nodes w i g' (receives m p room) a l d = record {
    own = (l i).own;
    votes = (l i).votes;
    queue =
        All-append (LateCommand late) (w i).queue _ (l i).queue (Delivered-Late nodes w m a d, tt);
    told = (l i).told;
  }
  Step-Late nodes w i g' (expires before later t e h) a l d = record {
    own = (l i).own;
    votes = (l i).votes;
    queue = (l i).queue;
    told = (l i).told;
  }
  Step-Late nodes w i g' (fires before later t cmd e h room) a l d = record {
    own = (l i).own;
    votes = (l i).votes;
    queue =
        All-append (LateCommand late) (w i).queue _ (l i).queue
          (fire-Late late (w i).consensus.view_changer t cmd h, tt);
    told = (l i).told;
  }

-- No view change completes unless more than `2 f` different nodes ask for one: if all view changes that
-- the nodes of a cluster sent come from `2 f` nodes at most, no node has sent a new view. Sequence
-- numbers stay below the top of their type.
pub new_view-needs-quorum :
    {ext : External} {config : Config} {pairs : ℕ → Bytes} {w : Engines} (late : List ℕ)
    → length late ≤ 2 * config.num_faulty
    → NetworkReach ext config pairs w
    → ((i : ℕ) → All (LateSent late) (w i).sent)
    → NewViewFree w
unfolding IsDistinct
new_view-needs-quorum {config} late few r asked i =
    (NetworkReach-induct (Late late config) (LateSent late)
      (λ j. record {
        own = refl;
        votes = record { voters = tt; distinct = tt };
        queue = tt;
        told = tt;
      })
      (λ w₀ j g' st. Step-Late late config few config.num_nodes w₀ j g' st) r asked i).told
