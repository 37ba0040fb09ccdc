-- ===== src/Network/Induction.antt =====
-- The engines of a cluster step by step: what their steps add, and how to show something of all of them.
use mathlib.Core.Path.{subst}
use mathlib.Core.List.{append-nil}
use p_bft.Base.{
  ℕ, ◌≡◌, refl, sym, true, false, List, [], ◌∷◌, ◌++◌, All, inl, inr, Bool-cases, nat_beq,
  nat_beq_iff,
}
use p_bft.Collections.BTreeMap.{Bytes}
use p_bft.External.{External}
use p_bft.Config.{Config}
use p_bft.Messages.Message.{Message}
use p_bft.Messages.Command.{NodeCommand}
use p_bft.Engine.{Engine, start}
use p_bft.Engine.Safety.{round_cases}
use p_bft.Engine.Reach.{Step, handles, receives, expires, fires}
use p_bft.Network.{
  message_of, Carries, Engines, set_engine, Delivered, NetworkStep, acts, NetworkReach, here, next,
}
use p_bft.Network.Engines.{deliver_sent}
use p_bft.Network.Steps.{All-split}

-- What an engine sends is added to what it sent.
Step-sent :
    {ext : External} {g g' : Engine}
    → Step ext g g'
    → (news : List NodeCommand) × (g'.sent ≡ g.sent ++ news)
Step-sent {ext} {g} {g'} (handles b h) =
    let (cmd, rest, e, fx, q, o, d) = round_cases ext g g' h in
    (fx.to_node, (deliver_sent g g' rest e fx d).2)
Step-sent {g} (receives m p room) = ([], sym (append-nil g.sent))
Step-sent {g} (expires before later t e f) = ([], sym (append-nil g.sent))
Step-sent {g} (fires before later t cmd e f room) = ([], sym (append-nil g.sent))

-- What holds of all that a node has sent held of all that it had sent before.
pub sent_before :
    {ext : External} {nodes : ℕ} {w w' : Engines} (P : NodeCommand → Type 0)
    → NetworkStep ext nodes w w'
    → (i : ℕ) → All P (w' i).sent
    → All P (w i).sent
sent_before {w} P (acts i {g'} st lt b del) j h = elim (Bool-cases (nat_beq j i)) [
  | inr other ↦ rw other at h
  | inl same ↦
      let now : All P g'.sent = rw same at h in
      let (news, all) = Step-sent st in
      subst (λ k. All P (w k).sent) (sym ((nat_beq_iff j i).0 same))
        (All-split P (w i).sent news (subst (All P) all now)).0
]

pub at_other :
    (w : Engines) (i : ℕ) (g : Engine) (j : ℕ) → nat_beq j i ≡ false → set_engine w i g j ≡ w j
at_other w i g j h = rw h refl

pub at_self :
    (w : Engines) (i : ℕ) (g : Engine) (j : ℕ) → nat_beq j i ≡ true → set_engine w i g j ≡ g
at_self w i g j h = rw h refl

-- What holds of all engines and of the new one holds of all after the step.
pub set_engine-all :
    (Q : ℕ → Engine → Type 0) (w : Engines) (i : ℕ) (g : Engine)
    → ((j : ℕ) → Q j (w j))
    → Q i g
    → (j : ℕ) → Q j (set_engine w i g j)
set_engine-all Q w i g all new j = elim (Bool-cases (nat_beq j i)) [
  | inr other ↦ subst (Q j) (sym (at_other w i g j other)) (all j)
  | inl same ↦
      subst (Q j) (sym (at_self w i g j same))
        (subst (λ k. Q k g) (sym ((nat_beq_iff j i).0 same)) new)
]

-- A message that was sent is that of a command, of which holds what holds of all.
pub Carries-All :
    (P : NodeCommand → Type 0) (Q : Message → Type 0)
    → ((c : NodeCommand) → P c → Q (message_of c))
    → (m : Message) (cs : List NodeCommand) → Carries m cs
    → All P cs
    → Q m
Carries-All P Q f m [] h a = elim h [ ]
Carries-All P Q f m (c ∷ cs) (inl e) a = subst Q e (f c a.0)
Carries-All P Q f m (c ∷ cs) (inr h) a = Carries-All P Q f m cs h a.1

-- To show something of every engine, show it of the first and after each step, with what holds of all
-- messages sent up to the end.
pub NetworkReach-induct :
    {ext : External} {config : Config} {pairs : ℕ → Bytes} {w : Engines} (F : Engine → Type 0)
    (A : NodeCommand → Type 0)
    → ((i : ℕ) → F (start i config (pairs i)))
    → ((w₀ : Engines) (i : ℕ) (g' : Engine) (st : Step ext (w₀ i) g')
        → ((j : ℕ) → All A (w₀ j).sent)
        → ((j : ℕ) → F (w₀ j))
        → Delivered config.num_nodes w₀ st
        → F g')
    → NetworkReach ext config pairs w
    → ((i : ℕ) → All A (w i).sent)
    → (i : ℕ) → F (w i)
NetworkReach-induct F A starts steps here all i = starts i
NetworkReach-induct F A starts steps (next {w = w₀} r (acts i {g'} st lt room del)) all j =
    let all₀ : (k : ℕ) → All A (w₀ k).sent =
      λ k. sent_before {w = w₀} A (acts i st lt room del) k (all k) in
    let before : (k : ℕ) → F (w₀ k) = NetworkReach-induct F A starts steps r all₀ in
    set_engine-all (λ k g. F g) w₀ i g' before (steps w₀ i g' st all₀ before del) j
