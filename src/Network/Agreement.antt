-- ===== src/Network/Agreement.antt =====
-- The cluster while no view change completes: which proposals there are, and that all nodes agree with
-- the leader's.
use mathlib.Core.Path.{subst}
use p_bft.Base.{
  ℕ, ◌+◌, ◌<◌, ◌≡◌, ◌≢◌, refl, sym, true, false, All, inl, inr, Bool-cases, nat_beq, nat_beq_iff,
  usize_mod,
}
use p_bft.Collections.BTreeMap.{Bytes}
use p_bft.External.{External}
use p_bft.Config.{Config}
use p_bft.Messages.PrePrepare.{PrePrepare}
use p_bft.Messages.Command.{NodeCommand, send_message, broad_cast_message}
use p_bft.Engine.{Engine, start}
use p_bft.Engine.Reach.{Step, handles, receives, expires, fires}
use p_bft.Network.{
  message_of, Engines, set_engine, Delivered, NetworkStep, acts, NetworkReach, here, next,
}
use p_bft.Network.Calm.Defs.{NoNewView, Calm, CalmSent}
use p_bft.Network.Engines.{first_leader, CalmEngine, CalmEngine-weaken}
use p_bft.Network.Growth.{SettledAt, Settled-Grows, proposals, last_used, LeaderStep}
use p_bft.Network.Leader.{CalmReceipt, Step-LeaderStep, Step-calm}
use p_bft.Network.Induction.{sent_before, at_other, at_self, set_engine-all, Carries-All}

-- No view change completes: no node has sent a new view.
abbrev pub NewViewFree : Engines → Type 0
NewViewFree w = (i : ℕ) → All NoNewView (w i).sent

-- every node's engine is calm, with the proposals that the leader has made so far
abbrev pub Settles : Config → Engines → Type 0
Settles config w = (i : ℕ) → CalmEngine (SettledAt (w (first_leader config))) config i (w i)

CalmSent-message :
    (P : PrePrepare → Type 0) (c : NodeCommand) → CalmSent P c → Calm P (message_of c)
CalmSent-message P (send_message d m) h = h
CalmSent-message P (broad_cast_message m) h = h

Delivered-Calm :
    {ext : External} {g g' : Engine} (P : PrePrepare → Type 0) (nodes : ℕ) (w : Engines)
    (st : Step ext g g')
    → ((j : ℕ) → All (CalmSent P) (w j).sent)
    → Delivered nodes w st
    → CalmReceipt P st
Delivered-Calm P nodes w (receives m p room) h (inl (r, is)) = subst (Calm P) (sym is) tt
Delivered-Calm P nodes w (receives m p room) h (inr (j, lt, from)) =
    Carries-All (CalmSent P) (Calm P) (CalmSent-message P) m (w j).sent from (h j)
Delivered-Calm P nodes w (handles b h) c d = tt
Delivered-Calm P nodes w (expires before later t e f) c d = tt
Delivered-Calm P nodes w (fires before later t cmd e f room) c d = tt

start-calm :
    (P : PrePrepare → Type 0) (config : Config) (pair : Bytes) (i : ℕ)
    → CalmEngine P config i (start i config pair)
start-calm P config pair i = record {
  id = refl;
  own = refl;
  shared = refl;
  state = record { view = refl; log = tt };
  queue = tt;
  sent = tt;
}

module _ {ext : External} (config : Config) (w : Engines) (i : ℕ) (g' : Engine)
    (st : Step ext (w i) g') (calm : Settles config w)
    (receipt : CalmReceipt (SettledAt (w (first_leader config))) st)
    (unmoved : All NoNewView g'.sent) where
  -- A step of another node leaves the leader's engine.
  follower-Settles : nat_beq (first_leader config) i ≡ false → Settles config (set_engine w i g')
  follower-Settles other j =
      let L = first_leader config in
      let follower : i ≢ L = λ e. let k = (nat_beq_iff L i).1 (sym e) in cc in
      subst (λ l. CalmEngine (SettledAt l) config j (set_engine w i g' j))
        (sym (at_other w i g' L other))
        (set_engine-all (CalmEngine (SettledAt (w L)) config) w i g' calm
          (Step-calm (SettledAt (w L)) config i st follower receipt unmoved (calm i)) j)

  -- A step of the leader adds to what the others have to agree with.
  leader-Settles :
      config.is_equivocator ≡ false
      → last_used (w i) + 1 < usize_mod
      → nat_beq (first_leader config) i ≡ true
      → Settles config (set_engine w i g')
  leader-Settles honest room same j =
      let L = first_leader config in
      let is : L ≡ i = (nat_beq_iff L i).0 same in
      let before : (k : ℕ) → CalmEngine (SettledAt (w i)) config k (w k) =
        λ k. subst (λ l. CalmEngine (SettledAt (w l)) config k (w k)) is (calm k) in
      let now : LeaderStep config i (w i) g' =
        Step-LeaderStep config i st honest room
          (subst (λ l. CalmReceipt (SettledAt (w l)) st) is receipt) unmoved (before i) in
      let weaken =
        Settled-Grows (proposals (w i)) (proposals g') (last_used (w i)) (last_used g') now.grows in
      subst (λ l. CalmEngine (SettledAt l) config j (set_engine w i g' j))
        (sym (at_self w i g' L same))
        (set_engine-all (CalmEngine (SettledAt g') config) w i g'
          (λ k. CalmEngine-weaken (SettledAt (w i)) (SettledAt g') weaken config k (w k) (before k))
          now.calm j)

step-Settles :
    {ext : External} {config : Config} {w w' : Engines}
    → config.is_equivocator ≡ false
    → NetworkStep ext config.num_nodes w w'
    → NewViewFree w'
    → Settles config w
    → Settles config w'
step-Settles {config} {w} honest (acts i {g'} st lt room del) free calm =
    let receipt =
      Delivered-Calm (SettledAt (w (first_leader config))) config.num_nodes w st
        (λ k. (calm k).sent) del in
    let unmoved : All NoNewView g'.sent =
      subst (λ g. All NoNewView g.sent) (at_self w i g' i ((nat_beq_iff i i).1 refl)) (free i) in
    elim (Bool-cases (nat_beq (first_leader config) i)) [
      | inl same ↦ leader-Settles config w i g' st calm receipt unmoved honest room same
      | inr other ↦ follower-Settles config w i g' st calm receipt unmoved other
    ]

-- Until a view change completes, each node holds and sends only proposals that the first leader made:
-- the request it proposed first with that sequence number, at most the last number that it used.
pub NetworkReach-Settles :
    {ext : External} {config : Config} {pairs : ℕ → Bytes} {w : Engines}
    → config.is_equivocator ≡ false
    → NetworkReach ext config pairs w
    → NewViewFree w
    → Settles config w
NetworkReach-Settles {config} {pairs} honest here free i =
    start-calm (SettledAt (start (first_leader config) config (pairs (first_leader config)))) config
      (pairs i) i
NetworkReach-Settles honest (next r st) free i =
    step-Settles honest st free
      (NetworkReach-Settles honest r (λ j. sent_before NoNewView st j (free j))) i
