-- ===== src/Network/Stores.antt =====
-- The cluster while no view change completes: every replica's store is that after the requests that
-- the leader proposed, one after the other.
use mathlib.Core.Path.{subst}
use p_bft.Base.{◌≤◌, ℕ, ◌≡◌, sym, false, All, All-append, inl, inr}
use p_bft.Collections.BTreeMap.{Bytes}
use p_bft.External.{External}
use p_bft.Config.{Config}
use p_bft.Messages.Message.{
  Message, identifier_message, pre_prepare_message, prepare_message, commit_message,
  view_change_message, new_view_message, check_point_message, client_request_message,
  client_response_message,
}
use p_bft.Messages.Command.{NodeCommand, send_message, broad_cast_message}
use p_bft.Engine.{Engine}
use p_bft.Engine.Safety.{round_cases}
use p_bft.Engine.Reach.{Step, handles, receives, expires, fires}
use p_bft.Replication.Agreed.{Decided, HonestMessage, replay}
use p_bft.Replication.Cluster.{HonestStep, Follows, Step-Follows, start-Follows}
use p_bft.Network.{message_of, Engines, Delivered, NetworkReach}
use p_bft.Network.Calm.Defs.{CalmSent}
use p_bft.Network.Engines.{first_leader, deliver_sent, CalmSent-weaken}
use p_bft.Network.Growth.{Settled, proposals, last_used}
use p_bft.Network.Validity.{Bounded, LowProposal, Step-Bounded, start-Bounded}
use p_bft.Network.Checkpoints.{AnswersDecided, HonestNews, HonestSent, handle-HonestSent}
use p_bft.Network.Agreement.{NewViewFree, NetworkReach-Settles}
use p_bft.Network.Induction.{NetworkReach-induct, Carries-All}
use p_bft.Network.Proposals.{All-weaken, All-pair}

-- The replica follows what was decided up to `top`, and so do the checkpoints and answers that it sent.
record Faithful (decided : Decided) (top : ℕ) (g : Engine) : Type 0 where
  follows : Follows decided g
  bounded : Bounded top g
  news : All (HonestSent decided top) g.sent

module _ (decided : Decided) (top : ℕ) where
  -- A message that agrees with what was decided, if it is a proposal, and if it is a checkpoint.
  HonestMessage-join :
      (c : NodeCommand)
      → CalmSent (Settled decided top) c
      → HonestSent decided top c
      → HonestMessage decided (message_of c)
  HonestMessage-join (send_message d (pre_prepare_message p)) a b = a.0
  HonestMessage-join (send_message d (check_point_message c)) a b = b
  HonestMessage-join (send_message d m) a b = tt
  HonestMessage-join (broad_cast_message (pre_prepare_message p)) a b = a.0
  HonestMessage-join (broad_cast_message (check_point_message c)) a b = b
  HonestMessage-join (broad_cast_message m) a b = tt

  Delivered-Honest :
      {ext : External} {g g' : Engine} (nodes : ℕ) (w : Engines) (st : Step ext g g')
      → ((j : ℕ) → All (CalmSent (Settled decided top)) (w j).sent)
      → ((j : ℕ) → Faithful decided top (w j))
      → Delivered nodes w st
      → HonestStep decided st
  Delivered-Honest nodes w (receives m p room) a b (inl (r, is)) =
      subst (HonestMessage decided) (sym is) tt
  Delivered-Honest nodes w (receives m p room) a b (inr (j, lt, from)) =
      Carries-All (λ c. CalmSent (Settled decided top) c × HonestSent decided top c)
        (HonestMessage decided) (λ c h. HonestMessage-join c h.0 h.1) m (w j).sent from
        (All-pair (CalmSent (Settled decided top)) (HonestSent decided top) (w j).sent (a j)
          (b j).news)
  Delivered-Honest nodes w (handles b h) a c d = tt
  Delivered-Honest nodes w (expires before later t e f) a b d = tt
  Delivered-Honest nodes w (fires before later t cmd e f room) a b d = tt

  -- The checkpoints that a step adds.
  Step-news :
      {ext : External} {g g' : Engine}
      → Step ext g g'
      → Faithful decided top g
      → All (HonestSent decided top) g'.sent
  Step-news {ext} {g} {g'} (handles b h) f =
      let (cmd, rest, e, fx, q, o, d) = round_cases ext g g' h in
      let told : All (HonestSent decided top) fx.to_node =
        rw o at
          (handle-HonestSent decided top ext g.consensus cmd b f.bounded.state f.follows.state) in
      rw ((deliver_sent g g' rest e fx d).2)
        (All-append (HonestSent decided top) g.sent fx.to_node f.news told)
  Step-news (receives m p room) f = f.news
  Step-news (expires before later t e h) f = f.news
  Step-news (fires before later t cmd e h room) f = f.news

  NetworkReach-Faithful :
      {ext : External} {config : Config} {pairs : ℕ → Bytes} {w : Engines}
      → NetworkReach ext config pairs w
      → ((i : ℕ) → All (CalmSent (Settled decided top)) (w i).sent)
      → (i : ℕ) → Faithful decided top (w i)
  NetworkReach-Faithful {ext} {config} {pairs} r agree =
      NetworkReach-induct (Faithful decided top) (CalmSent (Settled decided top))
        (λ i. record {
          follows = start-Follows decided i config (pairs i);
          bounded = start-Bounded top i config (pairs i);
          news = tt;
        })
        (λ w i g' st all before del. record {
          follows =
              Step-Follows decided st (Delivered-Honest config.num_nodes w st all before del)
                (before i).follows;
          bounded =
              Step-Bounded top config.num_nodes w i g' st
                (λ j.
                  All-weaken (CalmSent (Settled decided top)) (CalmSent (LowProposal top))
                    (CalmSent-weaken (Settled decided top) (LowProposal top) (λ p s. s.1))
                    (w j).sent (all j))
                (λ j. (before j).bounded) del;
          news = Step-news st (before i);
        })
        r agree

-- Every node, with the leader's proposals for what was decided.
leader-Faithful :
    {ext : External} {config : Config} {pairs : ℕ → Bytes} {w : Engines}
    → config.is_equivocator ≡ false
    → NetworkReach ext config pairs w
    → NewViewFree w
    → let leader = w (first_leader config) in
      (i : ℕ) → Faithful (proposals leader) (last_used leader) (w i)
leader-Faithful {config} {w} honest r free =
    let leader = w (first_leader config) in
    NetworkReach-Faithful (proposals leader) (last_used leader) r
      (λ j. (NetworkReach-Settles honest r free j).sent)

-- Until a view change completes, the store of every node of a cluster is that after the requests that
-- the first leader proposed, in the order of their sequence numbers, up to the node's last applied one:
-- whatever requests clients send, which messages between the nodes are lost, late or repeated, when
-- timers run out, and which nodes stop. No node is an equivocator, and sequence numbers stay below the
-- top of their type.
pub stores_follow_leader :
    {ext : External} {config : Config} {pairs : ℕ → Bytes} {w : Engines}
    → config.is_equivocator ≡ false
    → NetworkReach ext config pairs w
    → NewViewFree w
    → (i : ℕ)
    → (w i).consensus.state.store
      ≡ replay (proposals (w (first_leader config))) (w i).consensus.state.last_seq_num_committed
stores_follow_leader honest r free i = (leader-Faithful honest r free i).follows.state.store

-- Until a view change completes, no node gets ahead of the leader: the last sequence number that it
-- applied is at most the last one that the first leader used. No node is an equivocator, and sequence
-- numbers stay below the top of their type.
pub applied-le-proposed :
    {ext : External} {config : Config} {pairs : ℕ → Bytes} {w : Engines}
    → config.is_equivocator ≡ false
    → NetworkReach ext config pairs w
    → NewViewFree w
    → (i : ℕ)
    → (w i).consensus.state.last_seq_num_committed
      ≤ (w (first_leader config)).consensus.state.seq_num
applied-le-proposed honest r free i = (leader-Faithful honest r free i).bounded.state.applied

-- What a client is told.
abbrev pub AnswerSent : Decided → ℕ → Message → Type 0
AnswerSent decided top (client_response_message a) = AnswersDecided decided top a
AnswerSent decided top _ = Unit {0}

-- Until a view change completes, every answer that a node sends is right: it is to a request that the
-- first leader proposed, with its time stamp and key, and gives a read the value that the last request
-- before it in the leader's order to write the key wrote, none if there was none, and a write nothing.
-- No node is an equivocator, and sequence numbers stay below the top of their type.
pub answers_follow_leader :
    {ext : External} {config : Config} {pairs : ℕ → Bytes} {w : Engines}
    → config.is_equivocator ≡ false
    → NetworkReach ext config pairs w
    → NewViewFree w
    → (i : ℕ)
    → let leader = w (first_leader config) in
      All
        (λ c. AnswerSent (proposals leader) leader.consensus.state.seq_num (message_of c))
        (w i).sent
answers_follow_leader {config} {w} honest r free i =
    let leader = w (first_leader config) in
    All-weaken (HonestSent (proposals leader) (last_used leader))
      (λ c. AnswerSent (proposals leader) (last_used leader) (message_of c))
      (λ c h. answer (proposals leader) (last_used leader) (message_of c) h) (w i).sent
      (leader-Faithful honest r free i).news
  where
    answer :
        (decided : Decided) (top : ℕ) (m : Message)
        → HonestNews decided top m
        → AnswerSent decided top m
    answer decided top (client_response_message a) h = h
    answer decided top (identifier_message a) h = tt
    answer decided top (pre_prepare_message a) h = tt
    answer decided top (prepare_message a) h = tt
    answer decided top (commit_message a) h = tt
    answer decided top (view_change_message a) h = tt
    answer decided top (new_view_message a) h = tt
    answer decided top (check_point_message a) h = tt
    answer decided top (client_request_message a) h = tt
