-- ===== src/Network/Prints.antt =====
-- src/bin/pbft_client.rs: what a client prints, against the requests that the cluster's leader proposed.
use mathlib.Core.Path.{subst}
use p_bft.Base.{ℕ, ◌<◌, ◌≡◌, false, Option, some, List, [], ◌∷◌, suc, All}
use p_bft.Collections.BTreeMap.{Bytes}
use p_bft.External.{External}
use p_bft.Config.{Config}
use p_bft.Messages.Message.{
  Message, identifier_message, pre_prepare_message, prepare_message, commit_message,
  view_change_message, new_view_message, check_point_message, client_request_message,
  client_response_message,
}
use p_bft.Engine.{Engine}
use p_bft.Client.Session.{Session, started, on_answers}
use p_bft.Client.Session.Prints.{prints_exactly}
use p_bft.Client.Session.Told.{AnswerOf, ToldAfter, on_answers-Told}
use p_bft.Replication.Agreed.{Decided}
use p_bft.Network.{message_of, Carries, Engines, NetworkReach}
use p_bft.Network.Agreement.{NewViewFree}
use p_bft.Network.Checkpoints.{answer_of}
use p_bft.Network.Engines.{first_leader}
use p_bft.Network.Growth.{proposals}
use p_bft.Network.Induction.{Carries-All}
use p_bft.Network.Stores.{AnswerSent, answers_follow_leader}

-- A node sent the message.
abbrev pub SentByNode : Engines → Message → Type 0
SentByNode w m = (i : ℕ) × Carries m (w i).sent

-- The value is the right answer to a decided request with the time stamp.
abbrev pub IsAnswer : Decided → ℕ → ℕ → Option ℕ → Type 0
IsAnswer decided top time_stamp value =
    (n : ℕ) × (n < top)
    × (time_stamp ≡ (decided (suc n)).time_stamp)
    × (value ≡ answer_of decided n)

AnswerSent-AnswerOf :
    (decided : Decided) (top : ℕ) (m : Message)
    → AnswerSent decided top m
    → AnswerOf (IsAnswer decided top) m
AnswerSent-AnswerOf decided top (client_response_message a) (n, low, t, k, v) = (n, low, t, v)
AnswerSent-AnswerOf decided top (identifier_message a) h = tt
AnswerSent-AnswerOf decided top (pre_prepare_message a) h = tt
AnswerSent-AnswerOf decided top (prepare_message a) h = tt
AnswerSent-AnswerOf decided top (commit_message a) h = tt
AnswerSent-AnswerOf decided top (view_change_message a) h = tt
AnswerSent-AnswerOf decided top (new_view_message a) h = tt
AnswerSent-AnswerOf decided top (check_point_message a) h = tt
AnswerSent-AnswerOf decided top (client_request_message a) h = tt

-- The value is the right answer to a request with the time stamp that the leader proposed.
abbrev pub Answers : Engine → ℕ → Option ℕ → Type 0
Answers leader = IsAnswer (proposals leader) leader.consensus.state.seq_num

SentByNode-AnswerOf :
    {ext : External} {config : Config} {pairs : ℕ → Bytes} {w : Engines}
    → config.is_equivocator ≡ false
    → NetworkReach ext config pairs w
    → NewViewFree w
    → (ms : List Message) → All (SentByNode w) ms
    → All (AnswerOf (Answers (w (first_leader config)))) ms
SentByNode-AnswerOf honest r free [] h = tt
SentByNode-AnswerOf {config} {w} honest r free (m ∷ ms) ((i, sent), h) =
    let leader = w (first_leader config) in
    let decided = proposals leader in
    let top = leader.consensus.state.seq_num in
    (
      AnswerSent-AnswerOf decided top m (
          Carries-All (λ c. AnswerSent decided top (message_of c)) (AnswerSent decided top)
            (λ c a. a) m (w i).sent sent (answers_follow_leader honest r free i)),
      SentByNode-AnswerOf honest r free ms h,
    )

-- Until a view change completes, what a client prints is right: if the messages that it reads are ones
-- that nodes sent, it does not panic on them, and each line that it prints has the time stamp of a
-- request that the first leader proposed, and the value that this request gets in the leader's order,
-- which is that of the last request before it to write the key for a read, none if there was none, and
-- none for a write. No node is an equivocator, and sequence numbers stay below the top of their type.
pub prints_follow_leader :
    {ext : External} {config : Config} {pairs : ℕ → Bytes} {w : Engines}
    → config.is_equivocator ≡ false
    → NetworkReach ext config pairs w
    → NewViewFree w
    → (ms : List Message) → All (SentByNode w) ms
    → (s : Session) × (on_answers (started config.num_nodes) ms ≡ some s)
      × All (λ line. Answers (w (first_leader config)) line.0 line.1) s.printed
prints_follow_leader {config} {w} honest r free ms sent =
    let (s, h, _, _) = prints_exactly config.num_nodes ms in
    let told =
      on_answers-Told (Answers (w (first_leader config))) (started config.num_nodes) ms
        (record { filed = tt; printed = tt }) (SentByNode-AnswerOf honest r free ms sent) in
    (s, h, (subst (ToldAfter (Answers (w (first_leader config)))) h told).printed)
