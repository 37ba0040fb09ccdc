-- ===== src/Client.antt =====
-- src/bin/pbft_client.rs: the client. It sends each request to every node, counts the nodes that
-- answer by the request's time stamp, and reports once enough of them did. The tasks share one vote
-- counter behind locks, so one answer is counted at a time.
pub mod Votes
pub mod Session
pub mod Commands
pub mod Arguments
pub mod Numbering
use p_bft.Base.{
  ℕ, Bool, true, false, Option, none, some, List, [], ◌∷◌, nat_eq, pair_eq, ltb, incr, is_some,
  length, if◌then◌else◌, ◌+◌, ◌-◌, ◌/◌,
}
use p_bft.Collections.BTreeMap.{Bytes}
use p_bft.Collections.HashMap
use p_bft.Collections.HashMap.{HashMap}
use p_bft.Collections.HashSet
use p_bft.Collections.HashSet.{HashSet}
use p_bft.External.{SocketAddr}
use p_bft.Main.{num_faulty_of}
use p_bft.Messages.ClientResponse.{ClientResponse}
use p_bft.Messages.Message.{Message, client_request_message, client_response_message}

pub record VoteCertificate : Type 0 where
  pub timestamp : ℕ
  pub votes : List ClientResponse

pub record VoteCounter : Type 0 where
  pub success_vote_quorum : HashMap ℕ (HashSet ℕ)
  pub votes : HashMap (ℕ × ℕ) ClientResponse
  pub vote_threshold : ℕ

-- The counter that `main` makes for a cluster of some size.
abbrev pub new : ℕ → VoteCounter
new num_nodes = record {
  success_vote_quorum = [];
  votes = [];
  vote_threshold = num_faulty_of num_nodes + 1;
}

pub record Client : Type 0 where
  pub peer_addrs : HashMap ℕ SocketAddr
  pub listen_addr : SocketAddr
  pub vote_counter : VoteCounter
  pub timestamp : ℕ

-- `broadcast_message`: what it tries to send, one message to each peer. A peer that cannot be reached is
-- skipped, and a message may be written in part; `send_all` of Node/Wire has what is written.
unfoldable pub broadcast_message : HashMap ℕ SocketAddr → Message → List (SocketAddr × Message)
broadcast_message [] m = []
broadcast_message ((_, addr) ∷ peers) m = (addr, m) ∷ broadcast_message peers m

unfoldable pub issue_set : Client → Bytes → ℕ → Client × List (SocketAddr × Message)
issue_set c key value = (
  record c { timestamp = incr c.timestamp },
  broadcast_message c.peer_addrs (
      client_request_message (record {
        respond_addr = c.listen_addr;
        time_stamp = c.timestamp;
        key = key;
        value = some value;
      })),
)

unfoldable pub issue_get : Client → Bytes → Client × List (SocketAddr × Message)
issue_get c key = (
  record c { timestamp = incr c.timestamp },
  broadcast_message c.peer_addrs (
      client_request_message (record {
        respond_addr = c.listen_addr;
        time_stamp = c.timestamp;
        key = key;
        value = none;
      })),
)

-- The loop that collects the answers of a quorum; `none` is the panic of `unwrap`.
unfoldable pub collect :
    HashMap (ℕ × ℕ) ClientResponse → ℕ → HashSet ℕ → Option (List ClientResponse)
collect votes time_stamp [] = some []
collect votes time_stamp (id ∷ ids) = elim (HashMap.get votes (time_stamp, id)) [
  | none ↦ none
  | some r ↦ elim (collect votes time_stamp ids) [ none ↦ none | some rs ↦ some (r ∷ rs) ]
]

-- What an answer does: the counter after it, and the certificate that is sent, if one is.
pub data Counted : Type 0 where
  counted : VoteCounter → Option VoteCertificate → Counted
  fails : Counted

-- The quorum of a time stamp, made empty if it was not there.
abbrev pub quorum_at : VoteCounter → ℕ → HashSet ℕ
quorum_at w time_stamp = elim (HashMap.get w.success_vote_quorum time_stamp) [
  | some q ↦ q
  | none ↦ []
]

-- The quorum of an answer's time stamp with the node that answered.
abbrev pub new_quorum : VoteCounter → ClientResponse → HashSet ℕ
new_quorum w r = (HashSet.insert (quorum_at w r.time_stamp) r.id).0

-- The counter with one more answer.
abbrev pub with_vote : VoteCounter → ClientResponse → VoteCounter
with_vote w r = record w {
  success_vote_quorum = HashMap.insert w.success_vote_quorum r.time_stamp (new_quorum w r);
  votes = HashMap.insert w.votes (r.time_stamp, r.id) r;
}

-- An answer that reports success.
unfoldable pub count_response : VoteCounter → ClientResponse → Counted
count_response w r =
    let w' = with_vote w r in
    let curr_quorum = new_quorum w r in
    if ltb w.vote_threshold (length curr_quorum)
    then elim (collect w'.votes r.time_stamp curr_quorum) [
      | none ↦ fails
      | some succ_votes ↦
          counted w' (some (record { timestamp = r.time_stamp; votes = succ_votes }))
    ]
    else counted w' none

-- `read_response`, after the line was read and parsed.
unfoldable pub read_response : VoteCounter → Message → Counted
read_response w (client_response_message r) =
    if r.success then count_response w r else counted w none
read_response w m = counted w none

-- What the task that prints certificates does with one: a time stamp that was printed before is
-- passed over, otherwise the value of the first answer is printed; one without answers is a panic.
pub data Reported : Type 0 where
  passed_over : Reported
  prints : HashMap ℕ VoteCertificate → Option ℕ → Reported
  panics : Reported

unfoldable pub report : HashMap ℕ VoteCertificate → VoteCertificate → Reported
report succ_votes c =
    if is_some (HashMap.get succ_votes c.timestamp) then passed_over else elim c.votes [
      | [] ↦ panics
      | r ∷ rs ↦ prints (HashMap.insert succ_votes c.timestamp c) r.value
    ]
