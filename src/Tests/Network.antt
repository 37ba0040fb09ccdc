-- ===== src/Tests/Network.antt =====
-- The network task, and the client's counter.
use p_bft.Base.{
  Option, ℕ, ◌≡◌, ◌↔◌, ◌⊎◌, refl, ap, ◌++◌, some, [], ◌∷◌, All, nat_eq, pair_eq, pair_beq, true,
}
use p_bft.Collections.BTreeMap.{bytes_eq, bytes_beq_iff}
use p_bft.Collections.HashMap.{get}
use p_bft.Collections.HashSet
use p_bft.Collections.HashSet.{HashSet}
use p_bft.External.{SignaturesVerify}
use p_bft.Messages.ClientResponse
use p_bft.Messages.ClientResponse.{ClientResponse}
use p_bft.Messages.Message.{prepare_message, client_response_message}
use p_bft.Messages.Command.{accept_pre_prepare, process_message}
use p_bft.Consensus.Defs.{sent}
use p_bft.Consensus.Handle.{handle}
use p_bft.Node.{InnerNode, read_message, learns, passes, identity}
use p_bft.Node.Filter.{read_message_passes_iff, IsRequest, LetThrough}
use p_bft.Node.Delivery.{handle-Heard, Heard, KeysReadBack}
use p_bft.Client.{VoteCounter, VoteCertificate, counted, read_response}
use p_bft.Client.Votes.{Tallied, Counts}
use p_bft.Client.Session.Counting.{CountsVoter, read_response-CountsVoter}
use p_bft.Tests.World.{plain, cluster, replica, proposal, prepare_of}

-- the network task of a node that knows no keys yet
abbrev node : ℕ → InnerNode
node id = record {
  id = id;
  config = cluster;
  keypair_bytes = id ∷ [];
  pub_key = id ∷ [];
  peer_pub_keys = [];
}

-- node 0, after it has read the identity of node 2
abbrev knows_two : InnerNode
knows_two = record (node 0) { peer_pub_keys = (2, 2 ∷ []) ∷ [] }

read_message_passes_iff_example :
    (read_message plain knows_two (prepare_message (prepare_of 2 1 5))
      ≡ passes (process_message (prepare_message (prepare_of 2 1 5))))
    ↔ ((process_message (prepare_message (prepare_of 2 1 5))
          ≡ process_message (prepare_message (prepare_of 2 1 5)))
        × (IsRequest (prepare_message (prepare_of 2 1 5))
            ⊎ LetThrough plain knows_two (prepare_message (prepare_of 2 1 5))))
read_message_passes_iff_example =
    read_message_passes_iff plain knows_two (prepare_message (prepare_of 2 1 5))
      (process_message (prepare_message (prepare_of 2 1 5)))

signatures_verify : SignaturesVerify plain
signatures_verify pair fed = ap some ((bytes_beq_iff (pair ++ fed) (pair ++ fed)).1 refl)

keys_read_back : KeysReadBack plain
keys_read_back pair = refl

handle-Heard_example :
    (n' : InnerNode) × (read_message plain (node 0) (identity (node 2)) ≡ learns n')
    × All
        (Heard plain n')
        (sent (handle plain (replica 2) (accept_pre_prepare (proposal 1 5)))).to_node
handle-Heard_example =
    handle-Heard plain (node 0) (node 2) (replica 2) (accept_pre_prepare (proposal 1 5))
      signatures_verify keys_read_back refl refl tt

abbrev response : ℕ → ℕ → ClientResponse
response id value =
    ClientResponse.new_with_signature plain (id ∷ []) id 7 (b'x' ∷ []) (some value) true

-- a client of four nodes that nodes 0 and 1 have answered
abbrev answered : VoteCounter
answered = record {
  success_vote_quorum = (7, 0 ∷ 1 ∷ []) ∷ [];
  votes = ((7, 0), response 0 5) ∷ ((7, 1), response 1 5) ∷ [];
  vote_threshold = 2;
}

answered-Tallied : Tallied answered
unfolding p_bft.Collections.HashSet.Laws.IsDistinct HashSet.contains get pair_beq
    ClientResponse.new_with_signature
answered-Tallied = record {
  quorums = (((refl, (refl, tt)), (refl, (refl, tt))), tt);
  filed = ((refl, refl), ((refl, refl), tt));
}

read_response-CountsVoter_example :
    let m = client_response_message (response 2 6) in
    (w : VoteCounter) × (c : Option VoteCertificate) × (read_response answered m ≡ counted w c)
    × CountsVoter answered m w
    × Counts 2 (counted w c)
read_response-CountsVoter_example =
    read_response-CountsVoter answered (client_response_message (response 2 6)) answered-Tallied
