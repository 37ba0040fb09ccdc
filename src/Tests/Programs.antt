-- ===== src/Tests/Programs.antt =====
-- The two programs from their arguments on, and the network task at work.
use p_bft.Base.{◌≡◌, ◌≢◌, refl, none, some, List, [], ◌∷◌, arith, nat_eq, false}
use p_bft.Collections.BTreeMap.{Bytes}
use p_bft.Collections.HashMap
use p_bft.Config.{Config}
use p_bft.External.{text}
use p_bft.Engine.{start, round, crashed}
use p_bft.Engine.Reach.{here}
use p_bft.Main.{node_config}
use p_bft.Main.Peers.{node_config-ClusterOf, main-ne-crashed, ClusterOf}
use p_bft.Main.Program.{start_node, main}
use p_bft.Client.{new}
use p_bft.Client.Arguments.{client_of, finish_client, mode_of, test}
use p_bft.Tests.World.{plain, addr, digit, any_addr}

-- one node, alone in its cluster
abbrev arguments : List Bytes
arguments = (b'1' ∷ []) ∷ (b'a' ∷ []) ∷ (b'0' ∷ []) ∷ []

abbrev alone : Config
alone = record {
  num_nodes = 1;
  num_faulty = 0;
  peer_addrs = (0, addr 8000) ∷ [];
  checkpoint_frequency = 10;
  is_equivocator = false;
}

alone_config : node_config digit any_addr arguments ≡ some (0, alone)
unfolding node_config p_bft.Main.peers_from p_bft.Main.finish p_bft.Main.num_faulty_of
    HashMap.insert
alone_config = refl

node_config-ClusterOf_example : ClusterOf alone
node_config-ClusterOf_example =
    node_config-ClusterOf digit any_addr arguments 0 alone alone_config (omega arith)

main-ne-crashed_example : round plain (start 0 alone (0 ∷ [])) ≢ crashed
main-ne-crashed_example =
    main-ne-crashed plain digit any_addr arguments 0 alone (0 ∷ []) (start 0 alone (0 ∷ []))
      alone_config (omega arith) here

started_node :
    main plain digit any_addr (7 ∷ []) arguments
    ≡ some (
      record {
        id = 0;
        config = alone;
        keypair_bytes = 7 ∷ [];
        pub_key = plain.public_key (7 ∷ []);
        peer_pub_keys = [];
      },
      start 0 alone (7 ∷ []),
    )
unfolding main start_node node_config p_bft.Main.peers_from p_bft.Main.finish
    p_bft.Main.num_faulty_of p_bft.Node.new HashMap.insert HashMap.get
started_node = refl

-- A client of one node in the test mode, with a pause of five; without the pause it panics.
client_tests :
    client_of digit any_addr (text "1" ∷ text "a" ∷ text "b" ∷ text "test" ∷ text "5" ∷ [])
    ≡ some (
      record {
        peer_addrs = (0, addr 8000) ∷ [];
        listen_addr = addr 8000;
        vote_counter = new 1;
        timestamp = 0;
      },
      test 5,
    )
unfolding client_of finish_client mode_of p_bft.Main.peers_from HashMap.insert
    p_bft.Collections.BTreeMap.bytes_beq p_bft.Collections.BTreeMap.compare_bytes
client_tests = refl

client_no_pause :
    client_of digit any_addr (text "1" ∷ text "a" ∷ text "b" ∷ text "test" ∷ []) ≡ none
unfolding client_of finish_client mode_of p_bft.Main.peers_from HashMap.insert
    p_bft.Collections.BTreeMap.bytes_beq p_bft.Collections.BTreeMap.compare_bytes
client_no_pause = refl
