-- ===== src/Main/Peers.antt =====
-- src/bin/pbft_node.rs: the cluster that `main` sets up, and the engine in it.
use p_bft.Base.{
  ℕ, zero, suc, ◌+◌, ◌*◌, ◌≡◌, ◌≢◌, ◌≤◌, ◌<◌, ◌⊎◌, inl, inr, true, Option, some, is_some, List, [],
  ◌∷◌, arith, nat_eq, nat_beq_iff, Option-cases,
}
use p_bft.Collections.BTreeMap.{Bytes}
use p_bft.Collections.HashMap.{HashMap, get, insert}
use p_bft.Collections.HashMap.Laws.{get-insert}
use p_bft.External.{External, SocketAddr}
use p_bft.Config.{Config}
use p_bft.Engine.{Engine, crashed, round}
use p_bft.Engine.Reach.{Reach}
use p_bft.Engine.Safety.{HasPeers, reachable-ne-crashed}
use p_bft.Main.{peers_from, num_faulty_of, finish, node_config}

-- The loop gives an address to each id from `id` on, and keeps those given before.
peers_from-is_some :
    (from_str : Bytes → Option SocketAddr) (count id : ℕ) (args : List Bytes)
    (acc peers : HashMap ℕ SocketAddr) (rest : List Bytes)
    → peers_from from_str count id args acc ≡ some (peers, rest)
    → (i : ℕ) → ((id ≤ i) × (i < id + count)) ⊎ (is_some (get acc i) ≡ true)
    → is_some (get peers i) ≡ true
unfolding peers_from
peers_from-is_some from_str zero id args acc peers rest h i (inl r) =
    absurd (omega (arith, r.0, r.1))
peers_from-is_some from_str zero id args acc peers rest h i (inr k) = cc
peers_from-is_some from_str (suc count) id [] acc peers rest h i k = absurd (cc)
peers_from-is_some from_str (suc count) id (arg ∷ args) acc peers rest h i k =
    elim (Option-cases (from_str arg)) [
      | inl n ↦ absurd (cc (rw (n, peers_from) at h))
      | inr (addr, a) ↦
          peers_from-is_some from_str count (suc id) args (insert acc id addr) peers rest
            (rw (a, peers_from) at h) i (ground (arith, get-insert acc id i addr, nat_beq_iff id i))
    ]

-- what `main` makes of a cluster's size
abbrev pub ClusterOf : Config → Type 0
ClusterOf config =
    HasPeers config
    × (0 < config.checkpoint_frequency)
    × (3 * config.num_faulty + 1 ≤ config.num_nodes)
    × (config.num_nodes ≤ 3 * config.num_faulty + 3)

finish_parts :
    (parse : Bytes → Option ℕ) (n : ℕ) (peers : HashMap ℕ SocketAddr) (args : List Bytes) (id : ℕ)
    (config : Config)
    → finish parse n peers args ≡ some (id, config)
    → (config.num_nodes ≡ n)
      × (config.num_faulty ≡ num_faulty_of n)
      × (config.peer_addrs ≡ peers)
      × (0 < config.checkpoint_frequency)
unfolding finish
finish_parts parse n peers [] id config h = absurd (cc)
finish_parts parse n peers (arg ∷ args) id config h =
    (ground arith, ground arith, ground arith, ground arith)

num_faulty_of_bounds :
    (n : ℕ) → 0 < n → (3 * num_faulty_of n + 1 ≤ n) × (n ≤ 3 * num_faulty_of n + 3)
unfolding num_faulty_of
num_faulty_of_bounds n h = (ground arith, ground arith)

-- If the arguments are for one node or more, the configuration that `main` makes of them gives each node
-- of the cluster an address, has a checkpoint frequency above 0, and counts as faulty the largest number
-- of nodes that is less than a third. (For zero nodes, `num_nodes - 1` wraps around in a release build.)
pub node_config-ClusterOf :
    (parse : Bytes → Option ℕ) (from_str : Bytes → Option SocketAddr) (args : List Bytes) (id : ℕ)
    (config : Config)
    → node_config parse from_str args ≡ some (id, config)
    → 0 < config.num_nodes
    → ClusterOf config
unfolding node_config num_faulty_of
node_config-ClusterOf parse from_str [] id config h some_node = absurd (cc)
node_config-ClusterOf parse from_str (arg ∷ args) id config h some_node =
    elim (Option-cases (parse arg)) [
      | inl k ↦ absurd (cc (rw (k, node_config) at h))
      | inr (n, k) ↦ elim (Option-cases (peers_from from_str n 0 args [])) [
        | inl q ↦ absurd (cc (rw (k, q, node_config) at h))
        | inr ((peers, rest), q) ↦
            let (nodes, faulty, addrs, often) =
              finish_parts parse n peers rest id config (rw (k, q, node_config) at h) in
            (
              (
                some_node,
                λ i below. rw addrs (
                    peers_from-is_some from_str n 0 args [] peers rest q i
                      (inl (omega arith, omega (arith, nodes)))),
              ),
              often,
              omega (arith, nodes, faulty, (num_faulty_of_bounds n (omega arith)).0),
              omega (arith, nodes, faulty, (num_faulty_of_bounds n (omega arith)).1),
            )
      ]
    ]

-- No engine that `main` starts on a cluster of one node or more panics in any state that it can reach
-- while the last applied sequence number is below the top of its type.
pub main-ne-crashed :
    (ext : External) (parse : Bytes → Option ℕ) (from_str : Bytes → Option SocketAddr)
    (args : List Bytes) (id : ℕ) (config : Config) (pair : Bytes) (g : Engine)
    → node_config parse from_str args ≡ some (id, config)
    → 0 < config.num_nodes
    → Reach ext id config pair g
    → round ext g ≢ crashed
main-ne-crashed ext parse from_str args id config pair g h some_node r =
    let (peers, often, _, _) = node_config-ClusterOf parse from_str args id config h some_node in
    reachable-ne-crashed peers often r
