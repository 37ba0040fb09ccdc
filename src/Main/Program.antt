-- ===== src/Main/Program.antt =====
-- src/bin/pbft_node.rs, `main`: the node that is started, with its network task and its engine. The key
-- pair is the one that `Keypair::generate` made.
use p_bft.Base.{
  ℕ, ◌≡◌, ap, true, Option, none, some, is_some, List, arith, nat_eq, Option-cases, inl, inr,
}
use p_bft.Collections.BTreeMap.{Bytes}
use p_bft.Collections.HashMap
use p_bft.External.{External, SocketAddr}
use p_bft.Config.{Config}
use p_bft.Engine.{Engine, start}
use p_bft.Node
use p_bft.Node.{InnerNode}
use p_bft.Main.{node_config}

-- From the configuration on; `none` is a panic of `Node::new`.
unfoldable pub start_node : External → Bytes → ℕ → Config → Option (InnerNode × Engine)
start_node ext keypair id config = elim (Node.new id config keypair (ext.public_key keypair)) [
  | none ↦ none
  | some n ↦ some (n, start id config keypair)
]

unfoldable pub main :
    External
    → (Bytes → Option ℕ)
    → (Bytes → Option SocketAddr)
    → Bytes
    → List Bytes
    → Option (InnerNode × Engine)
main ext parse from_str keypair args = elim (node_config parse from_str args) [
  | none ↦ none
  | some (id, config) ↦ start_node ext keypair id config
]

-- The network task and the engine of a node that `main` starts have the same id and the same key
-- pair, and the node has an address.
main-Shares :
    (ext : External) (parse : Bytes → Option ℕ) (from_str : Bytes → Option SocketAddr)
    (keypair : Bytes) (args : List Bytes) (n : InnerNode) (g : Engine)
    → main ext parse from_str keypair args ≡ some (n, g)
    → (n.id ≡ g.consensus.id)
      × (n.pub_key ≡ ext.public_key g.consensus.keypair_bytes)
      × (n.config ≡ g.consensus.config)
      × (is_some (HashMap.get n.config.peer_addrs n.id) ≡ true)
unfolding main start_node Node.new
main-Shares ext parse from_str keypair args n g h =
    elim (Option-cases (node_config parse from_str args)) [
      | inl none_ ↦ absurd (cc (rw (none_, main) at h))
      | inr ((id, config), c) ↦ elim (Option-cases (HashMap.get config.peer_addrs id)) [
        | inl missing ↦ absurd (cc (rw (c, main, start_node, Node.new, missing) at h))
        | inr (addr, a) ↦
            let k = rw (c, main, start_node, Node.new, a) at h in
            (ground arith, ground arith, ground arith, ground (arith, ap is_some a))
      ]
    ]
