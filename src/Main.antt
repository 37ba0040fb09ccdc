-- ===== src/Main.antt =====
-- src/bin/pbft_node.rs, `main`: from a node's arguments to its id and the configuration that its
-- network task and its engine share. `none` is a panic: an argument that is not there, or one that
-- does not parse. How text is read as a number or as an address is a parameter.
pub mod Peers
pub mod Program
use p_bft.Base.{
  ℕ, zero, suc, ◌-◌, ◌/◌, Bool, true, false, Option, none, some, List, [], ◌∷◌, nat_eq, nat_beq,
  if◌then◌else◌, usize_mod,
}
use p_bft.Collections.BTreeMap.{Bytes, bytes_beq}
use p_bft.Collections.HashMap
use p_bft.Collections.HashMap.{HashMap}
use p_bft.External.{SocketAddr}
use p_bft.Config.{Config}

-- The loop over `0..num_nodes`: the peers, and the arguments left.
unfoldable pub peers_from :
    (Bytes → Option SocketAddr)
    → ℕ
    → ℕ
    → List Bytes
    → HashMap ℕ SocketAddr
    → Option (HashMap ℕ SocketAddr × List Bytes)
peers_from from_str zero id args peer_addrs = some (peer_addrs, args)
peers_from from_str (suc count) id [] peer_addrs = none
peers_from from_str (suc count) id (arg ∷ args) peer_addrs = elim (from_str arg) [
  | none ↦ none
  | some addr ↦ peers_from from_str count (suc id) args (HashMap.insert peer_addrs id addr)
]

-- `(num_nodes - 1) / 3`, which wraps around at 0
unfoldable pub num_faulty_of : ℕ → ℕ
num_faulty_of num_nodes = (if nat_beq num_nodes 0 then usize_mod - 1 else num_nodes - 1) / 3

-- The flag for a node that plays the equivocator.
abbrev pub is_byzantine : List Bytes → Bool
is_byzantine [] = false
is_byzantine (byzantine_flag ∷ args) = bytes_beq byzantine_flag (b'b' ∷ [])

-- After the peers: the node's own id, and the flag.
unfoldable pub finish :
    (Bytes → Option ℕ) → ℕ → HashMap ℕ SocketAddr → List Bytes → Option (ℕ × Config)
finish parse num_nodes peer_addrs [] = none
finish parse num_nodes peer_addrs (arg ∷ args) = elim (parse arg) [
  | none ↦ none
  | some id ↦ some (
    id,
    record {
      num_nodes = num_nodes;
      num_faulty = num_faulty_of num_nodes;
      peer_addrs = peer_addrs;
      checkpoint_frequency = 10;
      is_equivocator = is_byzantine args;
    },
  )
]

-- The arguments are those after the program's name.
unfoldable pub node_config :
    (Bytes → Option ℕ) → (Bytes → Option SocketAddr) → List Bytes → Option (ℕ × Config)
node_config parse from_str [] = none
node_config parse from_str (arg ∷ args) = elim (parse arg) [
  | none ↦ none
  | some num_nodes ↦ elim (peers_from from_str num_nodes 0 args []) [
    | none ↦ none
    | some (peer_addrs, rest) ↦ finish parse num_nodes peer_addrs rest
  ]
]
