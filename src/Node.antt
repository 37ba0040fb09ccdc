-- ===== src/Node.antt =====
-- src/node.rs: the network task. It keeps the peers' public keys, lets through to the engine what a
-- known key signed, and sends what the engine asks for. A message is what `serde_json` reads from the
-- line received; whether a connection succeeds is not modelled.
pub mod Filter
pub mod Signed
pub mod Handlers
pub mod Delivery
pub mod Wire
pub mod Task
use p_bft.Base.{ℕ, Bool, true, false, not, Option, none, some, List, [], ◌∷◌, nat_eq, if◌then◌else◌}
use p_bft.Collections.BTreeMap.{Bytes}
use p_bft.Collections.HashMap
use p_bft.Collections.HashMap.{HashMap}
use p_bft.External.{External, SocketAddr}
use p_bft.Config.{Config}
use p_bft.Messages.Message.{
  Identifier, Message, identifier_message, client_request_message, get_id, is_properly_signed_by,
}
use p_bft.Messages.Command.{
  NodeCommand, send_message, broad_cast_message, ConsensusCommand, process_message,
}

pub record InnerNode : Type 0 where
  pub id : ℕ
  pub config : Config
  pub keypair_bytes : Bytes
  pub pub_key : Bytes
  pub peer_pub_keys : HashMap ℕ Bytes

-- `Node::new`, without the socket and the channels; `none` if the node has no address.
unfoldable pub new : ℕ → Config → Bytes → Bytes → Option InnerNode
new id config pair key = elim (HashMap.get config.peer_addrs id) [
  | none ↦ none
  | some addr_me ↦
      some (record {
        id = id;
        config = config;
        keypair_bytes = pair;
        pub_key = key;
        peer_pub_keys = [];
      })
]

-- The part of `should_drop` after the test for client requests; `none` is a panic.
unfoldable pub drop_unsigned : External → InnerNode → Message → Option Bool
drop_unsigned ext n m = elim (get_id m) [
  | none ↦ none
  | some peer_id ↦ elim (HashMap.get n.peer_pub_keys peer_id) [
    | none ↦ some true
    | some peer_pub_key ↦ elim (is_properly_signed_by ext m peer_pub_key) [
      | none ↦ none
      | some signed ↦ if not signed then some true else some false
    ]
  ]
]

unfoldable pub should_drop : External → InnerNode → Message → Option Bool
should_drop ext n (client_request_message r) = some false
should_drop ext n m = drop_unsigned ext n m

-- What the task for a connection does with the message read.
pub data Reading : Type 0 where
  learns : InnerNode → Reading
  drops : Reading
  passes : ConsensusCommand → Reading
  dies : Reading

-- The end of `read_message`, with the answer of `should_drop`.
unfoldable pub forward : Option Bool → Message → Reading
forward none m = dies
forward (some true) m = drops
forward (some false) m = passes (process_message m)

-- `read_message`, after the line was read and parsed.
unfoldable pub read_message : External → InnerNode → Message → Reading
read_message ext n (identifier_message i) = elim (ext.key_from_bytes i.pub_key_vec) [
  | none ↦ dies
  | some key ↦ learns (record n { peer_pub_keys = HashMap.insert n.peer_pub_keys i.id key })
]
read_message ext n m = forward (should_drop ext n m) m

-- `broadcast`: the message goes to each peer, the node itself among them.
unfoldable pub broadcast : HashMap ℕ SocketAddr → Message → List (SocketAddr × Message)
broadcast [] m = []
broadcast ((_, peer_addr) ∷ peers) m = (peer_addr, m) ∷ broadcast peers m

-- What the loop of `spawn` sends for a command of the engine.
unfoldable pub on_command : InnerNode → NodeCommand → List (SocketAddr × Message)
on_command n (send_message destination m) = (destination, m) ∷ []
on_command n (broad_cast_message m) = broadcast n.config.peer_addrs m

-- The message that the identity task broadcasts again and again.
unfoldable pub identity : InnerNode → Message
identity n = identifier_message (record { id = n.id; pub_key_vec = n.pub_key })
