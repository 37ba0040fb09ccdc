-- ===== src/Node/Delivery.antt =====
-- src/node.rs: from one node's engine to another's, through the filter.
use mathlib.Core.Path.{subst}
use p_bft.Base.{ap, ℕ, ◌≡◌, refl, some, List, [], ◌∷◌, All, inl, inr, nat_eq, ◌∙◌, sym}
use p_bft.Collections.BTreeMap.{Bytes}
use p_bft.Collections.HashMap.{get, insert}
use p_bft.Collections.HashMap.Laws.{get-insert_self}
use p_bft.External.{External, SignaturesVerify}
use p_bft.Messages.Message.{Message, client_request_message}
use p_bft.Messages.Command.{
  NodeCommand, send_message, broad_cast_message, ConsensusCommand, process_message,
}
use p_bft.Consensus.Defs.{Consensus, sent}
use p_bft.Consensus.Handle.{handle}
use p_bft.Node.{InnerNode, read_message, learns, passes, identity}
use p_bft.Node.Filter.{read_message-Checked_iff}
use p_bft.Node.Signed.{Own, OwnMessage, Fresh}
use p_bft.Node.Handlers.{handle-Own}

-- the message gets to the engine of the node
abbrev pub Heard : External → InnerNode → NodeCommand → Type 0
Heard ext n (send_message destination m) = read_message ext n m ≡ passes (process_message m)
Heard ext n (broad_cast_message m) = read_message ext n m ≡ passes (process_message m)

-- A public key is read back from its bytes.
abbrev pub KeysReadBack : External → Type 0
KeysReadBack ext =
    (pair : Bytes) → ext.key_from_bytes (ext.public_key pair) ≡ some (ext.public_key pair)

module _ (ext : External) (n : InnerNode) (pair : Bytes) (id : ℕ)
    (known : get n.peer_pub_keys id ≡ some (ext.public_key pair)) where
  OwnMessage-passes :
      (m : Message) → OwnMessage ext pair id m → read_message ext n m ≡ passes (process_message m)
  OwnMessage-passes (client_request_message r) o =
      (read_message-Checked_iff ext n (client_request_message r) _).1 (refl, inl (r, refl))
  OwnMessage-passes m o =
      (read_message-Checked_iff ext n m _).1 (refl, inr (id, ext.public_key pair, o.0, known, o.1))

  All-Heard : (cs : List NodeCommand) → All (Own ext pair id) cs → All (Heard ext n) cs
  All-Heard [] h = tt
  All-Heard (send_message destination m ∷ cs) h = (OwnMessage-passes m h.0, All-Heard cs h.1)
  All-Heard (broad_cast_message m ∷ cs) h = (OwnMessage-passes m h.0, All-Heard cs h.1)

-- A node that reads an identity has the key on record under its id.
abbrev learned : InnerNode → InnerNode → InnerNode
learned n peer = record n { peer_pub_keys = insert n.peer_pub_keys peer.id peer.pub_key }

identity-learns :
    (ext : External) (n peer : InnerNode)
    → ext.key_from_bytes peer.pub_key ≡ some peer.pub_key
    → read_message ext n (identity peer) ≡ learns (learned n peer)
unfolding read_message identity
identity-learns ext n peer h = rw (h, read_message) refl

-- After a node has read another's identity, it lets through to its own engine whatever the other
-- node's engine sends on any command but a rebroadcast. It is assumed that signatures verify under
-- their public keys, that a public key is read back from its bytes, and that the identity names the
-- node's id and the public key of the pair that its engine signs with.
pub handle-Heard :
    (ext : External) (n peer : InnerNode) (e : Consensus) (cmd : ConsensusCommand)
    → SignaturesVerify ext
    → KeysReadBack ext
    → peer.pub_key ≡ ext.public_key e.keypair_bytes
    → peer.id ≡ e.id
    → Fresh cmd
    → (n' : InnerNode) × (read_message ext n (identity peer) ≡ learns n')
      × All (Heard ext n') (sent (handle ext e cmd)).to_node
handle-Heard ext n peer e cmd v k p i f = (
  learned n peer,
  identity-learns ext n peer (ap ext.key_from_bytes p ∙ k e.keypair_bytes ∙ ap some (sym p)),
  All-Heard ext (learned n peer) e.keypair_bytes peer.id
      (get-insert_self n.peer_pub_keys peer.id peer.pub_key ∙ ap some p) _
      (subst (λ x. All (Own ext e.keypair_bytes x) (sent (handle ext e cmd)).to_node) (sym i)
        (handle-Own ext v e cmd f)),
)
