-- ===== src/Tests/Lines.antt =====
-- Messages as bytes on a connection, where one of two peers cannot be reached.
use p_bft.Base.{
  ◌≡◌, refl, none, some, [], ◌∷◌, Has, inl, inr, arith, nat_eq, nat_beq, if◌then◌else◌,
}
use p_bft.Collections.HashSet.{contains}
use p_bft.Collections.BTreeMap.{Bytes}
use p_bft.Messages.Message.{Message, prepare_message}
use p_bft.Messages.Command.{broad_cast_message}
use p_bft.Node.{InnerNode, read_message}
use p_bft.Node.Wire.{Json, Link, serialize, write_command, read_connection}
use p_bft.Node.Wire.Lines.{broadcast-ReadsBack}
use p_bft.Tests.World.{plain, cluster, prepare_of, addr}

abbrev vote : Message
vote = prepare_message (prepare_of 2 1 5)

-- A stand-in for the JSON text: it knows one message.
abbrev json : Json
json = record { to_string = λ m. b'{' ∷ b'}' ∷ []; from_str = λ bytes. some vote }

-- node 0 refuses the connection
abbrev link : Link
link a = if nat_beq a.port 8000 then none else some 3

abbrev sender : InnerNode
sender = record {
  id = 2;
  config = cluster;
  keypair_bytes = 2 ∷ [];
  pub_key = 2 ∷ [];
  peer_pub_keys = [];
}

broadcast-ReadsBack_example :
    (bytes : Bytes) × Has
      (addr 8001, bytes)
      (write_command json link sender (broad_cast_message vote))
    × (read_connection json plain sender bytes ≡ some (read_message plain sender vote))
unfolding serialize contains
broadcast-ReadsBack_example =
    broadcast-ReadsBack json link plain sender sender vote 1 (addr 8001) refl refl (inr (inl refl))
      (3, refl, omega arith)
