-- ===== src/Node/Wire.antt =====
-- src/node.rs, src/messages.rs: messages as bytes on a connection. A sender opens a connection, writes
-- one line, and drops it; the receiver reads one line. The JSON text of a message (`serde_json`) is a
-- parameter, and so is what becomes of each connection.
pub mod Lines
use p_bft.Base.{ℕ, Bool, Option, none, some, List, [], ◌∷◌, ◌++◌, take, nat_beq, if◌then◌else◌}
use p_bft.Collections.BTreeMap.{Bytes}
use p_bft.External.{External, SocketAddr}
use p_bft.Messages.Message.{Message}
use p_bft.Messages.Command.{NodeCommand}
use p_bft.Node.{InnerNode, Reading, read_message, on_command}

pub record Json : Type 0 where
  pub to_string : Message → Bytes
  pub from_str : Bytes → Option Message

-- `Message::serialize`: one line
unfoldable pub serialize : Json → Message → Bytes
serialize json m = json.to_string m ++ 10 ∷ []

-- What becomes of a connection to an address: it fails, or so many bytes of the line are written at
-- most. `write` makes one attempt, and does not come back for what is left.
abbrev pub Link : Type 0
Link = SocketAddr → Option ℕ

-- `InnerNode::send_message`: the bytes that get to the address; `none` is the error returned.
unfoldable pub send_bytes : Json → Link → SocketAddr → Message → Option Bytes
send_bytes json link peer_addr m = elim (link peer_addr) [
  | none ↦ none
  | some n ↦ some (take n (serialize json m))
]

-- The sends of `broadcast` and of `spawn`, one after the other: an error is dropped by `let _ =`.
unfoldable pub send_all : Json → Link → List (SocketAddr × Message) → List (SocketAddr × Bytes)
send_all json link [] = []
send_all json link ((addr, m) ∷ rest) = elim (send_bytes json link addr m) [
  | none ↦ send_all json link rest
  | some bytes ↦ (addr, bytes) ∷ send_all json link rest
]

-- What a node writes for a command of its engine.
unfoldable pub write_command : Json → Link → InnerNode → NodeCommand → List (SocketAddr × Bytes)
write_command json link n cmd = send_all json link (on_command n cmd)

-- `read_line`: up to the first line feed, that included, or all there is.
unfoldable pub read_line : Bytes → Bytes
read_line [] = []
read_line (c ∷ cs) = c ∷ (if nat_beq c 10 then [] else read_line cs)

-- `read_message` on what comes in over a connection; `none` is the error of a text that does not parse.
unfoldable pub read_connection : Json → External → InnerNode → Bytes → Option Reading
read_connection json ext n bytes = elim (json.from_str (read_line bytes)) [
  | none ↦ none
  | some m ↦ some (read_message ext n m)
]
