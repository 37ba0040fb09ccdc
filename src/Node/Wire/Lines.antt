-- ===== src/Node/Wire/Lines.antt =====
-- src/node.rs, src/messages.rs: what a peer reads of what a node sent.
use p_bft.Base.{
  ℕ, ◌≡◌, ◌≤◌, refl, ap, ◌∙◌, inl, inr, false, some, List, [], ◌∷◌, ◌++◌, length, Has, take-length,
  nat_eq, arith, Option-cases,
}
use p_bft.Collections.BTreeMap.{Bytes}
use p_bft.Collections.HashMap.{HashMap}
use p_bft.Collections.HashSet.{contains}
use p_bft.External.{External, SocketAddr}
use p_bft.Messages.Message.{Message}
use p_bft.Messages.Command.{broad_cast_message}
use p_bft.Node.{InnerNode, read_message, broadcast, on_command}
use p_bft.Node.Wire.{
  Json, serialize, Link, send_bytes, send_all, write_command, read_line, read_connection,
}

-- The JSON of the message is one line.
abbrev pub IsOneLine : Json → Message → Type 0
IsOneLine json m = contains (json.to_string m) 10 ≡ false

-- The message is read back from its line.
abbrev pub ReadsBack : Json → Message → Type 0
ReadsBack json m = json.from_str (serialize json m) ≡ some m

read_line-line :
    (line : Bytes) → contains line 10 ≡ false → read_line (line ++ 10 ∷ []) ≡ line ++ 10 ∷ []
unfolding read_line contains
read_line-line [] h = refl
read_line-line (c ∷ cs) h = ground (arith, read_line-line cs)

serialize-read_connection :
    (json : Json) (ext : External) (n : InnerNode) (m : Message)
    → IsOneLine json m
    → ReadsBack json m
    → read_connection json ext n (serialize json m) ≡ some (read_message ext n m)
unfolding read_connection
serialize-read_connection json ext n m one back =
    let line : read_line (serialize json m) ≡ serialize json m =
      unfold serialize in read_line-line (json.to_string m) one in
    let parsed : json.from_str (read_line (serialize json m)) ≡ some m =
      ap json.from_str line ∙ back in
    rw (parsed, read_connection) refl

-- The connection takes the whole line.
abbrev pub TakesLine : Json → Link → SocketAddr → Message → Type 0
TakesLine json link addr m = (k : ℕ) × (link addr ≡ some k) × (length (serialize json m) ≤ k)

send_bytes-whole :
    (json : Json) (link : Link) (addr : SocketAddr) (m : Message)
    → TakesLine json link addr m
    → send_bytes json link addr m ≡ some (serialize json m)
unfolding send_bytes
send_bytes-whole json link addr m (k, open_, enough) =
    rw (open_, send_bytes) (ap some (take-length k (serialize json m) enough))

-- Whatever becomes of other connections, what one takes gets written.
send_all-Has :
    (json : Json) (link : Link) (addr : SocketAddr) (m : Message)
    (sends : List (SocketAddr × Message))
    → TakesLine json link addr m
    → Has (addr, m) sends
    → Has (addr, serialize json m) (send_all json link sends)
unfolding send_all
send_all-Has json link addr m [] t h = h
send_all-Has json link addr m ((a, x) ∷ rest) t (inl e) =
    let whole : send_bytes json link a x ≡ some (serialize json m) =
      ap (λ s. send_bytes json link s.0 s.1) e ∙ send_bytes-whole json link addr m t in
    rw (whole, send_all) (inl (cc))
send_all-Has json link addr m ((a, x) ∷ rest) t (inr h) =
    let later = send_all-Has json link addr m rest t h in
    elim (Option-cases (send_bytes json link a x)) [
      | inl failed ↦ rw (failed, send_all) later
      | inr (bytes, done) ↦ rw (done, send_all) (inr later)
    ]

broadcast-Has :
    (m : Message) (peers : HashMap ℕ SocketAddr) (id : ℕ) (addr : SocketAddr)
    → Has (id, addr) peers
    → Has (addr, m) (broadcast peers m)
unfolding broadcast
broadcast-Has m [] id addr h = h
broadcast-Has m ((i, a) ∷ peers) id addr (inl e) = inl (cc)
broadcast-Has m ((i, a) ∷ peers) id addr (inr h) = inr (broadcast-Has m peers id addr h)

-- A broadcast reaches each peer whose connection takes the whole line, whatever becomes of the
-- connections to the others, and the peer reads the message that was sent. It is assumed that the
-- message's JSON is one line, and that the message is read back from it.
pub broadcast-ReadsBack :
    (json : Json) (link : Link) (ext : External) (n peer : InnerNode) (m : Message) (id : ℕ)
    (addr : SocketAddr)
    → IsOneLine json m
    → ReadsBack json m
    → Has (id, addr) n.config.peer_addrs
    → TakesLine json link addr m
    → (bytes : Bytes) × Has (addr, bytes) (write_command json link n (broad_cast_message m))
      × (read_connection json ext peer bytes ≡ some (read_message ext peer m))
unfolding write_command on_command
broadcast-ReadsBack json link ext n peer m id addr one back listed open_ = (
  serialize json m,
  send_all-Has json link addr m (broadcast n.config.peer_addrs m) open_
      (broadcast-Has m n.config.peer_addrs id addr listed),
  serialize-read_connection json ext peer m one back,
)
