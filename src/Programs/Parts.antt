-- ===== src/Programs/Parts.antt =====
-- src/node.rs: what a node reads of bytes that were written.
use mathlib.Core.Path.{subst}
use p_bft.Base.{
  ◌≢◌, ℕ, zero, suc, ◌<◌, ◌≡◌, ◌⊎◌, refl, ap, sym, ◌∙◌, inl, inr, false, none, some, List, [], ◌∷◌,
  ◌++◌, Has, take, arith, Option-cases, nat_eq,
}
use p_bft.Collections.BTreeMap.{Bytes}
use p_bft.Collections.HashSet.{contains}
use p_bft.External.{External, SocketAddr}
use p_bft.Messages.ClientRequest.{ClientRequest}
use p_bft.Messages.Message.{Message, client_request_message}
use p_bft.Messages.Command.{
  NodeCommand, send_message, broad_cast_message, ConsensusCommand, process_message,
}
use p_bft.Consensus.Invariant.Preserved.{Passed}
use p_bft.Network.{message_of, Carries}
use p_bft.Node.{InnerNode, read_message, passes, broadcast, on_command, identity}
use p_bft.Node.Filter.{read_message-Checked_iff}
use p_bft.Node.Task.{read_message-Passed}
use p_bft.Node.Wire.{
  Json, serialize, Link, send_bytes, send_all, write_command, read_line, read_connection,
}
use p_bft.Node.Wire.Lines.{IsOneLine}
use p_bft.Programs.{Programs, Written, by_client, by_engine, by_identity}

-- The bytes are those of the message, or the first of them.
abbrev pub PartOf : Json → Message → Bytes → Type 0
PartOf json m bytes = (k : ℕ) × (bytes ≡ take k (serialize json m))

-- A part of a message's line does not parse, or it reads back as the message.
abbrev pub PartsReadBack : Json → Type 0
PartsReadBack json =
    (m : Message) (k : ℕ)
    → (json.from_str (take k (serialize json m)) ≡ none)
      ⊎ (json.from_str (take k (serialize json m)) ≡ some m)

send_bytes-PartOf :
    (json : Json) (link : Link) (addr : SocketAddr) (m : Message) (bytes : Bytes)
    → send_bytes json link addr m ≡ some bytes
    → PartOf json m bytes
unfolding send_bytes
send_bytes-PartOf json link addr m bytes h = elim (Option-cases (link addr)) [
  | inl failed ↦ absurd (cc (rw (failed, send_bytes) at h))
  | inr (k, open_) ↦ (k, ground (arith, rw (open_, send_bytes) at h))
]

send_all-PartOf :
    (json : Json) (link : Link) (addr : SocketAddr) (bytes : Bytes)
    (sends : List (SocketAddr × Message))
    → Has (addr, bytes) (send_all json link sends)
    → (m : Message) × (a : SocketAddr) × Has (a, m) sends × PartOf json m bytes
unfolding send_all
send_all-PartOf json link addr bytes [] h = elim h [ ]
send_all-PartOf json link addr bytes ((a, x) ∷ rest) h =
    elim (Option-cases (send_bytes json link a x)) [
      | inl failed ↦
          let (m, b, has, part) =
            send_all-PartOf json link addr bytes rest (rw (failed, send_all) at h) in
          (m, b, inr has, part)
      | inr (written, done) ↦ elim (rw (done, send_all) at h) [
        | inl e ↦ (
          x,
          a,
          inl refl,
          send_bytes-PartOf json link a x bytes (done ∙ ap some (ap (λ p. p.1) e)),
        )
        | inr later ↦
            let (m, b, has, part) = send_all-PartOf json link addr bytes rest later in
            (m, b, inr has, part)
      ]
    ]

on_command-message_of :
    (n : InnerNode) (cmd : NodeCommand) (a : SocketAddr) (m : Message)
    → Has (a, m) (on_command n cmd)
    → message_of cmd ≡ m
unfolding on_command broadcast
on_command-message_of n (send_message d x) a m (inl e) = ap (λ p. p.1) e
on_command-message_of n (send_message d x) a m (inr x3) = elim x3 [ ]
on_command-message_of n (broad_cast_message x) a m h = to_peers n.config.peer_addrs h
  where
    to_peers : (peers : List (ℕ × SocketAddr)) → Has (a, m) (broadcast peers x) → x ≡ m
    to_peers [] has = elim has [ ]
    to_peers ((i, b) ∷ peers) (inl e) = ap (λ p. p.1) e
    to_peers ((i, b) ∷ peers) (inr has) = to_peers peers has

write_command-PartOf :
    (json : Json) (link : Link) (n : InnerNode) (cmd : NodeCommand) (addr : SocketAddr)
    (bytes : Bytes)
    → Has (addr, bytes) (write_command json link n cmd)
    → PartOf json (message_of cmd) bytes
unfolding write_command
write_command-PartOf json link n cmd addr bytes h =
    let (m, a, has, (k, part)) = send_all-PartOf json link addr bytes (on_command n cmd) h in
    (k, part ∙ ap (λ x. take k (serialize json x)) (sym (on_command-message_of n cmd a m has)))

Has-Carries : (cmd : NodeCommand) (cs : List NodeCommand) → Has cmd cs → Carries (message_of cmd) cs
Has-Carries cmd [] h = h
Has-Carries cmd (c ∷ cs) (inl e) = inl (ap message_of e)
Has-Carries cmd (c ∷ cs) (inr h) = inr (Has-Carries cmd cs h)

-- Where a message on a connection comes from.
abbrev pub From : ℕ → Programs → Message → Type 0
From nodes w m =
    ((r : ClientRequest) × (m ≡ client_request_message r))
    ⊎ ((j : ℕ) × (j < nodes) × Carries m (w j).engine.sent)

-- Bytes that were written are a part of a message's line: of one that a client or an engine sent, or of
-- an identifier.
Written-PartOf :
    (json : Json) (nodes : ℕ) (w : Programs) (bytes : Bytes)
    → Written json nodes w bytes
    → (m : Message) × PartOf json m bytes
      × (From nodes w m ⊎ ((j : ℕ) × (m ≡ identity (w j).inner)))
Written-PartOf json nodes w bytes (by_client link addr r h) =
    (client_request_message r, send_bytes-PartOf json link addr _ bytes h, inl (inl (r, refl)))
Written-PartOf json nodes w bytes (by_engine j link addr cmd lt sent h) = (
  message_of cmd,
  write_command-PartOf json link (w j).inner cmd addr bytes h,
  inl (inr (j, lt, Has-Carries cmd (w j).engine.sent sent)),
)
Written-PartOf json nodes w bytes (by_identity j link addr lt h) =
    (identity (w j).inner, write_command-PartOf json link (w j).inner _ addr bytes h, inr (j, refl))

read_line-take :
    (k : ℕ) (line : Bytes)
    → contains line 10 ≡ false
    → read_line (take k (line ++ 10 ∷ [])) ≡ take k (line ++ 10 ∷ [])
unfolding read_line contains
read_line-take zero line h = refl
read_line-take (suc zero) [] h = refl
read_line-take (suc (suc k)) [] h = refl
read_line-take (suc k) (c ∷ cs) h = ground (arith, read_line-take k cs)

identity-ne-passes :
    (ext : External) (n sender : InnerNode) (cmd : ConsensusCommand)
    → read_message ext n (identity sender) ≢ passes cmd
unfolding read_message identity
identity-ne-passes ext n sender cmd h = absurd (ground arith)

-- What gets from bytes that were written to an engine is a whole message, which a client or an engine
-- sent.
pub read_connection-From :
    (json : Json) (ext : External) (nodes : ℕ) (w : Programs) (n : InnerNode) (bytes : Bytes)
    (cmd : ConsensusCommand)
    → ((m : Message) → IsOneLine json m)
    → PartsReadBack json
    → Written json nodes w bytes
    → read_connection json ext n bytes ≡ some (passes cmd)
    → (m : Message) × (cmd ≡ process_message m) × Passed (process_message m) × From nodes w m
unfolding read_connection
read_connection-From json ext nodes w n bytes cmd one parts written h =
    let (m, (k, part), from) = Written-PartOf json nodes w bytes written in
    let line : read_line bytes ≡ take k (serialize json m) =
      ap read_line part ∙ unfold serialize in read_line-take k (json.to_string m) (one m) in
    elim (parts m k) [
      | inl bad ↦ absurd (cc (rw (ap json.from_str line ∙ bad, read_connection) at h))
      | inr good ↦
          let read : read_message ext n m ≡ passes cmd =
            ground (arith, rw (ap json.from_str line ∙ good, read_connection) at h) in
          let same = ((read_message-Checked_iff ext n m cmd).0 read).0 in
          elim from [
            | inl sent ↦ (m, same, subst Passed same (read_message-Passed ext n m cmd read), sent)
            | inr (j, own) ↦ absurd (
                identity-ne-passes ext n (w j).inner cmd (ap (read_message ext n) (sym own) ∙ read))
          ]
    ]
