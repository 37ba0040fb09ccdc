-- ===== src/Node/Task.antt =====
-- src/node.rs, `Node::spawn`: the network task as a loop over what happens to it. Each connection is read
-- by a task of its own, which shares the public keys on record; a panic there ends that task only.
use mathlib.Core.Path.{subst}
use p_bft.Base.{
  ◌≡◌, refl, Option, none, some, List, [], ◌∷◌, ◌++◌, All, All-append, arith, sym, inl, inr,
  Option-cases,
}
use p_bft.Collections.BTreeMap.{Bytes}
use p_bft.External.{External, SocketAddr}
use p_bft.Messages.Message.{Message, identifier_message}
use p_bft.Consensus.Invariant.Preserved.{Passed}
use p_bft.Node.Filter.{read_message-Checked_iff}
use p_bft.Messages.Command.{NodeCommand, ConsensusCommand, broad_cast_message}
use p_bft.Node.{InnerNode, Reading, learns, drops, passes, dies, read_message, identity}
use p_bft.Node.Wire.{Json, Link, write_command, read_line, read_connection}

-- What one round of `select!` finds, and what the identity task does from time to time. `closed` is a
-- channel whose senders are gone.
pub data Event : Type 0 where
  accepts : Bytes → Event
  accept_fails : Event
  receives_command : NodeCommand → Event
  closed : Event
  announces : Event

-- The keys on record, what was written and what was sent to the engine, oldest first.
pub record Task : Type 0 where
  pub inner : InnerNode
  pub written : List (SocketAddr × Bytes)
  pub to_engine : List ConsensusCommand

abbrev pub task_of : InnerNode → Task
task_of n = record { inner = n; written = []; to_engine = [] }

-- The end of a connection's task; an error is logged.
unfoldable pub after_reading : Task → Option Reading → Task
after_reading t none = t
after_reading t (some (learns n)) = record t { inner = n }
after_reading t (some drops) = t
after_reading t (some (passes cmd)) = record t { to_engine = t.to_engine ++ cmd ∷ [] }
after_reading t (some dies) = t

abbrev writes : Json → Link → Task → NodeCommand → Task
writes json link t cmd = record t { written = t.written ++ write_command json link t.inner cmd }

-- `none` is the panic of `unwrap`.
unfoldable pub on_event : Json → Link → External → Task → Event → Option Task
on_event json link ext t (accepts bytes) =
    some (after_reading t (read_connection json ext t.inner bytes))
on_event json link ext t accept_fails = some t
on_event json link ext t (receives_command cmd) = some (writes json link t cmd)
on_event json link ext t closed = none
on_event json link ext t announces =
    some (writes json link t (broad_cast_message (identity t.inner)))

-- Each event with what becomes of the connections that it opens.
unfoldable pub on_events : Json → External → Task → List (Link × Event) → Option Task
on_events json ext t [] = some t
on_events json ext t ((link, ev) ∷ evs) = elim (on_event json link ext t ev) [
  | none ↦ none
  | some t' ↦ on_events json ext t' evs
]

-- What a connection passes on to the engine is no identifier.
pub read_message-Passed :
    (ext : External) (n : InnerNode) (m : Message) (cmd : ConsensusCommand)
    → read_message ext n m ≡ passes cmd
    → Passed cmd
unfolding read_message
read_message-Passed ext n (identifier_message i) cmd h = absurd (ground arith)
read_message-Passed ext n m cmd h =
    subst Passed (sym ((read_message-Checked_iff ext n m cmd).0 h).0) tt

-- The end of a connection adds nothing else.
after_reading-Passed :
    (json : Json) (ext : External) (t : Task) (bytes : Bytes)
    → All Passed t.to_engine
    → All Passed (after_reading t (read_connection json ext t.inner bytes)).to_engine
unfolding after_reading read_connection
after_reading-Passed json ext t bytes h = elim (Option-cases (json.from_str (read_line bytes))) [
  | inl bad ↦ rw (bad, read_connection) h
  | inr (m, parsed) ↦
      rw (parsed, read_connection)
        (finish (read_message ext t.inner m) (read_message-Passed ext t.inner m))
]
  where
    finish :
        (r : Reading)
        → ((cmd : ConsensusCommand) → r ≡ passes cmd → Passed cmd)
        → All Passed (after_reading t (some r)).to_engine
    finish (learns n) p = h
    finish drops p = h
    finish (passes cmd) p = All-append Passed t.to_engine (cmd ∷ []) h (p cmd refl, tt)
    finish dies p = h

-- Whatever comes in over connections, the network task sends its engine no identifier: what the engine
-- is sent is what it is ready to take.
on_events-Passed :
    (json : Json) (ext : External) (evs : List (Link × Event)) (t t' : Task)
    → All Passed t.to_engine
    → on_events json ext t evs ≡ some t'
    → All Passed t'.to_engine
unfolding on_events on_event
on_events-Passed json ext [] t t' p h =
    let same : t ≡ t' = cc in subst {A = Task} (λ x. All Passed x.to_engine) same p
on_events-Passed json ext ((link, accepts bytes) ∷ evs) t t' p h =
    on_events-Passed json ext evs _ t' (after_reading-Passed json ext t bytes p) h
on_events-Passed json ext ((link, accept_fails) ∷ evs) t t' p h =
    on_events-Passed json ext evs t t' p h
on_events-Passed json ext ((link, receives_command cmd) ∷ evs) t t' p h =
    on_events-Passed json ext evs (writes json link t cmd) t' p h
on_events-Passed json ext ((link, closed) ∷ evs) t t' p h = absurd (cc)
on_events-Passed json ext ((link, announces) ∷ evs) t t' p h =
    on_events-Passed json ext evs (writes json link t (broad_cast_message (identity t.inner))) t' p
      h
