-- ===== src/Lib.antt =====
-- pBFT: a key-value store replicated by practical Byzantine fault tolerance. This library models the
-- program and states what it does.
--
-- The program is two binaries over one crate. A node (src/bin/pbft_node.rs) runs two tasks: the
-- network task (src/node.rs), which reads messages from peers and clients, checks their signatures and
-- passes them on, and the consensus engine (src/consensus.rs), a loop over a queue of commands that
-- holds the replica's state (src/state.rs) with its log (src/message_bank.rs). The engine answers with
-- commands to the network task, with commands to itself, and with timer tasks (src/view_changer.rs)
-- that put a command into its queue when they run out. A client (src/bin/pbft_client.rs) sends each
-- request to all nodes and counts the answers. A leader proposes a request with PrePrepare, replicas
-- vote with Prepare and Commit, a committed request is executed in the order of sequence numbers,
-- every tenth one starts a Checkpoint, and a replica that waits too long asks for a ViewChange, which
-- the next leader answers with NewView.
--
-- Files, by the code that they model:
--   Messages, Messages/*        src/messages.rs, one file for each message; Messages/Command has the
--                               commands of the two tasks
--   Config                      src/config.rs
--   MessageBank                 src/message_bank.rs
--   State                       src/state.rs: should_accept_*, apply_commit, checkpoints, digest
--   ViewChanger                 src/view_changer.rs; `fire` is what a timer does when it runs out
--   Consensus                   src/consensus.rs: Defs, Proposals, Votes, Changes and Execution have one
--                               function for each command, named on_*; Handle puts them together
--   Engine                      the loop of `Consensus::spawn` with its queue, and Engine/Reach the other
--                               tasks around it, as a step relation
--   Network                     the nodes of a cluster together: their engines, and the messages that
--                               reach them, as a step relation over Engine/Reach
--   Programs                    the node programs of a cluster, with the bytes between them; what they do
--                               is a case of what Network allows
--   Node                        src/node.rs: read_message, should_drop, broadcast
--   Node/Wire                   Message::serialize, send_message and read_line: messages as bytes
--   Node/Task                   the loop of `Node::spawn` and what its tasks do
--   Client                      src/bin/pbft_client.rs: issue_set, issue_get, the vote counter
--   Client/Session              the tasks that take answers and print certificates
--   Client/Commands             the lines typed at the terminal, and the test loop
--   Client/Numbering            the time stamps of a client's requests
--   Client/Arguments            from the client's arguments to the client
--   Main, Main/Program          src/bin/pbft_node.rs: from the arguments to the configuration, and to the
--                               node that is started
--   Collections, External       the standard collections, and third-party code as a parameter
--   Base                        names, tests on numbers, and lists that all files share
-- The other files are about these: Consensus/Invariant (well-formed states), Replication (stores of
-- several replicas, against the decided requests one after the other), Quorum (votes), Execution (order,
-- checkpoints), Views (view changes), Requests (one request at a replica), and Tests.
--
-- How state corresponds. Each struct is a record with the source's field names. A handler takes the
-- engine's record and returns an outcome: it goes on with a new record and the effects in the order in
-- which they were sent, it leaves the loop (`return`), or it panics (`unwrap`, `unreachable!`).
-- Channels are the lists of what was sent. In a cluster of nodes (Network), a node may at any time
-- receive a request from a client or any message that a node sent before, also more than once; a
-- message may never arrive. The clones of a ViewChanger share their two sets, so there is one copy.
-- HashMap and HashSet are lists without duplicate keys in the order of insertion; Rust leaves the
-- order of iteration open. Numbers are the naturals below 2 ^ 64, and an increment wraps around there,
-- as in a release build; theorems that need it assume that sequence numbers stay below the top. (A
-- debug build panics there instead.) The effects of a handler are delivered at once, after it; in the
-- source the sends stand one after the other, and other tasks may put commands between them. A timer
-- tests its set and sends in one step.
--
-- Bounds. The engine's queue takes 32 commands, as the channel does. The loop of
-- get_next_consecutive_commits has as fuel one more than the number of buffered commits. Every other
-- loop is over a list, a map or a range.
--
-- Hypotheses on third-party code, each named where it is used: a signature verifies under the public
-- key of its key pair (SignaturesVerify), a public key is read back from its bytes (KeysReadBack), the
-- JSON of a message is one line (IsOneLine), and the message is read back from it (ReadsBack), while a
-- part of the line does not parse or gives that message too (PartsReadBack). What becomes of a
-- connection (Link), how arguments are read as numbers and addresses, and a node's key pair are
-- parameters. No property assumes that hashes do not collide or that signatures cannot be forged.
--
-- Not modelled: the JSON text of messages and of the store, logging and the layout of what is printed,
-- key generation, the times that timers wait, and the scheduling of tokio. A connection is read at
-- once, or not at all; the streams are not modelled beyond the bytes that go through. What a cluster
-- agrees on is shown until a view change completes, for nodes that run this program.
pub mod Base
pub mod Collections
pub mod External
pub mod Messages
pub mod Config
pub mod MessageBank
pub mod State
pub mod ViewChanger
pub mod Consensus
pub mod Replication
pub mod Quorum
pub mod Engine
pub mod Network
pub mod Programs
pub mod Execution
pub mod Views
pub mod Requests
pub mod Node
pub mod Client
pub mod Main
pub mod Tests
