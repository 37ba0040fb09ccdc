-- ===== src/Client/Session.antt =====
-- src/bin/pbft_client.rs: the client's tasks that take answers, together. An answer is counted, and the
-- certificate that it completes, if it does, goes through the channel to the task that prints it. The
-- two tasks share nothing else, and the channel keeps the order, so a certificate is printed at once.
pub mod Exact
pub mod Prints
pub mod Told
pub mod Counting
use p_bft.Base.{ℕ, Option, none, some, List, [], ◌∷◌, ◌++◌}
use p_bft.Collections.HashMap.{HashMap}
use p_bft.Messages.Message.{Message}
use p_bft.Client.{
  VoteCertificate, VoteCounter, new, counted, fails, read_response, passed_over, prints, panics,
  report,
}

pub record Session : Type 0 where
  pub counter : VoteCounter
  pub succ_votes : HashMap ℕ VoteCertificate
  pub printed : List (ℕ × Option ℕ)  -- the time stamps and the values, oldest first

-- The tasks that `main` starts for a cluster of some size.
abbrev pub started : ℕ → Session
started num_nodes = record { counter = new num_nodes; succ_votes = []; printed = [] }

-- What the printing task makes of a certificate; `none` is a panic.
unfoldable pub on_certificate : Session → VoteCertificate → Option Session
on_certificate s c = elim (report s.succ_votes c) [
  | passed_over ↦ some s
  | prints succ_votes value ↦
      some (record s { succ_votes = succ_votes; printed = s.printed ++ (c.timestamp, value) ∷ [] })
  | panics ↦ none
]

-- What one message to the client's socket sets off.
unfoldable pub on_answer : Session → Message → Option Session
on_answer s m = elim (read_response s.counter m) [
  | fails ↦ none
  | counted w none ↦ some (record s { counter = w })
  | counted w (some c) ↦ on_certificate (record s { counter = w }) c
]

-- All messages that come in, one after the other.
unfoldable pub on_answers : Session → List Message → Option Session
on_answers s [] = some s
on_answers s (m ∷ ms) = elim (on_answer s m) [ none ↦ none | some s' ↦ on_answers s' ms ]
