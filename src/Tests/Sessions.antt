-- ===== src/Tests/Sessions.antt =====
-- Clients: the answers that come in, the commands that are typed, and the arguments.
use p_bft.Base.{
  arith, ℕ, ◌+◌, ◌<◌, ◌≡◌, ◌↔◌, refl, true, Option, none, some, List, [], ◌∷◌, length, nat_eq,
  pair_eq,
}
use p_bft.Collections.BTreeMap.{Bytes}
use p_bft.Collections.HashMap.{keys}
use p_bft.Collections.HashSet.{contains}
use p_bft.Collections.HashSet.Laws.{IsDistinct}
use p_bft.External.{text, SocketAddr}
use p_bft.Main.{num_faulty_of}
use p_bft.Messages.ClientResponse
use p_bft.Messages.Message.{Message, client_response_message, client_request_message}
use p_bft.Client.{Client, new}
use p_bft.Client.Session.{Session, started, on_answers}
use p_bft.Client.Session.Prints.{answered, prints_exactly}
use p_bft.Client.Numbering.{Numbered}
use p_bft.Client.Numbering.Lines.{requests-Numbered}
use p_bft.Client.Commands.{on_lines, words, on_line, panics, issues, test_round}
use p_bft.Tests.World.{plain, addr, digit}

abbrev answer_from : ℕ → ℕ → Message
answer_from id time_stamp =
    client_response_message
      (ClientResponse.new_with_signature plain (id ∷ []) id time_stamp (b'x' ∷ []) (some 5) true)

-- three of four nodes answer, one of them twice
abbrev answers : List Message
answers =
    answer_from 0 7 ∷ answer_from 0 7 ∷ answer_from 2 7 ∷ answer_from 1 8 ∷ answer_from 3 7 ∷ []

prints_exactly_example :
    (s : Session) × (on_answers (started 4) answers ≡ some s)
    × IsDistinct (keys s.printed)
    × ((t : ℕ)
        → (contains (keys s.printed) t ≡ true)
          ↔ (num_faulty_of 4 + 1 < length (answered t [] answers)))
prints_exactly_example = prints_exactly 4 answers

abbrev printed_of : Option Session → List (ℕ × Option ℕ)
printed_of none = []
printed_of (some s) = s.printed

-- The lines that a client of so many nodes prints for messages.
unfoldable pub printed_for : ℕ → List Message → List (ℕ × Option ℕ)
unfolding on_answers p_bft.Client.Session.on_answer p_bft.Client.read_response
    ClientResponse.new_with_signature p_bft.Client.count_response num_faulty_of
    p_bft.Collections.HashSet.insert contains p_bft.Collections.HashMap.get
    p_bft.Collections.HashMap.insert p_bft.Client.collect p_bft.Base.pair_beq
    p_bft.Client.Session.on_certificate p_bft.Client.report
printed_for num_nodes ms = printed_of (on_answers (started num_nodes) ms)

-- the one time stamp that is printed, with its value
prints_seven : printed_for 4 answers ≡ (7, some 5) ∷ []
unfolding printed_for
prints_seven = refl

abbrev asker : Client
asker = record {
  peer_addrs = (0, addr 8000) ∷ [];
  listen_addr = addr 9000;
  vote_counter = new 1;
  timestamp = 3;
}

-- An empty line, and the end of the input, make the client panic.
on_line_empty : on_line digit asker [] ≡ panics
unfolding on_line words p_bft.Client.Commands.enter_words
on_line_empty = refl

words_set : words (text "set  abc 5\n") ≡ text "set" ∷ text "abc" ∷ text "5" ∷ []
unfolding words
words_set = refl

on_line_get :
    on_line digit asker (text "get x\n")
    ≡ issues
        (record asker { timestamp = 4 })
        ((
          addr 8000,
          client_request_message
              (record { respond_addr = addr 9000; time_stamp = 3; key = text "x"; value = none }),
        )
          ∷ [])
unfolding on_line words p_bft.Client.Commands.enter_words p_bft.Collections.BTreeMap.bytes_beq
    p_bft.Collections.BTreeMap.compare_bytes p_bft.Client.issue_get p_bft.Client.broadcast_message
on_line_get = refl

abbrev request_of : ℕ → Option ℕ → Message
request_of time_stamp value =
    client_request_message
      (record { respond_addr = addr 9000; time_stamp = time_stamp; key = text "x"; value = value })

abbrev lines : List Bytes
lines = text "set x 5\n" ∷ text "get x\n" ∷ []

abbrev asked : List (SocketAddr × Message)
asked = (addr 8000, request_of 3 (some 5)) ∷ (addr 8000, request_of 4 none) ∷ []

lines_read : on_lines digit asker lines ≡ some (record asker { timestamp = 5 }, asked)
unfolding on_lines on_line words p_bft.Client.Commands.enter_words p_bft.Client.Commands.enter_set
    p_bft.Collections.BTreeMap.bytes_beq p_bft.Collections.BTreeMap.compare_bytes
    p_bft.Client.issue_get p_bft.Client.issue_set p_bft.Client.broadcast_message
lines_read = refl

requests-Numbered_example : Numbered 3 5 asked
requests-Numbered_example =
    requests-Numbered digit asker (record asker { timestamp = 5 }) lines asked (omega arith)
      lines_read
