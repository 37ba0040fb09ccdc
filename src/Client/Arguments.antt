-- ===== src/Client/Arguments.antt =====
-- src/bin/pbft_client.rs, `main`: from the client's arguments to the client. `none` is a panic: an
-- argument that is not there, or one that does not parse.
use p_bft.Base.{ℕ, Option, none, some, List, [], ◌∷◌, if◌then◌else◌}
use p_bft.Collections.BTreeMap.{Bytes, bytes_beq}
use p_bft.Collections.HashMap.{HashMap}
use p_bft.External.{SocketAddr, text}
use p_bft.Main.{peers_from}
use p_bft.Client.{Client, new}

-- What `main` runs: the terminal's loop, or the test loop with the pause between two requests.
pub data Mode : Type 0 where
  terminal : Mode
  test : (interval_millis : ℕ) → Mode

unfoldable pub mode_of : (Bytes → Option ℕ) → List Bytes → Option Mode
mode_of parse [] = some terminal
mode_of parse (flag ∷ []) = if bytes_beq flag (text "test") then none else some terminal
mode_of parse (flag ∷ arg ∷ args) =
    if bytes_beq flag (text "test")
    then elim (parse arg) [ none ↦ none | some millis ↦ some (test millis) ]
    else some terminal

-- After the peers: the address to listen on, and the flag.
unfoldable pub finish_client :
    (Bytes → Option ℕ)
    → (Bytes → Option SocketAddr)
    → ℕ
    → HashMap ℕ SocketAddr
    → List Bytes
    → Option (Client × Mode)
finish_client parse from_str num_nodes peer_addrs [] = none
finish_client parse from_str num_nodes peer_addrs (arg ∷ args) = elim (from_str arg) [
  | none ↦ none
  | some me_addr ↦ elim (mode_of parse args) [
    | none ↦ none
    | some mode ↦ some (
      record {
        peer_addrs = peer_addrs;
        listen_addr = me_addr;
        vote_counter = new num_nodes;
        timestamp = 0;
      },
      mode,
    )
  ]
]

-- The arguments are those after the program's name.
unfoldable pub client_of :
    (Bytes → Option ℕ) → (Bytes → Option SocketAddr) → List Bytes → Option (Client × Mode)
client_of parse from_str [] = none
client_of parse from_str (arg ∷ args) = elim (parse arg) [
  | none ↦ none
  | some num_nodes ↦ elim (peers_from from_str num_nodes 0 args []) [
    | none ↦ none
    | some (peer_addrs, rest) ↦ finish_client parse from_str num_nodes peer_addrs rest
  ]
]
