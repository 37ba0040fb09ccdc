-- ===== src/Client/Commands.antt =====
-- src/bin/pbft_client.rs, `main`: the loop that reads commands from the terminal, and the test loop.
use Prim.Native.Nat.{◌^◌}
use p_bft.Base.{ℕ, ◌%◌, Bool, Option, none, some, List, [], ◌∷◌, ◌++◌, ◌||◌, nat_beq, if◌then◌else◌}
use p_bft.Collections.BTreeMap.{Bytes, bytes_beq}
use p_bft.External.{SocketAddr, text}
use p_bft.Messages.Message.{Message}
use p_bft.Client.{Client, issue_set, issue_get}

-- `is_ascii_whitespace`: space, tab, line feed, form feed and carriage return
abbrev is_space : ℕ → Bool
is_space c = nat_beq c 32 || nat_beq c 9 || nat_beq c 10 || nat_beq c 12 || nat_beq c 13

abbrev flush : Bytes → List Bytes
flush [] = []
flush (c ∷ cs) = (c ∷ cs) ∷ []

-- The words from here on, with what was read of the present one.
unfoldable pub words_from : Bytes → Bytes → List Bytes
words_from word [] = flush word
words_from word (c ∷ cs) =
    (if is_space c then flush word else [])
    ++ words_from (if is_space c then [] else word ++ c ∷ []) cs

-- `split_ascii_whitespace`
unfoldable pub words : Bytes → List Bytes
unfolding words_from
words line = words_from [] line

-- What a line does: the client and what it sends, or a panic of one of the `unwrap`s.
pub data Entered : Type 0 where
  issues : Client → List (SocketAddr × Message) → Entered
  panics : Entered

-- How a word is read as a `u32` is a parameter.
unfoldable pub enter_set : (Bytes → Option ℕ) → Client → Bytes → List Bytes → Entered
enter_set parse c key [] = panics
enter_set parse c key (value ∷ rest) = elim (parse value) [
  | none ↦ panics
  | some val ↦ let (c', sent) = issue_set c key val in issues c' sent
]

unfoldable pub enter_words : (Bytes → Option ℕ) → Client → List Bytes → Entered
enter_words parse c [] = panics
enter_words parse c (cmd ∷ []) = panics
enter_words parse c (cmd ∷ key ∷ rest) =
    if bytes_beq cmd (text "set")
    then enter_set parse c key rest
    else if bytes_beq cmd (text "get")
    then (let (c', sent) = issue_get c key in issues c' sent)
    else issues c []

-- One round of `read_cli`, on the line that was read; at the end of the input that is the empty line.
unfoldable pub on_line : (Bytes → Option ℕ) → Client → Bytes → Entered
on_line parse c line = enter_words parse c (words line)

-- The loop over the lines that were read; `none` is the panic that ends it.
unfoldable pub on_lines :
    (Bytes → Option ℕ) → Client → List Bytes → Option (Client × List (SocketAddr × Message))
on_lines parse c [] = some (c, [])
on_lines parse c (line ∷ lines) = elim (on_line parse c line) [
  | panics ↦ none
  | issues c₁ sent ↦ elim (on_lines parse c₁ lines) [
    | none ↦ none
    | some (c₂, rest) ↦ some (c₂, sent ++ rest)
  ]
]

-- One round of `send_fut`: `timestamp as u32` keeps the low 32 bits.
unfoldable pub test_round : Client → Client × List (SocketAddr × Message)
test_round c =
    let (c₁, set_sent) = issue_set c (text "abc") (c.timestamp % 2 ^ 32) in
    let (c₂, get_sent) = issue_get c₁ (text "abc") in (c₂, set_sent ++ get_sent)
