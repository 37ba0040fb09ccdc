-- ===== src/Client/Numbering/Lines.antt =====
-- src/bin/pbft_client.rs: the time stamps of the requests that are typed at the terminal.
use mathlib.Core.Path.{subst, subst₂}
use p_bft.Base.{
  Bool, true, false, if◌then◌else◌, ℕ, ◌+◌, ◌≤◌, ◌<◌, ◌≡◌, ◌⊎◌, refl, ap, inl, inr, Option, none,
  some, List, [], ◌∷◌, ◌++◌, length, arith, usize_mod, Option-cases,
}
use p_bft.Collections.BTreeMap.{Bytes, bytes_beq}
use p_bft.External.{SocketAddr, text}
use p_bft.Messages.Message.{Message}
use p_bft.Client.{Client, issue_set, issue_get}
use p_bft.Client.Commands.{
  Entered, issues, panics, enter_set, enter_words, on_line, on_lines, words,
}
use p_bft.Client.Numbering.{Sends, Numbered, nothing-Numbered, append-Numbered, broadcast-Numbered}

-- What a line of the terminal sends.
abbrev SendsNext : Client → Entered → Type 0
SendsNext c panics = Unit {0}
SendsNext c (issues c' sent) =
    Numbered c.timestamp c'.timestamp sent
    × (c.timestamp ≤ c'.timestamp)
    × (c'.timestamp ≤ c.timestamp + 1)

module _ (parse : Bytes → Option ℕ) (c : Client) (room : c.timestamp + 1 < usize_mod) where
  issue_set-next :
      (key : Bytes) (value : ℕ)
      → let (c', sent) = issue_set c key value in SendsNext c (issues c' sent)
  unfolding issue_set
  issue_set-next key value =
      (broadcast-Numbered c.peer_addrs _ _ _ refl (omega arith), omega arith, omega arith)

  issue_get-next : (key : Bytes) → let (c', sent) = issue_get c key in SendsNext c (issues c' sent)
  unfolding issue_get
  issue_get-next key =
      (broadcast-Numbered c.peer_addrs _ _ _ refl (omega arith), omega arith, omega arith)

  if-next :
      (b : Bool) (x y : Entered) → SendsNext c x → SendsNext c y → SendsNext c (if b then x else y)
  if-next true x y p q = p
  if-next false x y p q = q

  enter_set-next : (key : Bytes) (args : List Bytes) → SendsNext c (enter_set parse c key args)
  unfolding enter_set
  enter_set-next key [] = tt
  enter_set-next key (value ∷ rest) = read (parse value)
    where
      read :
          (v : Option ℕ)
          → SendsNext c (elim v [
            | none ↦ panics
            | some val ↦ let (c', sent) = issue_set c key val in issues c' sent
          ])
      read none = tt
      read (some val) = issue_set-next key val

  enter_words-next : (args : List Bytes) → SendsNext c (enter_words parse c args)
  unfolding enter_words
  enter_words-next [] = tt
  enter_words-next (cmd ∷ []) = tt
  enter_words-next (cmd ∷ key ∷ rest) =
      if-next (bytes_beq cmd (text "set")) _ _ (enter_set-next key rest) (
        if-next (bytes_beq cmd (text "get")) _ _ (issue_get-next key)
          (nothing-Numbered c.timestamp c.timestamp, omega arith, omega arith))

  on_line-next : (line : Bytes) → SendsNext c (on_line parse c line)
  unfolding on_line
  on_line-next line = enter_words-next (words line)

Entered-cases : (x : Entered) → (x ≡ panics) ⊎ ((c : Client) × (sent : Sends) × (x ≡ issues c sent))
Entered-cases panics = inl refl
Entered-cases (issues c sent) = inr (c, sent, refl)

on_lines-Numbered :
    (parse : Bytes → Option ℕ) (c c' : Client) (lines : List Bytes) (sent : Sends)
    → c.timestamp + length lines < usize_mod
    → on_lines parse c lines ≡ some (c', sent)
    → Numbered c.timestamp c'.timestamp sent × (c.timestamp ≤ c'.timestamp)
unfolding on_lines
on_lines-Numbered parse c c' [] sent room h =
    let same : c ≡ c' = cc in
    let none_sent : [] ≡ sent = cc in
    (
      subst (Numbered c.timestamp c'.timestamp) none_sent
          (nothing-Numbered c.timestamp c'.timestamp),
      omega (arith, ap (λ x. x.timestamp) same),
    )
on_lines-Numbered parse c c' (line ∷ lines) sent room h =
    let next = on_line-next parse c (omega arith) line in
    elim (Entered-cases (on_line parse c line)) [
      | inl dead ↦ absurd (cc (rw (dead, on_lines) at h))
      | inr (c₁, first, e) ↦
          let (numbered, low, high) = rw e at next in
          elim (Option-cases (on_lines parse c₁ lines)) [
            | inl dead ↦ absurd (cc (rw (e, on_lines, dead) at h))
            | inr ((c₂, rest), f) ↦
                let (later, low₂) = on_lines-Numbered parse c₁ c₂ lines rest (omega arith) f in
                let end_ : Client × Sends = (c₂, first ++ rest) in
                let g : some end_ ≡ some (c', sent) = rw (e, on_lines, f) at h in
                let same : c₂ ≡ c' = cc in
                let all : first ++ rest ≡ sent = cc in
                let stamp = ap (λ x. x.timestamp) same in
                (
                  subst₂ Numbered' stamp all (
                      append-Numbered c.timestamp c₁.timestamp c₂.timestamp first rest low low₂
                        numbered later),
                  omega (arith, stamp),
                )
          ]
    ]
  where
    Numbered' : ℕ → Sends → Type 0
    Numbered' hi xs = Numbered c.timestamp hi xs

-- Whatever is typed at the terminal, as long as the client does not panic and its time stamps stay below
-- the top of their type, all that it sends are requests, with time stamps from where it was on and below
-- where it is then, and no two different requests have one time stamp.
pub requests-Numbered :
    (parse : Bytes → Option ℕ) (c c' : Client) (lines : List Bytes)
    (sent : List (SocketAddr × Message))
    → c.timestamp + length lines < usize_mod
    → on_lines parse c lines ≡ some (c', sent)
    → Numbered c.timestamp c'.timestamp sent
requests-Numbered parse c c' lines sent room h = (on_lines-Numbered parse c c' lines sent room h).0
