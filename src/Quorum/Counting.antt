-- ===== src/Quorum/Counting.antt =====
-- src/consensus.rs: when a vote moves a request on, a prepare to the commit phase, a commit to
-- execution.
use p_bft.Base.{
  ℕ, Option, ap, ◌∙◌, none, nat_beq, ◌||◌, ◌≢◌, sym, pair_beq_iff, ◌*◌, ◌≡◌, refl, some, List, [],
  ◌∷◌, ◌++◌, Bool, ◌&&◌, arith, length, keep, map, nat_eq, pair_eq, is_some, ltb, if◌then◌else◌,
  Option-cases, inl, inr,
}
use p_bft.Collections.HashMap.{HashMap, Entries, get, insert, keys}
use p_bft.Collections.HashMap.Laws.{get-insert, get-insert_self, get-Entries}
use p_bft.Collections.HashMap.Keys.{keys-insert-IsDistinct}
use p_bft.Collections.HashSet
use p_bft.Collections.HashSet.{HashSet, contains}
use p_bft.Collections.HashSet.Laws.{IsDistinct, insert-IsDistinct, contains-insert}
use p_bft.Messages.Prepare.{Prepare}
use p_bft.Messages.Commit.{Commit, corresponds_to}
use p_bft.Messages.Command.{ConsensusCommand, apply_commit, enter_commit, accept_commit}
use p_bft.Consensus.Defs.{Consensus, continues, sends, after}
use p_bft.Consensus.Votes.{count_prepare, count_commit, on_accept_prepare, on_accept_commit}
use p_bft.Consensus.Invariant.Defs.{CommitVotes, PrepareVotes, WellFormed}

-- the nodes that voted for `pair`
abbrev pub voters_at : HashMap (ℕ × ℕ) (HashSet ℕ) → ℕ × ℕ → HashSet ℕ
voters_at votes pair = elim (get votes pair) [ none ↦ [] | some voters ↦ voters ]

-- the prepares for `pair`, by the node that sent them
abbrev pub prepares_at : HashMap (ℕ × ℕ) (HashMap ℕ Prepare) → ℕ × ℕ → HashMap ℕ Prepare
prepares_at votes pair = elim (get votes pair) [ none ↦ [] | some voters ↦ voters ]

-- Nothing changes but what is filed under `pair`.
abbrev pub SameBut : {V : Type 0} → ℕ × ℕ → HashMap (ℕ × ℕ) V → HashMap (ℕ × ℕ) V → Type 0
SameBut pair votes votes' = (other : ℕ × ℕ) → other ≢ pair → get votes' other ≡ get votes other

-- The vote set filed under `pair` now: the distinct nodes that voted before and the new voter, and no
-- others.
abbrev pub Filed :
    HashMap (ℕ × ℕ) (HashSet ℕ) → HashMap (ℕ × ℕ) (HashSet ℕ) → ℕ × ℕ → ℕ → HashSet ℕ → Type 0
Filed votes votes' pair id voters =
    (get votes' pair ≡ some voters)
    × IsDistinct voters
    × ((j : ℕ) → contains voters j ≡ (nat_beq id j || contains (voters_at votes pair) j))
    × SameBut pair votes votes'

-- The prepares filed under `pair` now: one for each node, the new one as that of its sender, and those
-- of the other nodes as before.
abbrev pub FiledPrepare :
    HashMap (ℕ × ℕ) (HashMap ℕ Prepare)
    → HashMap (ℕ × ℕ) (HashMap ℕ Prepare)
    → ℕ × ℕ
    → Prepare
    → HashMap ℕ Prepare
    → Type 0
FiledPrepare votes votes' pair p voters =
    (get votes' pair ≡ some voters)
    × IsDistinct (keys voters)
    × ((j : ℕ) → get voters j ≡ (if nat_beq p.id j then some p else get (prepares_at votes pair) j))
    × SameBut pair votes votes'

insert-SameBut :
    {V : Type 0} (votes : HashMap (ℕ × ℕ) V) (pair : ℕ × ℕ) (v : V)
    → SameBut pair votes (insert votes pair v)
insert-SameBut votes pair v other ne = ground (
  arith,
  get-insert votes pair other v,
  pair_beq_iff nat_eq nat_eq pair other,
  λ (same : pair ≡ other). ne (sym same),
)

-- What a vote sends if its set existed and is a quorum now.
abbrev pub on_quorum : Bool → ℕ → ℕ → ConsensusCommand → List ConsensusCommand
on_quorum existed num_faulty voters cmd =
    if existed && ltb (2 * num_faulty) voters then cmd ∷ [] else []

filed_at :
    {V : Type 0} (votes : HashMap (ℕ × ℕ) (List V)) (pair : ℕ × ℕ) (o : Option (List V))
    → get votes pair ≡ o
    → elim o [ none ↦ [] | some vs ↦ vs ] ≡ elim (get votes pair) [ none ↦ [] | some vs ↦ vs ]
filed_at votes pair o h = ap (λ x. elim x [ none ↦ [] | some vs ↦ vs ]) (sym h)

count_commit_exact :
    (f : ℕ) (votes : HashMap (ℕ × ℕ) (HashSet ℕ)) (c : Commit)
    → Entries CommitVotes votes
    → (voters : HashSet ℕ) × Filed votes (count_commit f votes c).0 (c.view, c.seq_num) c.id voters
      × ((count_commit f votes c).1
          ≡ on_quorum (is_some (get votes (c.view, c.seq_num))) f (length voters) (apply_commit c))
unfolding count_commit IsDistinct
count_commit_exact f votes c w = elim (Option-cases (get votes (c.view, c.seq_num))) [
  | inl n ↦ (
    (HashSet.insert [] c.id).0,
    rw (n, count_commit)
        (
          get-insert_self votes (c.view, c.seq_num) _,
          insert-IsDistinct [] c.id tt,
          λ j.
              contains-insert [] c.id j
              ∙ ap (λ vs. nat_beq c.id j || contains vs j)
                  (filed_at votes (c.view, c.seq_num) none n),
          insert-SameBut votes (c.view, c.seq_num) _,
        ),
    rw (n, count_commit) refl,
  )
  | inr (old, h) ↦ (
    (HashSet.insert old c.id).0,
    rw (h, count_commit)
        (
          get-insert_self votes (c.view, c.seq_num) _,
          insert-IsDistinct old c.id (get-Entries CommitVotes votes (c.view, c.seq_num) old w h),
          λ j.
              contains-insert old c.id j
              ∙ ap (λ vs. nat_beq c.id j || contains vs j)
                  (filed_at votes (c.view, c.seq_num) (some old) h),
          insert-SameBut votes (c.view, c.seq_num) _,
        ),
    rw (h, count_commit) refl,
  )
]

-- In a well-formed state, a commit that is accepted is counted once for its sender: the voters filed
-- under its view and sequence number are then the distinct ones from before and the sender, and no other
-- vote set changes. It sends the request to execution exactly if the set was there before and has more
-- than `2 f` voters now; nothing else is sent.
pub on_accept_commit_exact :
    (e : Consensus) (c : Commit)
    → WellFormed e.state
    → let e' = after e (on_accept_commit e c) in
      let pair : ℕ × ℕ = (c.view, c.seq_num) in
      (voters : HashSet ℕ) × Filed e.state.commit_votes e'.state.commit_votes pair c.id voters
      × (on_accept_commit e c
          ≡ continues e' (
              sends (
                on_quorum
                  (is_some (get e.state.commit_votes pair))
                  e.config.num_faulty
                  (length voters)
                  (apply_commit c))))
unfolding on_accept_commit
on_accept_commit_exact e c w =
    let (voters, filed, commands) =
      count_commit_exact e.config.num_faulty e.state.commit_votes c w.commits in
    (voters, filed, rw commands refl)

count_prepare_exact :
    (f : ℕ) (votes : HashMap (ℕ × ℕ) (HashMap ℕ Prepare)) (p : Prepare)
    → Entries PrepareVotes votes
    → (voters : HashMap ℕ Prepare) × FiledPrepare votes
        (count_prepare f votes p).0
        (p.view, p.seq_num)
        p
        voters
      × ((count_prepare f votes p).1
          ≡ on_quorum (is_some (get votes (p.view, p.seq_num))) f (length voters) (enter_commit p))
unfolding count_prepare IsDistinct
count_prepare_exact f votes p w = elim (Option-cases (get votes (p.view, p.seq_num))) [
  | inl n ↦ (
    insert [] p.id p,
    rw (n, count_prepare)
        (
          get-insert_self votes (p.view, p.seq_num) _,
          keys-insert-IsDistinct [] p.id p tt,
          λ j.
              get-insert [] p.id j p
              ∙ ap (λ vs. if nat_beq p.id j then some p else get vs j)
                  (filed_at votes (p.view, p.seq_num) none n),
          insert-SameBut votes (p.view, p.seq_num) _,
        ),
    rw (n, count_prepare) refl,
  )
  | inr (old, h) ↦ (
    insert old p.id p,
    rw (h, count_prepare)
        (
          get-insert_self votes (p.view, p.seq_num) _,
          keys-insert-IsDistinct old p.id p
              (get-Entries PrepareVotes votes (p.view, p.seq_num) old w h).0,
          λ j.
              get-insert old p.id j p
              ∙ ap (λ vs. if nat_beq p.id j then some p else get vs j)
                  (filed_at votes (p.view, p.seq_num) (some old) h),
          insert-SameBut votes (p.view, p.seq_num) _,
        ),
    rw (h, count_prepare) refl,
  )
]

-- In a well-formed state, a prepare that is accepted is counted once for its sender: it is filed as that
-- sender's vote for its view and sequence number, the votes of the other nodes stay, and no other vote
-- set changes. The commit phase is entered exactly if the vote set was there before and has the votes of
-- more than `2 f` distinct nodes now, and the buffered commits that correspond to the prepare are
-- accepted in any case; nothing else is sent.
pub on_accept_prepare_exact :
    (e : Consensus) (p : Prepare)
    → WellFormed e.state
    → let e' = after e (on_accept_prepare e p) in
      let pair : ℕ × ℕ = (p.view, p.seq_num) in
      (voters : HashMap ℕ Prepare) × FiledPrepare e.state.prepare_votes e'.state.prepare_votes pair
        p voters
      × (on_accept_prepare e p
          ≡ continues e' (
              sends (
                on_quorum
                  (is_some (get e.state.prepare_votes pair))
                  e.config.num_faulty
                  (length voters)
                  (enter_commit p)
                ++ map accept_commit
                    (keep (λ c. corresponds_to c p) e.state.message_bank.outstanding_commits))))
unfolding on_accept_prepare
on_accept_prepare_exact e p w =
    let (voters, filed, commands) =
      count_prepare_exact e.config.num_faulty e.state.prepare_votes p w.prepares in
    (voters, filed, rw commands refl)
