-- ===== src/Consensus/Invariant/Checkpoints.antt =====
-- src/consensus.rs: the invariant through checkpoints.
use p_bft.Base.{
  ℕ, ◌≤◌, ◌≡◌, ◌≢◌, ◌*◌, refl, some, [], ◌∷◌, Bool, All, All-append, nat_eq, pair_eq, arith,
  Bool-cases, Option-cases, inl, inr, length, List, ltb, leb,
}
use p_bft.Collections.BTreeMap.{Bytes, bytes_eq}
use p_bft.Collections.HashMap.{HashMap, Entries, get, insert}
use p_bft.Collections.HashMap.Laws.{insert-Entries, get-Entries, get-insert_self}
use p_bft.Collections.HashMap.Keys.{get-insert-is_some}
use p_bft.Collections.HashSet
use p_bft.Collections.HashSet.{HashSet}
use p_bft.Collections.HashSet.Laws.{IsDistinct, insert-IsDistinct}
use p_bft.MessageBank.Collect.{garbage_collect-Entries}
use p_bft.State.{State, proof_of, update_checkpoint_meta, garbage_collect}
use p_bft.Messages.CheckPoint.{CheckPoint}
use p_bft.Consensus.Defs.{Consensus, panics}
use p_bft.Consensus.Execution.{on_accept_checkpoint, stabilise, record_checkpoint, fast_forward}
use p_bft.Consensus.Invariant.Defs.{FiledProposal, CheckpointVotes, HasCheckpoint, WellFormed}
use p_bft.Consensus.Invariant.Steps.{After}

HasCheckpoint-insert :
    (round : HashMap ℕ CheckPoint) (c : CheckPoint) (voters : List ℕ)
    → All (HasCheckpoint round) voters
    → All (HasCheckpoint (insert round c.id c)) voters
HasCheckpoint-insert round c [] h = tt
HasCheckpoint-insert round c (id ∷ ids) h =
    (get-insert-is_some round c.id id c h.0, HasCheckpoint-insert round c ids h.1)

CheckpointVotes-insert :
    (round : HashMap ℕ CheckPoint) (c : CheckPoint) (votes : HashMap (ℕ × Bytes) (List ℕ))
    → Entries (CheckpointVotes round) votes
    → Entries (CheckpointVotes (insert round c.id c)) votes
CheckpointVotes-insert round c [] h = tt
CheckpointVotes-insert round c ((pair, voters) ∷ votes) h =
    ((h.0.0, HasCheckpoint-insert round c voters h.0.1), CheckpointVotes-insert round c votes h.1)

pub record_checkpoint-WellFormed :
    (s : State) (c : CheckPoint) → WellFormed s → WellFormed (record_checkpoint s c)
record_checkpoint-WellFormed s c w =
    ground
      (arith, CheckpointVotes-insert s.checkpoints_current_round c s.checkpoint_votes w.checkpoints)

-- A voter added to a set, when the checkpoint of that voter is at hand.
insert-HasCheckpoint :
    (round : HashMap ℕ CheckPoint) (voters : List ℕ) (id : ℕ)
    → HasCheckpoint round id
    → All (HasCheckpoint round) voters
    → All (HasCheckpoint round) (HashSet.insert voters id).0
unfolding HashSet.insert
insert-HasCheckpoint round voters id h hs = elim (Bool-cases (HashSet.contains voters id)) [
  | inl old ↦ rw old hs
  | inr new ↦ rw new (All-append (HasCheckpoint round) voters (id ∷ []) hs (h, tt))
]

-- With a checkpoint of each voter the proof is complete.
pub proof_of-total :
    (round : HashMap ℕ CheckPoint) (voters : List ℕ)
    → All (HasCheckpoint round) voters
    → (cs : List CheckPoint) × (proof_of round voters ≡ some cs)
unfolding proof_of
proof_of-total round [] h = ([], refl)
proof_of-total round (id ∷ ids) h =
    let (cs, e) = proof_of-total round ids h.1 in
    elim (Option-cases (get round id)) [
      | inl n ↦ absurd (ground arith)
      | inr (c, s) ↦ (c ∷ cs, ground arith)
    ]

pub fast_forward-WellFormed :
    (s : State) (c : CheckPoint)
    → WellFormed s
    → WellFormed (fast_forward s c)
      × (c.committed_seq_num ≤ (fast_forward s c).last_seq_num_committed)
      × ((fast_forward s c).checkpoint_votes ≡ s.checkpoint_votes)
fast_forward-WellFormed s c w =
    elim (Bool-cases (ltb s.last_seq_num_committed c.committed_seq_num)) [
      | inl behind ↦ rw behind (ground arith, omega arith, refl)
      | inr level ↦ rw level (w, ground arith, refl)
    ]

-- The votes are in, so the update finds them, and a checkpoint of each voter.
pub update_checkpoint_meta-total :
    (s : State) (n : ℕ) (d : Bytes) (voters : List ℕ)
    → WellFormed s
    → get s.checkpoint_votes (n, d) ≡ some voters
    → (cs : List CheckPoint) × (update_checkpoint_meta s n d
        ≡ some (record s {
          last_checkpoint_proof = cs;
          checkpoint_votes = [];
          checkpoints_current_round = [];
        }))
unfolding update_checkpoint_meta
update_checkpoint_meta-total s n d voters w h =
    let voted =
      get-Entries (CheckpointVotes s.checkpoints_current_round) s.checkpoint_votes (n, d) voters
        w.checkpoints h in
    let (cs, total) = proof_of-total s.checkpoints_current_round voters voted.1 in
    (cs, rw (h, total, update_checkpoint_meta))

settled-WellFormed :
    (s : State) (c : CheckPoint) (cs : List CheckPoint) (changing : Bool)
    → WellFormed s
    → c.committed_seq_num ≤ s.last_seq_num_committed
    → WellFormed (
        garbage_collect (record s {
          last_checkpoint_proof = cs;
          checkpoint_votes = [];
          checkpoints_current_round = [];
          last_stable_seq_num = c.committed_seq_num;
          in_view_change = changing;
          view = c.view;
        }))
unfolding garbage_collect p_bft.MessageBank.garbage_collect
settled-WellFormed s c cs changing w h = record {
  log = garbage_collect-Entries FiledProposal s.message_bank c.committed_seq_num w.log;
  prepares = w.prepares;
  commits = w.commits;
  checkpoints = tt;
  buffered = w.buffered;
  applied = w.applied;
  changes = w.changes;
  changers = w.changers;
  stable = h;
}

-- With the vote counted, and a checkpoint of each voter at hand, no `unwrap` fails, and the state
-- that is left is well formed.
pub stabilise-goes_on :
    (e : Consensus) (s : State) (c : CheckPoint) (voters : List ℕ)
    → WellFormed s
    → get s.checkpoint_votes (c.committed_seq_num, c.state_digest) ≡ some voters
    → (stabilise e s c ≢ panics) × After WellFormed (stabilise e s c)
unfolding stabilise
stabilise-goes_on e s c voters w h =
    let (w', level, same) = fast_forward-WellFormed s c w in
    let (cs, total) =
      update_checkpoint_meta-total (fast_forward s c) c.committed_seq_num c.state_digest voters w'
        (rw same h) in
    rw (total, stabilise) (λ p. cc, settled-WellFormed (fast_forward s c) c cs _ w' level)

-- One more vote for a checkpoint, from a node whose checkpoint is at hand.
abbrev pub vote : State → CheckPoint → List ℕ → State
vote s c voters = record s {
  checkpoint_votes =
      insert s.checkpoint_votes (c.committed_seq_num, c.state_digest)
        (HashSet.insert voters c.id).0;
}

vote-WellFormed :
    (s : State) (c : CheckPoint) (voters : List ℕ)
    → WellFormed s
    → HasCheckpoint s.checkpoints_current_round c.id
    → CheckpointVotes s.checkpoints_current_round (c.committed_seq_num, c.state_digest) voters
    → WellFormed (vote s c voters)
vote-WellFormed s c voters w h v =
    let round = s.checkpoints_current_round in
    let voted =
      insert-Entries (CheckpointVotes round) s.checkpoint_votes
        (c.committed_seq_num, c.state_digest) (HashSet.insert voters c.id).0 w.checkpoints
        (insert-IsDistinct voters c.id v.0, insert-HasCheckpoint round voters c.id h v.1) in
    ground arith

module _ (e : Consensus) (c : CheckPoint) (w : WellFormed e.state) where
  abbrev pub recorded : State
  recorded = record_checkpoint e.state c

  recorded-WellFormed : WellFormed recorded
  recorded-WellFormed = record_checkpoint-WellFormed e.state c w

  has : HasCheckpoint recorded.checkpoints_current_round c.id
  has = ground (arith, get-insert_self e.state.checkpoints_current_round c.id c)

  first_vote : WellFormed (vote recorded c [])
  unfolding IsDistinct
  first_vote = vote-WellFormed recorded c [] recorded-WellFormed has (tt, tt)

  pub later_vote :
      (voters : List ℕ)
      → get recorded.checkpoint_votes (c.committed_seq_num, c.state_digest) ≡ some voters
      → WellFormed (vote recorded c voters)
  later_vote voters h = vote-WellFormed recorded c voters recorded-WellFormed has (
      get-Entries (CheckpointVotes recorded.checkpoints_current_round) recorded.checkpoint_votes
        (c.committed_seq_num, c.state_digest) voters recorded-WellFormed.checkpoints h)

  -- A checkpoint is counted without a panic.
  pub on_accept_checkpoint-goes_on :
      (on_accept_checkpoint e c ≢ panics) × After WellFormed (on_accept_checkpoint e c)
  unfolding on_accept_checkpoint
  on_accept_checkpoint-goes_on =
      elim (Option-cases (get recorded.checkpoint_votes (c.committed_seq_num, c.state_digest))) [
        | inl n ↦ rw (n, on_accept_checkpoint) (λ p. cc, first_vote)
        | inr (voters, h) ↦
            rw (h, on_accept_checkpoint)
              (elim (Bool-cases
                (leb (2 * e.config.num_faulty) (length (HashSet.insert voters c.id).0))) [
                  | inl quorum ↦ rw quorum (
                      stabilise-goes_on e (vote recorded c voters) c _ (later_vote voters h)
                        (get-insert_self _ _ _))
                  | inr few ↦ rw few (λ p. cc, later_vote voters h)
                ])
      ]
