-- ===== src/Client/Votes.antt =====
-- src/bin/pbft_client.rs: the vote counter's invariant, and what a certificate holds.
use p_bft.Base.{
  ℕ, ◌≡◌, ◌<◌, ◌∷◌, [], refl, ap, Bool, true, false, Option, none, some, is_some, List, length, map,
  All, All-append, arith, nat_eq, pair_eq, Option-cases, Bool-cases, inl, inr, ltb, if◌then◌else◌,
}
use p_bft.Collections.HashMap.{HashMap, Entries, get, insert}
use p_bft.Collections.HashMap.Laws.{insert-Entries, get-Entries, get-insert_self}
use p_bft.Collections.HashMap.Keys.{get-insert-is_some}
use p_bft.Collections.HashSet
use p_bft.Collections.HashSet.{HashSet}
use p_bft.Collections.HashSet.Laws.{IsDistinct, insert-IsDistinct}
use p_bft.Messages.ClientResponse.{ClientResponse}
use p_bft.Messages.Message.{Message, client_response_message}
use p_bft.Client.{
  VoteCertificate, VoteCounter, collect, Counted, counted, fails, quorum_at, new_quorum,
  count_response, read_response,
}

-- the answer of this node at this time stamp is on record
abbrev pub HasVote : HashMap (ℕ × ℕ) ClientResponse → ℕ → ℕ → Type 0
HasVote votes time_stamp id = is_some (get votes (time_stamp, id)) ≡ true

abbrev pub QuorumOf : HashMap (ℕ × ℕ) ClientResponse → ℕ → HashSet ℕ → Type 0
QuorumOf votes time_stamp ids = IsDistinct ids × All (HasVote votes time_stamp) ids

abbrev pub FiledResponse : ℕ × ℕ → ClientResponse → Type 0
FiledResponse pair r = ((r.time_stamp, r.id) ≡ pair) × (r.success ≡ true)

pub record Tallied (w : VoteCounter) : Type 0 where
  pub quorums : Entries (QuorumOf w.votes) w.success_vote_quorum
  pub filed : Entries FiledResponse w.votes

abbrev pub ids_of : List ClientResponse → List ℕ
ids_of = map (λ r. r.id)

-- The answers of a certificate are successes for its time stamp, from more distinct nodes than the
-- threshold.
abbrev pub Sound : ℕ → Option VoteCertificate → Type 0
Sound threshold none = Unit {0}
Sound threshold (some c) =
    (threshold < length (ids_of c.votes))
    × IsDistinct (ids_of c.votes)
    × All (λ r. (r.time_stamp ≡ c.timestamp) × (r.success ≡ true)) c.votes

collect-total :
    (votes : HashMap (ℕ × ℕ) ClientResponse) (time_stamp : ℕ) (ids : List ℕ)
    → Entries FiledResponse votes
    → All (HasVote votes time_stamp) ids
    → (rs : List ClientResponse) × (collect votes time_stamp ids ≡ some rs)
      × (ids_of rs ≡ ids)
      × All (λ r. (r.time_stamp ≡ time_stamp) × (r.success ≡ true)) rs
unfolding collect
collect-total votes time_stamp [] f h = ([], refl, refl, tt)
collect-total votes time_stamp (id ∷ ids) f h =
    let (rs, c, i, a) = collect-total votes time_stamp ids f h.1 in
    elim (Option-cases (get votes (time_stamp, id))) [
      | inl n ↦ absurd (let b : false ≡ true = rw n at h.0 in cc)
      | inr (r, k) ↦
          let (filed, success) = get-Entries FiledResponse votes (time_stamp, id) r f k in
          (r ∷ rs, rw (k, collect) (rw c refl), cc, ((ap (λ x. x.0) filed, success), a))
    ]

HasVote-insert :
    (votes : HashMap (ℕ × ℕ) ClientResponse) (r : ClientResponse) (time_stamp : ℕ) (ids : List ℕ)
    → All (HasVote votes time_stamp) ids
    → All (HasVote (insert votes (r.time_stamp, r.id) r) time_stamp) ids
HasVote-insert votes r time_stamp [] h = tt
HasVote-insert votes r time_stamp (id ∷ ids) h = (
  get-insert-is_some votes (r.time_stamp, r.id) (time_stamp, id) r h.0,
  HasVote-insert votes r time_stamp ids h.1,
)

QuorumOf-insert :
    (votes : HashMap (ℕ × ℕ) ClientResponse) (r : ClientResponse) (q : HashMap ℕ (HashSet ℕ))
    → Entries (QuorumOf votes) q
    → Entries (QuorumOf (insert votes (r.time_stamp, r.id) r)) q
QuorumOf-insert votes r [] h = tt
QuorumOf-insert votes r ((t, ids) ∷ q) h =
    ((h.0.0, HasVote-insert votes r t ids h.0.1), QuorumOf-insert votes r q h.1)

quorum_at-QuorumOf :
    (w : VoteCounter) (time_stamp : ℕ)
    → Tallied w
    → QuorumOf w.votes time_stamp (quorum_at w time_stamp)
unfolding IsDistinct
quorum_at-QuorumOf w time_stamp t = elim (Option-cases (get w.success_vote_quorum time_stamp)) [
  | inl n ↦ rw (n, quorum_at) (tt, tt)
  | inr (q, k) ↦
      rw (k, quorum_at)
        (get-Entries (QuorumOf w.votes) w.success_vote_quorum time_stamp q t.quorums k)
]

-- The quorum with one more voter, whose answer is on record now.
All-insert :
    (P : ℕ → Type 0) (s : HashSet ℕ) (id : ℕ) → All P s → P id → All P (HashSet.insert s id).0
unfolding HashSet.insert
All-insert P s id h p = elim (Bool-cases (HashSet.contains s id)) [
  | inl y ↦ rw y h
  | inr n ↦ rw n (All-append P s (id ∷ []) h (p, tt))
]

new_quorum-QuorumOf :
    (w : VoteCounter) (r : ClientResponse)
    → Tallied w
    → QuorumOf (insert w.votes (r.time_stamp, r.id) r) r.time_stamp (new_quorum w r)
new_quorum-QuorumOf w r t =
    let (d, h) = quorum_at-QuorumOf w r.time_stamp t in
    (
      insert-IsDistinct (quorum_at w r.time_stamp) r.id d,
      All-insert _ (quorum_at w r.time_stamp) r.id
          (HasVote-insert w.votes r r.time_stamp (quorum_at w r.time_stamp) h)
          (ap is_some (get-insert_self w.votes (r.time_stamp, r.id) r)),
    )

-- The answers of the new quorum are all on record.
pub collect-new :
    (w : VoteCounter) (r : ClientResponse)
    → Tallied w
    → r.success ≡ true
    → (rs : List ClientResponse) × (collect
          (insert w.votes (r.time_stamp, r.id) r)
          r.time_stamp
          (new_quorum w r)
        ≡ some rs)
collect-new w r t s =
    let filed = insert-Entries FiledResponse w.votes (r.time_stamp, r.id) r t.filed (refl, s) in
    let (rs, c, _, _) =
      collect-total (insert w.votes (r.time_stamp, r.id) r) r.time_stamp (new_quorum w r) filed
        (new_quorum-QuorumOf w r t).1 in
    (rs, c)

-- Counting goes on, and keeps the invariant; a certificate that it sends is sound.
abbrev pub Counts : ℕ → Counted → Type 0
Counts threshold fails = ⊥
Counts threshold (counted w c) = Tallied w × (w.vote_threshold ≡ threshold) × Sound threshold c

pub count_response-Counts :
    (w : VoteCounter) (r : ClientResponse)
    → Tallied w
    → r.success ≡ true
    → Counts w.vote_threshold (count_response w r)
unfolding count_response
count_response-Counts w r t s =
    let q = new_quorum w r in
    let votes = insert w.votes (r.time_stamp, r.id) r in
    let quorum = new_quorum-QuorumOf w r t in
    let filed = insert-Entries FiledResponse w.votes (r.time_stamp, r.id) r t.filed (refl, s) in
    let quorums =
      insert-Entries (QuorumOf votes) w.success_vote_quorum r.time_stamp q
        (QuorumOf-insert w.votes r w.success_vote_quorum t.quorums) quorum in
    let (rs, c, i, a) = collect-total votes r.time_stamp q filed quorum.1 in
    elim (Bool-cases (ltb w.vote_threshold (length q))) [
      | inl y ↦
          let large : w.vote_threshold < length q = ground arith in
          rw y (
            rw c
              (record { quorums = quorums; filed = filed }, refl, (rw i large, rw i quorum.0, a)))
      | inr n ↦ rw n (record { quorums = quorums; filed = filed }, refl, tt)
    ]

guarded-Counts :
    (w : VoteCounter) (c : Counted) (b : Bool)
    → Tallied w
    → (b ≡ true → Counts w.vote_threshold c)
    → Counts w.vote_threshold (if b then c else counted w none)
guarded-Counts w c true t h = h refl
guarded-Counts w c false t h = (t, refl, tt)

-- If the vote counter is in order, no message makes the client panic: the counter is in order again with
-- its threshold unchanged, and a certificate that is sent is sound.
pub read_response-Counts :
    (w : VoteCounter) (m : Message) → Tallied w → Counts w.vote_threshold (read_response w m)
unfolding read_response
read_response-Counts w (client_response_message r) t =
    guarded-Counts w (count_response w r) r.success t (count_response-Counts w r t)
read_response-Counts w m t = (t, refl, tt)
