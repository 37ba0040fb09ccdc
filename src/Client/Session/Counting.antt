-- ===== src/Client/Session/Counting.antt =====
-- src/bin/pbft_client.rs: what the vote counter makes of one answer.
use p_bft.Base.{
  ℕ, ◌≡◌, refl, ◌∙◌, inl, inr, Bool, true, false, ◌&&◌, ◌||◌, Option, none, nat_beq, nat_beq_iff,
  nat_eq, pair_eq, arith, Bool-cases,
}
use p_bft.Collections.HashSet.{contains}
use p_bft.Collections.HashSet.Laws.{contains-insert}
use p_bft.Messages.ClientResponse.{ClientResponse}
use p_bft.Messages.Message.{Message, client_response_message}
use p_bft.Client.{
  VoteCertificate, VoteCounter, counted, quorum_at, with_vote, count_response, read_response,
}
use p_bft.Client.Votes.{Tallied, Counts, read_response-Counts}
use p_bft.Client.Session.Exact.{quorum_at-with_vote, count_response-cases}

-- The message is a success for the time stamp, and names the node.
abbrev pub answers : Message → ℕ → ℕ → Bool
answers (client_response_message r) time_stamp id =
    r.success && (nat_beq r.time_stamp time_stamp && nat_beq r.id id)
answers m time_stamp id = false

-- The voters of every time stamp are those from before, and the one that answers.
abbrev pub CountsVoter : VoteCounter → Message → VoteCounter → Type 0
CountsVoter w m w' =
    (t id : ℕ) → contains (quorum_at w' t) id ≡ (answers m t id || contains (quorum_at w t) id)

with_vote-CountsVoter :
    (w : VoteCounter) (r : ClientResponse)
    → r.success ≡ true
    → CountsVoter w (client_response_message r) (with_vote w r)
with_vote-CountsVoter w r ok t id = ground (
  arith,
  quorum_at-with_vote w r t,
  contains-insert (quorum_at w r.time_stamp) r.id id,
  nat_beq_iff r.time_stamp t,
)

read-cases :
    (w : VoteCounter) (m : Message)
    → Tallied w
    → (w' : VoteCounter) × (c : Option VoteCertificate) × (read_response w m ≡ counted w' c)
      × CountsVoter w m w'
unfolding read_response
read-cases w (client_response_message r) t = elim (Bool-cases r.success) [
  | inr bad ↦ (w, none, rw bad refl, λ u id. rw bad refl)
  | inl ok ↦
      let read : read_response w (client_response_message r) ≡ count_response w r = rw ok refl in
      elim (count_response-cases w r t ok) [
        | inl (few, h) ↦ (with_vote w r, none, read ∙ h, with_vote-CountsVoter w r ok)
        | inr (many, x, xs, h) ↦ (with_vote w r, _, read ∙ h, with_vote-CountsVoter w r ok)
      ]
]
read-cases w m t = (w, none, refl, λ u id. refl)

-- If the vote counter is in order, no message makes the client panic. The counter is in order again with
-- its threshold unchanged; a success is counted once for the node that it names, under its time stamp,
-- next to the voters from before, and nothing else is counted; and a certificate that is sent holds
-- successes for one time stamp that name more distinct nodes than the threshold.
pub read_response-CountsVoter :
    (w : VoteCounter) (m : Message)
    → Tallied w
    → (w' : VoteCounter) × (c : Option VoteCertificate) × (read_response w m ≡ counted w' c)
      × CountsVoter w m w'
      × Counts w.vote_threshold (counted w' c)
read_response-CountsVoter w m t =
    let (w', c, read, voters) = read-cases w m t in
    let kept : Counts w.vote_threshold (counted w' c) = rw read at (read_response-Counts w m t) in
    (w', c, read, voters, kept)
