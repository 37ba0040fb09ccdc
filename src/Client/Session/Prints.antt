-- ===== src/Client/Session/Prints.antt =====
-- src/bin/pbft_client.rs: what the client prints, against the answers that came in.
use p_bft.Base.{
  ℕ, ◌+◌, ◌≡◌, ◌<◌, ◌↔◌, refl, ap, ◌∙◌, inl, inr, true, false, ◌&&◌, none, some, is_some, List, [],
  ◌∷◌, ◌++◌, length, nat_beq, nat_beq_iff, nat_eq, pair_eq, arith, Bool-cases, if◌then◌else◌,
}
use p_bft.Collections.HashMap.{get, insert, keys}
use p_bft.Collections.HashSet
use p_bft.Collections.HashSet.{HashSet, contains}
use p_bft.Collections.HashSet.Laws.{IsDistinct}
use p_bft.Messages.ClientResponse.{ClientResponse}
use p_bft.Messages.Message.{Message, client_response_message}
use p_bft.Main.{num_faulty_of}
use p_bft.Client.{
  VoteCertificate, VoteCounter, counted, quorum_at, with_vote, count_response, read_response,
  passed_over, prints, report,
}
use p_bft.Client.Session.{Session, started, on_certificate, on_answer, on_answers}
use p_bft.Client.Session.Exact.{
  Exact, quorum_at-with_vote, count_response-cases, with_vote-Tallied, few-Exact, again-Exact,
  first-Exact,
}

-- The nodes that answered a time stamp with success so far, with one more message.
abbrev pub answer_at : ℕ → HashSet ℕ → Message → HashSet ℕ
answer_at t ids (client_response_message r) =
    if r.success && nat_beq r.time_stamp t then (HashSet.insert ids r.id).0 else ids
answer_at t ids m = ids

-- The nodes that answered a time stamp with success, each once.
unfoldable pub answered : ℕ → HashSet ℕ → List Message → HashSet ℕ
answered t ids [] = ids
answered t ids (m ∷ ms) = answered t (answer_at t ids m) ms

-- The session after a message: it goes on, in order, with the answer counted.
abbrev Goes : Session → Message → Type 0
Goes s m =
    (s' : Session) × (on_answer s m ≡ some s')
    × Exact s'
    × (s'.counter.vote_threshold ≡ s.counter.vote_threshold)
    × ((t : ℕ) → quorum_at s'.counter t ≡ answer_at t (quorum_at s.counter t) m)

with_vote-answer_at :
    (w : VoteCounter) (r : ClientResponse) (t : ℕ)
    → r.success ≡ true
    → quorum_at (with_vote w r) t ≡ answer_at t (quorum_at w t) (client_response_message r)
with_vote-answer_at w r t s = ground (arith, quorum_at-with_vote w r t, nat_beq_iff r.time_stamp t)

pub on_answer-none :
    (s : Session) (m : Message) (w : VoteCounter)
    → read_response s.counter m ≡ counted w none
    → on_answer s m ≡ some (record s { counter = w })
unfolding on_answer
on_answer-none s m w h = rw (h, on_answer) refl

pub on_answer-some :
    (s : Session) (m : Message) (w : VoteCounter) (c : VoteCertificate)
    → read_response s.counter m ≡ counted w (some c)
    → on_answer s m ≡ on_certificate (record s { counter = w }) c
unfolding on_answer
on_answer-some s m w c h = rw (h, on_answer) refl

pub on_certificate-again :
    (s : Session) (c : VoteCertificate)
    → is_some (get s.succ_votes c.timestamp) ≡ true
    → on_certificate s c ≡ some s
unfolding on_certificate
on_certificate-again s c h =
    let r : report s.succ_votes c ≡ passed_over = unfold report in rw h refl in
    rw (r, on_certificate) refl

pub on_certificate-first :
    (s : Session) (ts : ℕ) (x : ClientResponse) (xs : List ClientResponse)
    → is_some (get s.succ_votes ts) ≡ false
    → on_certificate s (record { timestamp = ts; votes = x ∷ xs })
      ≡ some (record s {
        succ_votes = insert s.succ_votes ts (record { timestamp = ts; votes = x ∷ xs });
        printed = s.printed ++ (ts, x.value) ∷ [];
      })
unfolding on_certificate
on_certificate-first s ts x xs h =
    let c : VoteCertificate = record { timestamp = ts; votes = x ∷ xs } in
    let r : report s.succ_votes c ≡ prints (insert s.succ_votes ts c) x.value =
      unfold report in rw h refl in
    rw (r, on_certificate) refl

on_success-Goes :
    (s : Session) (r : ClientResponse)
    → Exact s
    → r.success ≡ true
    → Goes s (client_response_message r)
on_success-Goes s r e ok =
    let read : read_response s.counter (client_response_message r) ≡ count_response s.counter r =
      unfold read_response in rw ok refl in
    elim (count_response-cases s.counter r e.tallied ok) [
      | inl (few, h) ↦ (
        record s { counter = with_vote s.counter r },
        on_answer-none s _ _ (read ∙ h),
        few-Exact s r e (with_vote-Tallied s.counter r none e.tallied ok h) few,
        refl,
        λ t. with_vote-answer_at s.counter r t ok,
      )
      | inr (many, x, xs, h) ↦
          let c : VoteCertificate = record { timestamp = r.time_stamp; votes = x ∷ xs } in
          let tallied = with_vote-Tallied s.counter r (some c) e.tallied ok h in
          elim (Bool-cases (is_some (get s.succ_votes r.time_stamp))) [
            | inl old ↦ (
              record s { counter = with_vote s.counter r },
              on_answer-some s _ _ c (read ∙ h) ∙ on_certificate-again _ c old,
              again-Exact s r e tallied many old,
              refl,
              λ t. with_vote-answer_at s.counter r t ok,
            )
            | inr fresh ↦ (
              record {
                counter = with_vote s.counter r;
                succ_votes = insert s.succ_votes r.time_stamp c;
                printed = s.printed ++ (r.time_stamp, x.value) ∷ [];
              },
              on_answer-some s _ _ c (read ∙ h) ∙ on_certificate-first _ r.time_stamp x xs fresh,
              first-Exact s r c x.value e tallied many fresh,
              refl,
              λ t. with_vote-answer_at s.counter r t ok,
            )
          ]
    ]

on_failure-Goes :
    (s : Session) (r : ClientResponse)
    → Exact s
    → r.success ≡ false
    → Goes s (client_response_message r)
on_failure-Goes s r e bad = (
  s,
  on_answer-none s (client_response_message r) s.counter (unfold read_response in rw bad refl),
  e,
  refl,
  λ t. rw bad refl,
)

on_answer-Goes : (s : Session) (m : Message) → Exact s → Goes s m
on_answer-Goes s (client_response_message r) e = elim (Bool-cases r.success) [
  | inl ok ↦ on_success-Goes s r e ok
  | inr bad ↦ on_failure-Goes s r e bad
]
on_answer-Goes s m e = (s, unfold on_answer read_response in refl, e, refl, λ t. refl)

-- The session after all messages, and the nodes counted in it.
abbrev Ends : Session → List Message → Type 0
Ends s ms =
    (s' : Session) × (on_answers s ms ≡ some s')
    × Exact s'
    × (s'.counter.vote_threshold ≡ s.counter.vote_threshold)
    × ((t : ℕ) → quorum_at s'.counter t ≡ answered t (quorum_at s.counter t) ms)

on_answers-Ends : (s : Session) (ms : List Message) → Exact s → Ends s ms
unfolding on_answers answered
on_answers-Ends s [] e = (s, refl, e, refl, λ t. refl)
on_answers-Ends s (m ∷ ms) e =
    let (s₁, h, e₁, k₁, q₁) = on_answer-Goes s m e in
    let (s₂, g, e₂, k₂, q₂) = on_answers-Ends s₁ ms e₁ in
    (s₂, rw (h, on_answers) g, e₂, k₂ ∙ k₁, λ t. q₂ t ∙ ap (λ ids. answered t ids ms) (q₁ t))

started-Exact : (num_nodes : ℕ) → Exact (started num_nodes)
unfolding IsDistinct contains get
started-Exact num_nodes = record {
  tallied = record { quorums = tt; filed = tt };
  once = tt;
  reported = λ t. refl;
  enough = λ t. ground arith;
}

-- Whatever messages come in, in whatever order and however often, the client does not panic on them,
-- and prints exactly the time stamps that more than `f + 1` different nodes have answered with success,
-- each once, where `f` is a third of the nodes but one, rounded down.
pub prints_exactly :
    (num_nodes : ℕ) (ms : List Message)
    → (s : Session) × (on_answers (started num_nodes) ms ≡ some s)
      × IsDistinct (keys s.printed)
      × ((t : ℕ)
          → (contains (keys s.printed) t ≡ true)
            ↔ (num_faulty_of num_nodes + 1 < length (answered t [] ms)))
unfolding get
prints_exactly num_nodes ms =
    let (s, h, e, k, q) = on_answers-Ends (started num_nodes) ms (started-Exact num_nodes) in
    (s, h, e.once, λ t. ground (arith, e.enough t, k, q t))
