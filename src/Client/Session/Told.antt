-- ===== src/Client/Session/Told.antt =====
-- src/bin/pbft_client.rs: what the client prints comes from the answers.
use mathlib.Core.Path.{subst}
use p_bft.Base.{
  ℕ, ◌≡◌, refl, sym, Bool, true, false, Option, none, some, is_some, List, [], ◌∷◌, All, All-append,
  nat_eq, pair_eq, Option-cases, Bool-cases, inl, inr, length, ltb, if◌then◌else◌,
}
use p_bft.Collections.HashMap.{HashMap, Entries, get}
use p_bft.Collections.HashMap.Laws.{insert-Entries, get-Entries}
use p_bft.Messages.ClientResponse.{ClientResponse}
use p_bft.Messages.Message.{Message, client_response_message}
use p_bft.Client.{
  VoteCertificate, VoteCounter, collect, Counted, counted, fails, new_quorum, with_vote,
  count_response, read_response, panics, report,
}
use p_bft.Client.Session.{Session, on_certificate, on_answer, on_answers}
use p_bft.Client.Session.Prints.{
  on_answer-none, on_answer-some, on_certificate-again, on_certificate-first,
}

on_answer-fails :
    (s : Session) (m : Message) → read_response s.counter m ≡ fails → on_answer s m ≡ none
unfolding on_answer
on_answer-fails s m h = rw (h, on_answer) refl

on_certificate-panics :
    (s : Session) (ts : ℕ)
    → is_some (get s.succ_votes ts) ≡ false
    → on_certificate s (record { timestamp = ts; votes = [] }) ≡ none
unfolding on_certificate
on_certificate-panics s ts fresh =
    let r : report s.succ_votes (record { timestamp = ts; votes = [] }) ≡ panics =
      unfold report in rw fresh refl in
    rw (r, on_certificate) refl

-- `P` is what holds of the time stamp and the value of each answer.
module _ (P : ℕ → Option ℕ → Type 0) where
  abbrev pub AnswerOf : Message → Type 0
  AnswerOf (client_response_message r) = P r.time_stamp r.value
  AnswerOf _ = Unit {0}

  abbrev FiledAnswer : ℕ × ℕ → ClientResponse → Type 0
  FiledAnswer pair r = P pair.0 r.value

  abbrev Certifies : Option VoteCertificate → Type 0
  Certifies none = Unit {0}
  Certifies (some c) = All (λ r. P c.timestamp r.value) c.votes

  -- It holds of the answers counted, and of what was printed.
  pub record Told (s : Session) : Type 0 where
    pub filed : Entries FiledAnswer s.counter.votes
    pub printed : All (λ p. P p.0 p.1) s.printed

  abbrev Tells : Counted → Type 0
  Tells fails = Unit {0}
  Tells (counted w c) = Entries FiledAnswer w.votes × Certifies c

  abbrev pub ToldAfter : Option Session → Type 0
  ToldAfter none = Unit {0}
  ToldAfter (some s) = Told s

  -- The answers that are collected were filed.
  abbrev Collects : ℕ → Option (List ClientResponse) → Type 0
  Collects time_stamp none = Unit {0}
  Collects time_stamp (some rs) = All (λ r. P time_stamp r.value) rs

  collect-Collects :
      (votes : HashMap (ℕ × ℕ) ClientResponse) (time_stamp : ℕ) (ids : List ℕ)
      → Entries FiledAnswer votes
      → Collects time_stamp (collect votes time_stamp ids)
  unfolding collect
  collect-Collects votes time_stamp [] f = tt
  collect-Collects votes time_stamp (id ∷ ids) f =
      elim (Option-cases (get votes (time_stamp, id))) [
        | inl missing ↦ rw (missing, collect) tt
        | inr (r, k) ↦
            let here_ = get-Entries FiledAnswer votes (time_stamp, id) r f k in
            let rest = collect-Collects votes time_stamp ids f in
            elim (Option-cases (collect votes time_stamp ids)) [
              | inl failed ↦ rw (k, collect) (rw failed tt)
              | inr (rs, c) ↦ rw (k, collect) (rw c (here_, rw c at rest))
            ]
      ]

  count_response-Tells :
      (w : VoteCounter) (r : ClientResponse)
      → Entries FiledAnswer w.votes
      → P r.time_stamp r.value
      → Tells (count_response w r)
  unfolding count_response
  count_response-Tells w r f p =
      let filed = insert-Entries FiledAnswer w.votes (r.time_stamp, r.id) r f p in
      let told = collect-Collects (with_vote w r).votes r.time_stamp (new_quorum w r) filed in
      elim (Bool-cases (ltb w.vote_threshold (length (new_quorum w r)))) [
        | inr few ↦ rw few (filed, tt)
        | inl many ↦
            elim (Option-cases (collect (with_vote w r).votes r.time_stamp (new_quorum w r))) [
              | inl failed ↦ rw many (rw failed tt)
              | inr (rs, c) ↦ rw many (rw c (filed, rw c at told))
            ]
      ]

  if-Tells : (b : Bool) (c d : Counted) → Tells c → Tells d → Tells (if b then c else d)
  if-Tells true c d p q = p
  if-Tells false c d p q = q

  read_response-Tells :
      (w : VoteCounter) (m : Message)
      → Entries FiledAnswer w.votes
      → AnswerOf m
      → Tells (read_response w m)
  unfolding read_response
  read_response-Tells w (client_response_message r) f p =
      if-Tells r.success (count_response w r) (counted w none) (count_response-Tells w r f p)
        (f, tt)
  read_response-Tells w m f p = (f, tt)

  on_certificate-Told :
      (s : Session) (ts : ℕ) (rs : List ClientResponse)
      → Told s
      → All (λ r. P ts r.value) rs
      → ToldAfter (on_certificate s (record { timestamp = ts; votes = rs }))
  on_certificate-Told s ts rs t h = elim (Bool-cases (is_some (get s.succ_votes ts))) [
    | inl old ↦ subst ToldAfter (sym (on_certificate-again s _ old)) t
    | inr fresh ↦ printing rs h fresh
  ]
    where
      printing :
          (rs : List ClientResponse)
          → All (λ r. P ts r.value) rs
          → is_some (get s.succ_votes ts) ≡ false
          → ToldAfter (on_certificate s (record { timestamp = ts; votes = rs }))
      printing [] h fresh = subst ToldAfter (sym (on_certificate-panics s ts fresh)) tt
      printing (r ∷ rs) h fresh =
          subst ToldAfter (sym (on_certificate-first s ts r rs fresh)) (record {
            filed = t.filed;
            printed = All-append (λ p. P p.0 p.1) s.printed _ t.printed (h.0, tt);
          })

  on_answer-Told : (s : Session) (m : Message) → Told s → AnswerOf m → ToldAfter (on_answer s m)
  on_answer-Told s m t p =
      after (read_response s.counter m) refl (read_response-Tells s.counter m t.filed p)
    where
      after : (r : Counted) → read_response s.counter m ≡ r → Tells r → ToldAfter (on_answer s m)
      after fails h tells = subst ToldAfter (sym (on_answer-fails s m h)) tt
      after (counted w none) h tells =
          subst ToldAfter (sym (on_answer-none s m w h))
            (record { filed = tells.0; printed = t.printed })
      after (counted w (some c)) h tells = subst ToldAfter (sym (on_answer-some s m w c h)) (
          on_certificate-Told (record s { counter = w }) c.timestamp c.votes
            (record { filed = tells.0; printed = t.printed }) tells.1)

  -- What holds of all answers holds of all that is printed.
  pub on_answers-Told :
      (s : Session) (ms : List Message) → Told s → All AnswerOf ms → ToldAfter (on_answers s ms)
  unfolding on_answers
  on_answers-Told s [] t p = t
  on_answers-Told s (m ∷ ms) t p =
      let told = on_answer-Told s m t p.0 in
      elim (Option-cases (on_answer s m)) [
        | inl stopped ↦ rw (stopped, on_answers, ToldAfter) tt
        | inr (s', h) ↦ rw (h, on_answers, ToldAfter) (on_answers-Told s' ms (rw h at told) p.1)
      ]
