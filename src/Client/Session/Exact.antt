-- ===== src/Client/Session/Exact.antt =====
-- src/bin/pbft_client.rs: the vote counter and what was printed, through one answer.
use p_bft.Base.{
  ℕ, ◌≡◌, ◌≤◌, ◌⊎◌, refl, sym, ap, ◌∙◌, inl, inr, true, false, ◌||◌, Option, none, some, is_some,
  List, [], ◌∷◌, ◌++◌, length, ltb, nat_beq, nat_beq_iff, nat_eq, pair_eq, arith, Bool-cases,
  if◌then◌else◌,
}
use p_bft.Collections.HashMap.{HashMap, get, insert, keys}
use p_bft.Collections.HashMap.Laws.{get-insert}
use p_bft.Collections.HashSet.{contains}
use p_bft.Collections.HashSet.Laws.{IsDistinct, contains-snoc, IsDistinct-snoc, length-insert}
use p_bft.Messages.ClientResponse.{ClientResponse}
use p_bft.Client.{
  VoteCertificate, VoteCounter, counted, quorum_at, new_quorum, with_vote, count_response,
}
use p_bft.Client.Votes.{Tallied, Counts, count_response-Counts, collect-new}
use p_bft.Client.Session.{Session}

-- The counter is in order, and exactly the time stamps with enough answers are printed, each once.
pub record Exact (s : Session) : Type 0 where
  pub tallied : Tallied s.counter
  pub once : IsDistinct (keys s.printed)
  pub reported : (t : ℕ) → is_some (get s.succ_votes t) ≡ contains (keys s.printed) t
  pub enough :
      (t : ℕ)
      → contains (keys s.printed) t ≡ ltb s.counter.vote_threshold (length (quorum_at s.counter t))

pub quorum_at-with_vote :
    (w : VoteCounter) (r : ClientResponse) (t : ℕ)
    → quorum_at (with_vote w r) t
      ≡ (if nat_beq r.time_stamp t then new_quorum w r else quorum_at w t)
quorum_at-with_vote w r t =
    ground (arith, get-insert w.success_vote_quorum r.time_stamp t (new_quorum w r))

-- A certificate has an answer in it.
certificate-nonempty :
    (w w' : VoteCounter) (r : ClientResponse) (ts : ℕ) (rs : List ClientResponse)
    → Tallied w
    → r.success ≡ true
    → count_response w r ≡ counted w' (some (record { timestamp = ts; votes = rs }))
    → (x : ClientResponse) × (xs : List ClientResponse) × (rs ≡ x ∷ xs)
certificate-nonempty w w' r ts (x ∷ xs) t s h = (x, xs, refl)
certificate-nonempty w w' r ts [] t s h = absurd (
    let c : Counts w.vote_threshold (counted w' (some (record { timestamp = ts; votes = [] }))) =
      rw h at (count_response-Counts w r t s) in
    omega (arith, c.2.0))

pub count_response-cases :
    (w : VoteCounter) (r : ClientResponse)
    → Tallied w
    → r.success ≡ true
    → ((ltb w.vote_threshold (length (new_quorum w r)) ≡ false)
        × (count_response w r ≡ counted (with_vote w r) none))
      ⊎ ((ltb w.vote_threshold (length (new_quorum w r)) ≡ true)
          × (x : ClientResponse) × (rs : List ClientResponse) × (count_response w r
              ≡ counted
                  (with_vote w r)
                  (some (record { timestamp = r.time_stamp; votes = x ∷ rs }))))
unfolding count_response
count_response-cases w r t s = elim (Bool-cases (ltb w.vote_threshold (length (new_quorum w r)))) [
  | inr few ↦ inl (few, rw few refl)
  | inl many ↦
      let (rs, c) = collect-new w r t s in
      let e : count_response w r
          ≡ counted (with_vote w r) (some (record { timestamp = r.time_stamp; votes = rs })) =
        rw many (rw c refl) in
      let (x, xs, is) = certificate-nonempty w (with_vote w r) r r.time_stamp rs t s e in
      inr (many, x, xs, rw is at e)
]

-- The counter goes on in order.
pub with_vote-Tallied :
    (w : VoteCounter) (r : ClientResponse) (c : Option VoteCertificate)
    → Tallied w
    → r.success ≡ true
    → count_response w r ≡ counted (with_vote w r) c
    → Tallied (with_vote w r)
with_vote-Tallied w r c t s h =
    let k : Counts w.vote_threshold (counted (with_vote w r) c) =
      rw h at (count_response-Counts w r t s) in
    k.0

new_quorum-larger :
    (w : VoteCounter) (r : ClientResponse)
    → length (quorum_at w r.time_stamp) ≤ length (new_quorum w r)
new_quorum-larger w r = ground (arith, length-insert (quorum_at w r.time_stamp) r.id)

-- An answer that completes no certificate.
pub few-Exact :
    (s : Session) (r : ClientResponse)
    → Exact s
    → Tallied (with_vote s.counter r)
    → ltb s.counter.vote_threshold (length (new_quorum s.counter r)) ≡ false
    → Exact (record s { counter = with_vote s.counter r })
few-Exact s r e t few = record {
  tallied = t;
  once = e.once;
  reported = e.reported;
  enough = λ u. ground (
    arith,
    e.enough u,
    quorum_at-with_vote s.counter r u,
    nat_beq_iff r.time_stamp u,
    new_quorum-larger s.counter r,
  );
}

-- A certificate for a time stamp that was printed.
pub again-Exact :
    (s : Session) (r : ClientResponse)
    → Exact s
    → Tallied (with_vote s.counter r)
    → ltb s.counter.vote_threshold (length (new_quorum s.counter r)) ≡ true
    → is_some (get s.succ_votes r.time_stamp) ≡ true
    → Exact (record s { counter = with_vote s.counter r })
again-Exact s r e t many old = record {
  tallied = t;
  once = e.once;
  reported = e.reported;
  enough = λ u. ground (
    arith,
    e.enough u,
    e.reported r.time_stamp,
    quorum_at-with_vote s.counter r u,
    nat_beq_iff r.time_stamp u,
  );
}

keys-snoc :
    (m : HashMap ℕ (Option ℕ)) (t : ℕ) (v : Option ℕ) → keys (m ++ (t, v) ∷ []) ≡ keys m ++ t ∷ []
keys-snoc [] t v = refl
keys-snoc (x ∷ m) t v = ap (λ ks. x.0 ∷ ks) (keys-snoc m t v)

contains-printed :
    (m : HashMap ℕ (Option ℕ)) (t u : ℕ) (v : Option ℕ)
    → contains (keys (m ++ (t, v) ∷ [])) u ≡ (nat_beq t u || contains (keys m) u)
contains-printed m t u v = rw keys-snoc (contains-snoc (keys m) t u)

-- A certificate for a time stamp that was not printed.
pub first-Exact :
    (s : Session) (r : ClientResponse) (c : VoteCertificate) (v : Option ℕ)
    → Exact s
    → Tallied (with_vote s.counter r)
    → ltb s.counter.vote_threshold (length (new_quorum s.counter r)) ≡ true
    → is_some (get s.succ_votes r.time_stamp) ≡ false
    → Exact (record {
      counter = with_vote s.counter r;
      succ_votes = insert s.succ_votes r.time_stamp c;
      printed = s.printed ++ (r.time_stamp, v) ∷ [];
    })
first-Exact s r c v e t many fresh = record {
  tallied = t;
  once = rw keys-snoc (
      IsDistinct-snoc (keys s.printed) r.time_stamp (sym (e.reported r.time_stamp) ∙ fresh) e.once);
  reported = λ u. ground (
    arith,
    e.reported u,
    contains-printed s.printed r.time_stamp u v,
    get-insert s.succ_votes r.time_stamp u c,
    nat_beq_iff r.time_stamp u,
  );
  enough = λ u. ground (
    arith,
    e.enough u,
    contains-printed s.printed r.time_stamp u v,
    quorum_at-with_vote s.counter r u,
    nat_beq_iff r.time_stamp u,
  );
}
