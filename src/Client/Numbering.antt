-- ===== src/Client/Numbering.antt =====
-- src/bin/pbft_client.rs: requests that carry different time stamps.
pub mod Lines
use p_bft.Base.{ℕ, ◌+◌, ◌≤◌, ◌<◌, ◌≡◌, ◌⊎◌, ap, sym, ◌∙◌, inl, inr, List, [], ◌∷◌, ◌++◌, Has, arith}
use p_bft.Collections.HashMap.{HashMap}
use p_bft.External.{SocketAddr}
use p_bft.Messages.ClientRequest.{ClientRequest}
use p_bft.Messages.Message.{Message, client_request_message}
use p_bft.Client.{broadcast_message}

abbrev pub Sends : Type 0
Sends = List (SocketAddr × Message)

broadcast_message-Has :
    (peers : HashMap ℕ SocketAddr) (m x : Message) (a : SocketAddr)
    → Has (a, x) (broadcast_message peers m)
    → m ≡ x
unfolding broadcast_message
broadcast_message-Has [] m x a h = elim h [ ]
broadcast_message-Has ((i, b) ∷ peers) m x a (inl e) = ap (λ p. p.1) e
broadcast_message-Has ((i, b) ∷ peers) m x a (inr h) = broadcast_message-Has peers m x a h

-- What is sent are requests with time stamps from `lo` on, below `hi`, and no two different requests have
-- one time stamp.
pub record Numbered (lo hi : ℕ) (sent : Sends) : Type 0 where
  pub within :
      (m : Message) (a : SocketAddr)
      → Has (a, m) sent
      → (r : ClientRequest) × (m ≡ client_request_message r)
        × (lo ≤ r.time_stamp)
        × (r.time_stamp < hi)
  pub unique :
      (r q : ClientRequest) (a b : SocketAddr)
      → Has (a, client_request_message r) sent
      → Has (b, client_request_message q) sent
      → r.time_stamp ≡ q.time_stamp
      → r ≡ q

client_request_message-injective :
    (r q : ClientRequest) → client_request_message r ≡ client_request_message q → r ≡ q
client_request_message-injective r q h = cc

Has-append : (x : SocketAddr × Message) (xs ys : Sends) → Has x (xs ++ ys) → Has x xs ⊎ Has x ys
Has-append x [] ys h = inr h
Has-append x (z ∷ xs) ys (inl e) = inl (inl e)
Has-append x (z ∷ xs) ys (inr h) = elim (Has-append x xs ys h) [
  | inl there ↦ inl (inr there)
  | inr later ↦ inr later
]

pub nothing-Numbered : (lo hi : ℕ) → Numbered lo hi []
nothing-Numbered lo hi = record {
  within = λ m a h. elim h [ ];
  unique = λ r q a b h k e. elim h [ ];
}

pub append-Numbered :
    (lo mid hi : ℕ) (xs ys : Sends)
    → lo ≤ mid
    → mid ≤ hi
    → Numbered lo mid xs
    → Numbered mid hi ys
    → Numbered lo hi (xs ++ ys)
append-Numbered lo mid hi xs ys low high p q = record {
  within = λ m a h. elim (Has-append (a, m) xs ys h) [
    | inl first ↦ let (r, e, l, u) = p.within m a first in (r, e, l, omega arith)
    | inr later ↦ let (r, e, l, u) = q.within m a later in (r, e, omega arith, u)
  ];
  unique = λ r s a b h k e. elim (Has-append (a, client_request_message r) xs ys h) [
    | inl h₁ ↦ elim (Has-append (b, client_request_message s) xs ys k) [
      | inl k₁ ↦ p.unique r s a b h₁ k₁ e
      | inr k₂ ↦ apart r s a b h₁ k₂ e
    ]
    | inr h₂ ↦ elim (Has-append (b, client_request_message s) xs ys k) [
      | inl k₁ ↦ sym (apart s r b a k₁ h₂ (sym e))
      | inr k₂ ↦ q.unique r s a b h₂ k₂ e
    ]
  ];
}
  where
    apart :
        (r s : ClientRequest) (a b : SocketAddr)
        → Has (a, client_request_message r) xs
        → Has (b, client_request_message s) ys
        → r.time_stamp ≡ s.time_stamp
        → r ≡ s
    apart r s a b h k e =
        let (r', i, _, low_r) = p.within (client_request_message r) a h in
        let (s', j, high_s, _) = q.within (client_request_message s) b k in
        let same_r = ap (λ x. x.time_stamp) (client_request_message-injective r r' i) in
        let same_s = ap (λ x. x.time_stamp) (client_request_message-injective s s' j) in
        absurd (omega (arith, same_r, same_s))

pub broadcast-Numbered :
    (peers : HashMap ℕ SocketAddr) (r : ClientRequest) (lo hi : ℕ)
    → r.time_stamp ≡ lo
    → hi ≡ lo + 1
    → Numbered lo hi (broadcast_message peers (client_request_message r))
broadcast-Numbered peers r lo hi e f = record {
  within = λ m a h. (
    r,
    sym (broadcast_message-Has peers (client_request_message r) m a h),
    omega arith,
    omega arith,
  );
  unique = λ q s a b h k _. client_request_message-injective q s (
      sym (broadcast_message-Has peers (client_request_message r) _ a h)
      ∙ broadcast_message-Has peers (client_request_message r) _ b k);
}
