-- ===== src/Views/Survival.antt =====
-- src/consensus.rs, `AcceptViewChange`: what was reported, and what the new leader lists.
use Prim.Native.Nat.{max}
use mathlib.Core.Path.{subst}
use p_bft.Base.{
  ℕ, zero, suc, ◌+◌, ◌-◌, ◌≤◌, ◌<◌, ◌≡◌, refl, ap, ◌⊎◌, inl, inr, Option, none, some, List, [], ◌∷◌,
  Bool-cases, arith, nat_eq, nat_beq, nat_beq_iff, ℕ_discrete, ltb, incr, usize_mod, Option-cases,
}
use p_bft.Collections.HashMap.{get}
use p_bft.External.{External}
use p_bft.Messages.ClientRequest.{ClientRequest}
use p_bft.Messages.PrePrepare.{PrePrepare, new_with_signature}
use p_bft.Messages.Prepare.{Prepare}
use p_bft.Messages.ViewChange.{ViewChange, Prepared}
use p_bft.Consensus.Defs.{Consensus}
use p_bft.Consensus.Changes.{
  latest_stable, max_key, max_seq, better, highest_view_at, request_at, outstanding_from,
  outstanding,
}

-- one of the view changes reports `p` at the sequence number
abbrev pub Reported : List ViewChange → ℕ → PrePrepare → Type 0
Reported [] n p = ⊥
Reported (v ∷ vs) n p =
    ((votes : List Prepare) × (get v.subsequent_prepares n ≡ some (p, votes))) ⊎ Reported vs n p

-- the list has a pre-prepare of the view for the request, at the sequence number
abbrev pub Lists : List PrePrepare → ℕ → ℕ → ClientRequest → Type 0
Lists [] view n r = ⊥
Lists (p ∷ ps) view n r =
    ((p.view ≡ view) × (p.seq_num ≡ n) × (p.client_request ≡ r)) ⊎ Lists ps view n r

-- a pre-prepare of a view from `view` on
abbrev AtLeast : ℕ → Option PrePrepare → Type 0
AtLeast view none = ⊥
AtLeast view (some p) = view ≤ p.view

better-left :
    (view : ℕ) (best : Option PrePrepare) (o : Option (PrePrepare × List Prepare))
    → AtLeast view best
    → AtLeast view (better best o)
unfolding better
better-left view none o h = absurd h
better-left view (some b) none h = h
better-left view (some b) (some (p, votes)) h = ground arith

better-right :
    (best : Option PrePrepare) (p : PrePrepare) (votes : List Prepare)
    → AtLeast p.view (better best (some (p, votes)))
unfolding better
better-right none p votes = omega arith
better-right (some b) p votes = ground arith

highest_view_at-best :
    (n view : ℕ) (vs : List ViewChange) (best : Option PrePrepare)
    → AtLeast view best
    → AtLeast view (highest_view_at n vs best)
unfolding highest_view_at
highest_view_at-best n view [] best h = h
highest_view_at-best n view (v ∷ vs) best h =
    highest_view_at-best n view vs (better best (get v.subsequent_prepares n))
      (better-left view best (get v.subsequent_prepares n) h)

-- The choice is of a view at least that of each report.
highest_view_at-Reported :
    (n : ℕ) (vs : List ViewChange) (best : Option PrePrepare) (p : PrePrepare)
    → Reported vs n p
    → AtLeast p.view (highest_view_at n vs best)
unfolding highest_view_at
highest_view_at-Reported n [] best p h = absurd h
highest_view_at-Reported n (v ∷ vs) best p (inl (votes, e)) =
    rw (e, highest_view_at)
      (highest_view_at-best n p.view vs (better best (some (p, votes))) (better-right best p votes))
highest_view_at-Reported n (v ∷ vs) best p (inr h) =
    highest_view_at-Reported n vs (better best (get v.subsequent_prepares n)) p h

better_cases :
    (best : Option PrePrepare) (o : Option (PrePrepare × List Prepare)) (q : PrePrepare)
    → better best o ≡ some q
    → (best ≡ some q) ⊎ ((votes : List Prepare) × (o ≡ some (q, votes)))
unfolding better
better_cases none none q h = inl h
better_cases none (some (p, votes)) q h = inr (votes, ground arith)
better_cases (some b) none q h = inl h
better_cases (some b) (some (p, votes)) q h = elim (Bool-cases (ltb b.view p.view)) [
  | inl later ↦ inr (votes, ground arith)
  | inr not_later ↦ inl (ground arith)
]

-- And it is one of the reports, or the one that the search began with.
highest_view_at-from :
    (n : ℕ) (vs : List ViewChange) (best : Option PrePrepare) (q : PrePrepare)
    → highest_view_at n vs best ≡ some q
    → (best ≡ some q) ⊎ Reported vs n q
unfolding highest_view_at
highest_view_at-from n [] best q h = inl h
highest_view_at-from n (v ∷ vs) best q h =
    elim (highest_view_at-from n vs (better best (get v.subsequent_prepares n)) q h) [
      | inl e ↦ elim (better_cases best (get v.subsequent_prepares n) q e) [
        | inl b ↦ inl b
        | inr (votes, g) ↦ inr (inl (votes, g))
      ]
      | inr r ↦ inr (inr r)
    ]

-- Each reported sequence number is within the range that is listed in the new view.

max_key-ge : (n : ℕ) (m : Prepared) → n ≤ max_key n m
unfolding max_key
max_key-ge n [] = omega arith
max_key-ge n ((k, p) ∷ m) = omega (arith, max_key-ge (max n k) m)

get-max_key :
    (n k : ℕ) (m : Prepared) (x : PrePrepare × List Prepare) → get m k ≡ some x → k ≤ max_key n m
unfolding max_key get
get-max_key n k [] x h = absurd (ground arith)
get-max_key n k ((j, y) ∷ m) x h = elim (Bool-cases (nat_beq j k)) [
  | inl e ↦ let same = (nat_beq_iff j k).0 e in omega (arith, max_key-ge (max n j) m)
  | inr e ↦ get-max_key (max n j) k m x (rw e at h)
]

max_seq-ge : (n : ℕ) (vs : List ViewChange) → n ≤ max_seq n vs
unfolding max_seq
max_seq-ge n [] = omega arith
max_seq-ge n (v ∷ vs) =
    omega
      (arith, max_key-ge n v.subsequent_prepares, max_seq-ge (max_key n v.subsequent_prepares) vs)

Reported-max_seq :
    (low n : ℕ) (vs : List ViewChange) (p : PrePrepare) → Reported vs n p → n ≤ max_seq low vs
unfolding max_seq
Reported-max_seq low n [] p h = absurd h
Reported-max_seq low n (v ∷ vs) p (inl (votes, e)) = omega (
  arith,
  get-max_key low n v.subsequent_prepares (p, votes) e,
  max_seq-ge (max_key low v.subsequent_prepares) vs,
)
Reported-max_seq low n (v ∷ vs) p (inr h) =
    Reported-max_seq (max_key low v.subsequent_prepares) n vs p h

outstanding_from-Lists :
    (ext : External) (e : Consensus) (vs : List ViewChange) (count start n : ℕ)
    → start ≤ n
    → n < start + count
    → Lists (outstanding_from ext e vs count start) (incr e.state.view) n (request_at vs n)
unfolding outstanding_from new_with_signature
outstanding_from-Lists ext e vs zero start n h k = absurd (omega arith)
outstanding_from-Lists ext e vs (suc count) start n h k = elim (ℕ_discrete start n) [
  | yes same ↦ inl (refl, same, ap (request_at vs) same)
  | no other ↦ inr (outstanding_from-Lists ext e vs count (suc start) n (omega arith) (omega arith))
]

request_at_found :
    (vs : List ViewChange) (n : ℕ) (q : PrePrepare)
    → highest_view_at n vs none ≡ some q
    → request_at vs n ≡ q.client_request
unfolding request_at
request_at_found vs n q found = rw (found, request_at)

-- A request that one of the view changes reports as prepared, above the highest stable sequence number
-- among them, is on the list for the new view at the same sequence number; where several are reported,
-- one of a view at least as high as any of them.
pub outstanding-Lists :
    (ext : External) (e : Consensus) (vs : List ViewChange) (n : ℕ) (p : PrePrepare)
    → Reported vs n p
    → latest_stable e.state.last_stable_seq_num vs < n
    → max_seq e.state.last_stable_seq_num vs + 1 < usize_mod
    → (q : PrePrepare) × Reported vs n q
      × (p.view ≤ q.view)
      × Lists (outstanding ext e vs) (incr e.state.view) n q.client_request
unfolding outstanding
outstanding-Lists ext e vs n p h above room =
    let high = Reported-max_seq e.state.last_stable_seq_num n vs p h in
    let best = highest_view_at-Reported n vs none p h in
    let proposed =
      outstanding_from-Lists ext e vs
        (incr (max_seq e.state.last_stable_seq_num vs)
          - incr (latest_stable e.state.last_stable_seq_num vs))
        (incr (latest_stable e.state.last_stable_seq_num vs)) n (omega arith) (omega arith) in
    elim (Option-cases (highest_view_at n vs none)) [
      | inl none_found ↦ absurd (let b : ⊥ = rw none_found at best in b)
      | inr (q, found) ↦ (
        q,
        elim (highest_view_at-from n vs none q found) [ inl x ↦ absurd (cc) | inr r ↦ r ],
        (let b : p.view ≤ q.view = rw found at best in b),
        subst (Lists (outstanding ext e vs) (incr e.state.view) n) (request_at_found vs n q found)
            proposed,
      )
    ]
