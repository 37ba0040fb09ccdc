-- ===== src/Network/Proposals.antt =====
-- src/consensus.rs: the requests that a leader proposed, by sequence number, as its messages have them.
use mathlib.Core.Path.{subst}
use p_bft.Base.{
  ℕ, ◌≡◌, ◌≢◌, ◌⊎◌, refl, ap, ◌∙◌, Option, none, some, List, [], ◌∷◌, ◌++◌, All, arith, nat_beq,
  Bool-cases, inl, inr, if◌then◌else◌,
}
use p_bft.Messages.ClientRequest.{ClientRequest, no_op}
use p_bft.Messages.PrePrepare.{PrePrepare}
use p_bft.Messages.Message.{Message, pre_prepare_message}
use p_bft.Messages.Command.{NodeCommand, send_message, broad_cast_message}
use p_bft.Network.{message_of}
use p_bft.Network.Calm.Defs.{CalmSent}

unfoldable pub proposal_of : Message → Option PrePrepare
proposal_of (pre_prepare_message p) = some p
proposal_of _ = none

-- A proposal's request at its own sequence number, something else at any other.
unfoldable pub proposed_at : Option PrePrepare → ℕ → ClientRequest → ClientRequest
proposed_at none n other = other
proposed_at (some p) n other = if nat_beq p.seq_num n then p.client_request else other

-- The request that was proposed first with a sequence number, a no-op if none was.
unfoldable pub decided_by : List NodeCommand → ℕ → ClientRequest
unfolding proposed_at proposal_of
decided_by [] n = no_op
decided_by (c ∷ cs) n = proposed_at (proposal_of (message_of c)) n (decided_by cs n)

-- If a command proposes at this sequence number, it is this request.
abbrev pub Fits : ℕ → ClientRequest → NodeCommand → Type 0
Fits n r c =
    (p : PrePrepare) → proposal_of (message_of c) ≡ some p → p.seq_num ≡ n → p.client_request ≡ r

proposed_at-same :
    (o : Option PrePrepare) (n : ℕ) (r : ClientRequest)
    → ((p : PrePrepare) → o ≡ some p → p.seq_num ≡ n → p.client_request ≡ r)
    → proposed_at o n r ≡ r
unfolding proposed_at
proposed_at-same none n r h = refl
proposed_at-same (some p) n r h = ground (arith, h p refl)

proposed_at-missed :
    (o : Option PrePrepare) (n : ℕ) (r : ClientRequest)
    → ((p : PrePrepare) → o ≡ some p → p.seq_num ≢ n)
    → proposed_at o n r ≡ r
proposed_at-missed o n r h = proposed_at-same o n r (λ p e s. absurd (h p e s))

decided_by-none : (cs : List NodeCommand) (n : ℕ) → All (Fits n no_op) cs → decided_by cs n ≡ no_op
unfolding decided_by
decided_by-none [] n h = refl
decided_by-none (c ∷ cs) n h =
    ap (proposed_at (proposal_of (message_of c)) n) (decided_by-none cs n h.1)
    ∙ proposed_at-same (proposal_of (message_of c)) n no_op h.0

-- A command that proposes at the number settles it, another one leaves it to the rest.
proposed_at-cases :
    (o : Option PrePrepare) (n : ℕ)
    → ((r r' : ClientRequest) → proposed_at o n r ≡ proposed_at o n r')
      ⊎ ((r : ClientRequest) → proposed_at o n r ≡ r)
unfolding proposed_at
proposed_at-cases none n = inr (λ r. refl)
proposed_at-cases (some p) n = elim (Bool-cases (nat_beq p.seq_num n)) [
  | inl same ↦ inl (λ r r'. rw same refl)
  | inr other ↦ inr (λ r. rw other refl)
]

-- Commands that fit what was decided do not change it.
pub decided_by-append :
    (cs ds : List NodeCommand) (n : ℕ)
    → All (Fits n (decided_by cs n)) ds
    → decided_by (cs ++ ds) n ≡ decided_by cs n
unfolding decided_by
decided_by-append [] ds n h = decided_by-none ds n h
decided_by-append (c ∷ cs) ds n h = elim (proposed_at-cases (proposal_of (message_of c)) n) [
  | inl settled ↦ settled (decided_by (cs ++ ds) n) (decided_by cs n)
  | inr left ↦
      ap (proposed_at (proposal_of (message_of c)) n)
        (decided_by-append cs ds n (subst (λ r. All (Fits n r) ds) (left (decided_by cs n)) h))
]

-- If a command proposes, it is at another sequence number.
abbrev pub Misses : ℕ → NodeCommand → Type 0
Misses n c = (p : PrePrepare) → proposal_of (message_of c) ≡ some p → p.seq_num ≢ n

-- The first proposal at a sequence number settles it.
pub decided_by-fresh :
    (cs : List NodeCommand) (c : NodeCommand) (p : PrePrepare)
    → All (Misses p.seq_num) cs
    → proposal_of (message_of c) ≡ some p
    → decided_by (cs ++ c ∷ []) p.seq_num ≡ p.client_request
unfolding decided_by proposed_at
decided_by-fresh [] c p h e = rw e (ground arith)
decided_by-fresh (d ∷ cs) c p h e =
    proposed_at-missed (proposal_of (message_of d)) p.seq_num _ h.0 ∙ decided_by-fresh cs c p h.1 e

-- What a calm command proposes is as `P` says.
pub proposal_of-Calm :
    (P : PrePrepare → Type 0) (c : NodeCommand)
    → CalmSent P c
    → (p : PrePrepare) → proposal_of (message_of c) ≡ some p
    → P p
unfolding proposal_of
proposal_of-Calm P (send_message d (pre_prepare_message q)) h p e = subst P (cc) h
proposal_of-Calm P (send_message d m) h p e = cc
proposal_of-Calm P (broad_cast_message (pre_prepare_message q)) h p e = subst P (cc) h
proposal_of-Calm P (broad_cast_message m) h p e = cc

pub All-weaken {ℓ κ μ} :
    {A : Type ℓ} (P : A → Type κ) (Q : A → Type μ)
    → ((a : A) → P a → Q a)
    → (xs : List A) → All P xs
    → All Q xs
All-weaken P Q f [] h = tt
All-weaken P Q f (x ∷ xs) h = (f x h.0, All-weaken P Q f xs h.1)

pub All-pair {ℓ κ μ} :
    {A : Type ℓ} (P : A → Type κ) (Q : A → Type μ) (xs : List A)
    → All P xs
    → All Q xs
    → All (λ x. P x × Q x) xs
All-pair P Q [] h k = tt
All-pair P Q (x ∷ xs) h k = ((h.0, k.0), All-pair P Q xs h.1 k.1)
