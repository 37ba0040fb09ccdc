-- ===== src/Node/Filter.antt =====
-- src/node.rs: what gets through to the engine.
use p_bft.Base.{
  ℕ, ◌≡◌, ◌↔◌, ◌⊎◌, inl, inr, refl, true, false, Option, none, some, arith, nat_eq, Option-cases,
  Bool, not, ap, ◌∙◌, if◌then◌else◌,
}
use p_bft.Collections.BTreeMap.{Bytes}
use p_bft.Collections.HashMap.{get}
use p_bft.External.{External}
use p_bft.Messages.ClientRequest.{ClientRequest}
use p_bft.Messages.PrePrepare
use p_bft.Messages.Prepare
use p_bft.Messages.Commit
use p_bft.Messages.CheckPoint
use p_bft.Messages.ViewChange
use p_bft.Messages.Message.{
  Message, identifier_message, client_request_message, get_id, is_properly_signed_by,
  pre_prepare_message, prepare_message, commit_message, check_point_message, view_change_message,
  new_view_message, client_response_message,
}
use p_bft.Messages.Command.{ConsensusCommand, process_message}
use p_bft.Node.{InnerNode, should_drop, drop_unsigned, forward, read_message, passes}

-- The message is from a node whose key is on record, and the check of `is_properly_signed_by` lets it
-- through, which for some messages looks at no signature.
abbrev pub Checked : External → InnerNode → Message → Type 0
Checked ext n m =
    (id : ℕ) × (key : Bytes) × (get_id m ≡ some id)
    × (get n.peer_pub_keys id ≡ some key)
    × (is_properly_signed_by ext m key ≡ some true)

abbrev pub IsRequest : Message → Type 0
IsRequest m = (r : ClientRequest) × (m ≡ client_request_message r)

drop_unsigned_iff :
    (ext : External) (n : InnerNode) (m : Message)
    → (drop_unsigned ext n m ≡ some false) ↔ Checked ext n m
unfolding drop_unsigned
drop_unsigned_iff ext n m = (signed, λ (id, key, i, k, s). rw (i, drop_unsigned) (rw k (rw s refl)))
  where
    kept : (b : Bool) → (if not b then some true else some false) ≡ some false → b ≡ true
    kept b h = ground arith

    signed : drop_unsigned ext n m ≡ some false → Checked ext n m
    signed h = elim (Option-cases (get_id m)) [
      | inl e ↦ cc (rw (e, drop_unsigned) at h)
      | inr (id, i) ↦ elim (Option-cases (get n.peer_pub_keys id)) [
        | inl e ↦ cc (rw (i, e, drop_unsigned) at h)
        | inr (key, k) ↦ elim (Option-cases (is_properly_signed_by ext m key)) [
          | inl e ↦ cc (rw (i, k, e, drop_unsigned) at h)
          | inr (b, s) ↦ (id, key, i, k, s ∙ ap some (kept b (rw (i, k, s, drop_unsigned) at h)))
        ]
      ]
    ]

forward_iff :
    (o : Option Bool) (m : Message) (cmd : ConsensusCommand)
    → (forward o m ≡ passes cmd) ↔ ((cmd ≡ process_message m) × (o ≡ some false))
unfolding forward
forward_iff none m cmd = ground arith
forward_iff (some true) m cmd = ground arith
forward_iff (some false) m cmd = ground arith

pub read_message-Checked_iff :
    (ext : External) (n : InnerNode) (m : Message) (cmd : ConsensusCommand)
    → (read_message ext n m ≡ passes cmd)
      ↔ ((cmd ≡ process_message m) × (IsRequest m ⊎ Checked ext n m))
unfolding read_message should_drop forward is_properly_signed_by
read_message-Checked_iff ext n (identifier_message i) cmd = (
  λ h. absurd (ground arith),
  λ (c, s). elim s [ inl (r, e) ↦ absurd (cc) | inr (id, key, a, b, d) ↦ absurd (cc) ],
)
read_message-Checked_iff ext n (client_request_message r) cmd =
    (λ h. (ground arith, inl (r, refl)), λ (c, s). ground arith)
read_message-Checked_iff ext n m cmd = (
  λ h.
      let (c, d) = (forward_iff (drop_unsigned ext n m) m cmd).0 h in
      (c, inr ((drop_unsigned_iff ext n m).0 d)),
  λ (c, s).
      (forward_iff (drop_unsigned ext n m) m cmd).1
        (c, elim s [ inl (r, e) ↦ absurd (cc) | inr g ↦ (drop_unsigned_iff ext n m).1 g ]),
)

-- the messages that `is_properly_signed_by` lets through without a signature
abbrev pub IsUnsigned : Message → Type 0
IsUnsigned (new_view_message m) = Unit {0}
IsUnsigned (client_response_message m) = Unit {0}
IsUnsigned (client_request_message m) = Unit {0}
IsUnsigned _ = ⊥

-- The message has a signature, which verifies under the key.
abbrev pub KeySigned : External → Message → Bytes → Type 0
KeySigned ext (pre_prepare_message m) key = PrePrepare.is_properly_signed_by ext m key ≡ some true
KeySigned ext (prepare_message m) key = Prepare.is_properly_signed_by ext m key ≡ some true
KeySigned ext (commit_message m) key = Commit.is_properly_signed_by ext m key ≡ some true
KeySigned ext (check_point_message m) key = CheckPoint.is_properly_signed_by ext m key ≡ some true
KeySigned ext (view_change_message m) key = ViewChange.is_properly_signed_by ext m key ≡ some true
KeySigned ext _ key = ⊥

checked_iff :
    (ext : External) (m : Message) (key : Bytes)
    → (is_properly_signed_by ext m key ≡ some true) ↔ (IsUnsigned m ⊎ KeySigned ext m key)
unfolding is_properly_signed_by
checked_iff ext (identifier_message m) key =
    (λ h. absurd (cc), λ s. elim s [ inl u ↦ absurd u | inr k ↦ absurd k ])
checked_iff ext (new_view_message m) key = (λ h. inl tt, λ s. refl)
checked_iff ext (client_response_message m) key = (λ h. inl tt, λ s. refl)
checked_iff ext (client_request_message m) key = (λ h. inl tt, λ s. refl)
checked_iff ext (pre_prepare_message m) key =
    (λ h. inr h, λ s. elim s [ inl u ↦ absurd u | inr k ↦ k ])
checked_iff ext (prepare_message m) key = (λ h. inr h, λ s. elim s [ inl u ↦ absurd u | inr k ↦ k ])
checked_iff ext (commit_message m) key = (λ h. inr h, λ s. elim s [ inl u ↦ absurd u | inr k ↦ k ])
checked_iff ext (check_point_message m) key =
    (λ h. inr h, λ s. elim s [ inl u ↦ absurd u | inr k ↦ k ])
checked_iff ext (view_change_message m) key =
    (λ h. inr h, λ s. elim s [ inl u ↦ absurd u | inr k ↦ k ])

-- The message names a node whose key is on record, and has a signature that verifies under that key, or
-- is of a kind whose signature is not looked at.
abbrev pub LetThrough : External → InnerNode → Message → Type 0
LetThrough ext n m =
    (id : ℕ) × (key : Bytes) × (get_id m ≡ some id)
    × (get n.peer_pub_keys id ≡ some key)
    × (IsUnsigned m ⊎ KeySigned ext m key)

-- The engine is sent a message exactly if it is a client's request, or the node named in it has its
-- public key on record and that key signed it, where of a new view and of an answer to a client no
-- signature is looked at; it is sent as it is. Identifiers never get through.
pub read_message_passes_iff :
    (ext : External) (n : InnerNode) (m : Message) (cmd : ConsensusCommand)
    → (read_message ext n m ≡ passes cmd)
      ↔ ((cmd ≡ process_message m) × (IsRequest m ⊎ LetThrough ext n m))
read_message_passes_iff ext n m cmd = (
  λ h. let (same, from) = (read_message-Checked_iff ext n m cmd).0 h in (same, through from),
  λ (same, from). (read_message-Checked_iff ext n m cmd).1 (same, checked from),
)
  where
    through : IsRequest m ⊎ Checked ext n m → IsRequest m ⊎ LetThrough ext n m
    through (inl r) = inl r
    through (inr (id, key, i, k, s)) = inr (id, key, i, k, (checked_iff ext m key).0 s)

    checked : IsRequest m ⊎ LetThrough ext n m → IsRequest m ⊎ Checked ext n m
    checked (inl r) = inl r
    checked (inr (id, key, i, k, s)) = inr (id, key, i, k, (checked_iff ext m key).1 s)
