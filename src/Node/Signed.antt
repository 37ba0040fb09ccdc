-- ===== src/Node/Signed.antt =====
-- src/messages.rs: the id and the signature on a message, as a peer checks them.
use p_bft.Base.{
  ℕ, ◌≡◌, refl, true, some, [], ◌∷◌, All, nat_eq, pair_eq, nat_beq, Bool-cases, inl, inr, ◌%◌,
}
use p_bft.Collections.BTreeMap.{Bytes, bytes_eq}
use p_bft.Messages.ClientRequest.{request_eq, ClientRequest}
use p_bft.Collections.HashMap.{HashMap}
use p_bft.External.{External, SignaturesVerify, SocketAddr}
use p_bft.Messages.PrePrepare
use p_bft.Messages.Prepare
use p_bft.Messages.Commit
use p_bft.Messages.Commit.{Commit}
use p_bft.Messages.CheckPoint
use p_bft.Messages.Message.{
  Message, pre_prepare_message, prepare_message, commit_message, client_request_message, get_id,
  is_properly_signed_by,
}
use p_bft.Messages.Command.{
  NodeCommand, send_message, broad_cast_message, ConsensusCommand, rebroadcast_pre_prepare,
}
use p_bft.Consensus.Defs.{Consensus}
use p_bft.Consensus.Proposals.{equivocate_to}
use p_bft.Consensus.Execution.{checkpoint_commands, init_checkpoint, checkpoint_due}

-- the message names the node, and verifies under its public key
abbrev pub SignedBy : External → Bytes → ℕ → Message → Type 0
SignedBy ext pair id m =
    (get_id m ≡ some id) × (is_properly_signed_by ext m (ext.public_key pair) ≡ some true)

-- A message that the engine made, or a client's request that it forwards.
abbrev pub OwnMessage : External → Bytes → ℕ → Message → Type 0
OwnMessage ext pair id (client_request_message r) = Unit {0}
OwnMessage ext pair id m = SignedBy ext pair id m

abbrev pub Own : External → Bytes → ℕ → NodeCommand → Type 0
Own ext pair id (send_message destination m) = OwnMessage ext pair id m
Own ext pair id (broad_cast_message m) = OwnMessage ext pair id m

-- any command but one that sends again what another node may have signed
abbrev pub Fresh : ConsensusCommand → Type 0
Fresh (rebroadcast_pre_prepare pair) = ⊥
Fresh _ = Unit {0}

module _ (ext : External) (v : SignaturesVerify ext) where
  pub pre_prepare-SignedBy :
      (pair : Bytes) (id view seq_num : ℕ) (r : ClientRequest)
      → SignedBy ext pair id
          (pre_prepare_message (PrePrepare.new_with_signature ext pair id view seq_num r))
  unfolding PrePrepare.new_with_signature PrePrepare.is_properly_signed_by get_id
      is_properly_signed_by
  pre_prepare-SignedBy pair id view seq_num r = (refl, v pair _)

  pub prepare-SignedBy :
      (pair : Bytes) (id view seq_num : ℕ) (r : ClientRequest)
      → SignedBy ext pair id
          (prepare_message (Prepare.new_with_signature ext pair id view seq_num r))
  unfolding Prepare.new_with_signature Prepare.is_properly_signed_by get_id is_properly_signed_by
  prepare-SignedBy pair id view seq_num r = (refl, v pair _)

  pub commit-SignedBy :
      (pair : Bytes) (id view seq_num : ℕ) (d : Bytes)
      → SignedBy ext pair id (commit_message (Commit.new_with_signature ext pair id view seq_num d))
  unfolding Commit.new_with_signature Commit.is_properly_signed_by get_id is_properly_signed_by
  commit-SignedBy pair id view seq_num d = (refl, v pair _)

  pub equivocate_to-Own :
      (e : Consensus) (m d : Message) (peers : HashMap ℕ SocketAddr)
      → OwnMessage ext e.keypair_bytes e.id m
      → OwnMessage ext e.keypair_bytes e.id d
      → All (Own ext e.keypair_bytes e.id) (equivocate_to m d peers)
  unfolding equivocate_to
  equivocate_to-Own e m d [] a b = tt
  equivocate_to-Own e m d ((peer_id, addr) ∷ peers) a b = (
    elim (Bool-cases (nat_beq (peer_id % 2) 0)) [ inl y ↦ rw y b | inr n ↦ rw n a ],
    equivocate_to-Own e m d peers a b,
  )

  pub checkpoint_commands-Own :
      (e : Consensus) → All (Own ext e.keypair_bytes e.id) (checkpoint_commands ext e)
  unfolding checkpoint_commands init_checkpoint CheckPoint.new_with_signature get_id
      CheckPoint.is_properly_signed_by is_properly_signed_by
  checkpoint_commands-Own e = elim (Bool-cases (checkpoint_due e)) [
    | inl y ↦ rw y ((refl, v e.keypair_bytes _), tt)
    | inr n ↦ rw n tt
  ]
