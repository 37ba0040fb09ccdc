-- ===== src/Messages/Prepare.antt =====
-- src/messages.rs, `Prepare`: a vote for a proposal, by its digest.
use p_bft.Base.{
  ℕ, ◌≡◌, ◌↔◌, Bool, true, false, not, ◌&&◌, Option, ◌++◌, Eq, arith, nat_beq, if◌then◌else◌,
}
use p_bft.Collections.BTreeMap.{Bytes, bytes_beq, bytes_beq_iff}
use p_bft.External.{External, usize_bytes, text}
use p_bft.Messages.ClientRequest.{ClientRequest, digest}
use p_bft.Messages.PrePrepare.{PrePrepare}

pub record Prepare : Type 0 where
  pub id : ℕ
  pub view : ℕ
  pub seq_num : ℕ
  pub client_request_digest : Bytes
  pub signature : Bytes

signed_bytes : ℕ → ℕ → Bytes → Bytes
signed_bytes view seq_num d = text "Prepare" ++ (usize_bytes view ++ (usize_bytes seq_num ++ d))

unfoldable pub new_with_signature : External → Bytes → ℕ → ℕ → ℕ → ClientRequest → Prepare
unfolding signed_bytes
new_with_signature ext pair id view seq_num r = record {
  id = id;
  view = view;
  seq_num = seq_num;
  client_request_digest = digest ext r;
  signature = ext.sign pair (signed_bytes view seq_num (digest ext r));
}

unfoldable pub is_properly_signed_by : External → Prepare → Bytes → Option Bool
unfolding signed_bytes
is_properly_signed_by ext p key =
    ext.verify key (signed_bytes p.view p.seq_num p.client_request_digest) p.signature

unfoldable pub corresponds_to : Prepare → PrePrepare → Bool
corresponds_to p pp =
    if not (nat_beq p.view pp.view)
    then false
    else if not (nat_beq p.seq_num pp.seq_num)
    then false
    else if not (bytes_beq p.client_request_digest pp.client_request_digest)
    then false
    else true

pub corresponds_to_iff :
    (p : Prepare) (pp : PrePrepare)
    → (corresponds_to p pp ≡ true) ↔ (
        (p.view ≡ pp.view)
        × (p.seq_num ≡ pp.seq_num)
        × (p.client_request_digest ≡ pp.client_request_digest))
unfolding corresponds_to
corresponds_to_iff p pp =
    ground (arith, bytes_beq_iff p.client_request_digest pp.client_request_digest)

-- `#[derive(PartialEq)]`
unfoldable pub prepare_beq : Prepare → Prepare → Bool
prepare_beq a b =
    nat_beq a.id b.id
    && (nat_beq a.view b.view
        && (nat_beq a.seq_num b.seq_num
            && (bytes_beq a.client_request_digest b.client_request_digest
                && bytes_beq a.signature b.signature)))

pub prepare_beq_iff : (a b : Prepare) → (prepare_beq a b ≡ true) ↔ (a ≡ b)
unfolding prepare_beq
prepare_beq_iff a b = ground (
  arith,
  bytes_beq_iff a.client_request_digest b.client_request_digest,
  bytes_beq_iff a.signature b.signature,
)

instance abbrev pub prepare_eq : Eq Prepare
prepare_eq = record { beq = prepare_beq; beq_decides = prepare_beq_iff }
