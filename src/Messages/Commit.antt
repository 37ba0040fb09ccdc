-- ===== src/Messages/Commit.antt =====
-- src/messages.rs, `Commit`: a vote to commit a prepared proposal, by its digest.
use p_bft.Base.{
  ℕ, ◌≡◌, ◌↔◌, Bool, true, false, not, ◌&&◌, Option, ◌++◌, Eq, arith, nat_beq, if◌then◌else◌,
}
use p_bft.Collections.BTreeMap.{Bytes, bytes_beq, bytes_beq_iff}
use p_bft.External.{External, usize_bytes, text}
use p_bft.Messages.Prepare.{Prepare}

pub record Commit : Type 0 where
  pub id : ℕ
  pub view : ℕ
  pub seq_num : ℕ
  pub client_request_digest : Bytes
  pub signature : Bytes

signed_bytes : ℕ → ℕ → Bytes → Bytes
signed_bytes view seq_num d = text "Commit" ++ (usize_bytes view ++ (usize_bytes seq_num ++ d))

unfoldable pub new_with_signature : External → Bytes → ℕ → ℕ → ℕ → Bytes → Commit
unfolding signed_bytes
new_with_signature ext pair id view seq_num d = record {
  id = id;
  view = view;
  seq_num = seq_num;
  client_request_digest = d;
  signature = ext.sign pair (signed_bytes view seq_num d);
}

unfoldable pub is_properly_signed_by : External → Commit → Bytes → Option Bool
unfolding signed_bytes
is_properly_signed_by ext p key =
    ext.verify key (signed_bytes p.view p.seq_num p.client_request_digest) p.signature

unfoldable pub corresponds_to : Commit → Prepare → Bool
corresponds_to p pp =
    if not (nat_beq p.view pp.view)
    then false
    else if not (nat_beq p.seq_num pp.seq_num)
    then false
    else if not (bytes_beq p.client_request_digest pp.client_request_digest)
    then false
    else true

pub corresponds_to_iff :
    (p : Commit) (pp : Prepare)
    → (corresponds_to p pp ≡ true) ↔ (
        (p.view ≡ pp.view)
        × (p.seq_num ≡ pp.seq_num)
        × (p.client_request_digest ≡ pp.client_request_digest))
unfolding corresponds_to
corresponds_to_iff p pp =
    ground (arith, bytes_beq_iff p.client_request_digest pp.client_request_digest)

-- `#[derive(PartialEq)]`
unfoldable pub commit_beq : Commit → Commit → Bool
commit_beq a b =
    nat_beq a.id b.id
    && (nat_beq a.view b.view
        && (nat_beq a.seq_num b.seq_num
            && (bytes_beq a.client_request_digest b.client_request_digest
                && bytes_beq a.signature b.signature)))

pub commit_beq_iff : (a b : Commit) → (commit_beq a b ≡ true) ↔ (a ≡ b)
unfolding commit_beq
commit_beq_iff a b = ground (
  arith,
  bytes_beq_iff a.client_request_digest b.client_request_digest,
  bytes_beq_iff a.signature b.signature,
)

instance abbrev pub commit_eq : Eq Commit
commit_eq = record { beq = commit_beq; beq_decides = commit_beq_iff }
