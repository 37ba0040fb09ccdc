-- ===== src/Messages/PrePrepare.antt =====
-- src/messages.rs, `PrePrepare`: the leader's proposal, the one message that holds the request.
use p_bft.Base.{ℕ, Bool, Option, ◌++◌}
use p_bft.Collections.BTreeMap.{Bytes}
use p_bft.External.{External, usize_bytes, text}
use p_bft.Messages.ClientRequest.{ClientRequest, digest}

pub record PrePrepare : Type 0 where
  pub id : ℕ
  pub view : ℕ
  pub seq_num : ℕ
  pub client_request_digest : Bytes
  pub signature : Bytes
  pub client_request : ClientRequest

-- the bytes fed to the hasher that is signed
signed_bytes : ℕ → ℕ → Bytes → Bytes
signed_bytes view seq_num d = text "PrePrepare" ++ (usize_bytes view ++ (usize_bytes seq_num ++ d))

unfoldable pub new_with_signature : External → Bytes → ℕ → ℕ → ℕ → ClientRequest → PrePrepare
unfolding signed_bytes
new_with_signature ext pair id view seq_num r = record {
  id = id;
  view = view;
  seq_num = seq_num;
  client_request_digest = digest ext r;
  signature = ext.sign pair (signed_bytes view seq_num (digest ext r));
  client_request = r;
}

-- The request is hashed again; the digest field is not read.
unfoldable pub is_properly_signed_by : External → PrePrepare → Bytes → Option Bool
unfolding signed_bytes
is_properly_signed_by ext p key =
    ext.verify key (signed_bytes p.view p.seq_num (digest ext p.client_request)) p.signature
