-- ===== src/Messages/CheckPoint.antt =====
-- src/messages.rs, `CheckPoint`: a node's store at a sequence number. The signature covers the
-- sequence number and the digest, and neither the view nor the store.
use p_bft.Base.{ℕ, Bool, Option, ◌++◌}
use p_bft.Collections.BTreeMap.{Bytes, BTreeMap}
use p_bft.External.{External, usize_bytes, text}

pub record CheckPoint : Type 0 where
  pub id : ℕ
  pub committed_seq_num : ℕ
  pub view : ℕ
  pub state_digest : Bytes
  pub state : BTreeMap ℕ
  pub signature : Bytes

signed_bytes : ℕ → Bytes → Bytes
signed_bytes committed_seq_num d = text "Checkpoint" ++ (usize_bytes committed_seq_num ++ d)

unfoldable pub new_with_signature : External → Bytes → ℕ → ℕ → ℕ → Bytes → BTreeMap ℕ → CheckPoint
unfolding signed_bytes
new_with_signature ext pair id committed_seq_num view state_digest state = record {
  id = id;
  committed_seq_num = committed_seq_num;
  view = view;
  state_digest = state_digest;
  state = state;
  signature = ext.sign pair (signed_bytes committed_seq_num state_digest);
}

unfoldable pub is_properly_signed_by : External → CheckPoint → Bytes → Option Bool
unfolding signed_bytes
is_properly_signed_by ext c key =
    ext.verify key (signed_bytes c.committed_seq_num c.state_digest) c.signature
