-- ===== src/Messages/ViewChange.antt =====
-- src/messages.rs, `ViewChange`: a vote to move to a new view, with what was prepared before. The
-- signature covers the view and the stable sequence number only.
use p_bft.Base.{ℕ, Bool, Option, List, ◌++◌}
use p_bft.Collections.BTreeMap.{Bytes}
use p_bft.Collections.HashMap.{HashMap}
use p_bft.External.{External, usize_bytes, text}
use p_bft.Messages.PrePrepare.{PrePrepare}
use p_bft.Messages.Prepare.{Prepare}
use p_bft.Messages.CheckPoint.{CheckPoint}

-- a proposal with the votes that prepared it, by sequence number
abbrev pub Prepared : Type 0
Prepared = HashMap ℕ (PrePrepare × List Prepare)

pub record ViewChange : Type 0 where
  pub id : ℕ
  pub new_view : ℕ
  pub last_stable_seq_num : ℕ
  pub checkpoint_proof : List CheckPoint
  pub subsequent_prepares : Prepared
  pub signature : Bytes

signed_bytes : ℕ → ℕ → Bytes
signed_bytes new_view stable = text "ViewChange" ++ (usize_bytes new_view ++ usize_bytes stable)

unfoldable pub new_with_signature :
    External → Bytes → ℕ → ℕ → ℕ → List CheckPoint → Prepared → ViewChange
unfolding signed_bytes
new_with_signature ext pair id new_view stable proof prepared = record {
  id = id;
  new_view = new_view;
  last_stable_seq_num = stable;
  checkpoint_proof = proof;
  subsequent_prepares = prepared;
  signature = ext.sign pair (signed_bytes new_view stable);
}

unfoldable pub is_properly_signed_by : External → ViewChange → Bytes → Option Bool
unfolding signed_bytes
is_properly_signed_by ext v key =
    ext.verify key (signed_bytes v.new_view v.last_stable_seq_num) v.signature
