-- ===== src/Messages/ClientResponse.antt =====
-- src/messages.rs, `ClientResponse`: a node's signed answer to a client.
use p_bft.Base.{ℕ, Bool, Option, ◌++◌}
use p_bft.Collections.BTreeMap.{Bytes}
use p_bft.External.{External, usize_bytes, text}

pub record ClientResponse : Type 0 where
  pub id : ℕ
  pub time_stamp : ℕ
  pub key : Bytes
  pub value : Option ℕ
  pub success : Bool
  pub signature : Bytes

-- The tag is the one of view changes in the source too.
unfoldable pub new_with_signature :
    External → Bytes → ℕ → ℕ → Bytes → Option ℕ → Bool → ClientResponse
new_with_signature ext pair id time_stamp key value success = record {
  id = id;
  time_stamp = time_stamp;
  key = key;
  value = value;
  success = success;
  signature = ext.sign pair (text "ViewChange" ++ (usize_bytes time_stamp ++ key));
}
