-- ===== src/Messages/NewView.antt =====
-- src/messages.rs, `NewView`: the new leader's announcement. It carries no signature.
use p_bft.Base.{ℕ, Bool, true, List}
use p_bft.Collections.BTreeMap.{Bytes}
use p_bft.Messages.PrePrepare.{PrePrepare}
use p_bft.Messages.ViewChange.{ViewChange}

pub record NewView : Type 0 where
  pub id : ℕ
  pub view : ℕ
  pub view_change_messages : List ViewChange
  pub outstanding_pre_prepares : List PrePrepare

-- The key pair is not used.
unfoldable pub new_with_signature : Bytes → ℕ → ℕ → List ViewChange → List PrePrepare → NewView
new_with_signature pair id view changes outstanding = record {
  id = id;
  view = view;
  view_change_messages = changes;
  outstanding_pre_prepares = outstanding;
}

unfoldable pub is_properly_signed_by : NewView → Bytes → Bool
is_properly_signed_by n key = true
