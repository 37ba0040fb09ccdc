-- ===== src/Views/Carry.antt =====
-- src/consensus.rs, from `InitViewChange` to `AcceptViewChange`: what one replica prepared, and what the
-- new leader lists.
use p_bft.Base.{[], ℕ, ◌≡◌, ◌⊎◌, List, [], ◌∷◌, nat_eq, pair_eq, incr}
use p_bft.Collections.HashMap.{HashMap, insert, values}
use p_bft.External.{External}
use p_bft.Messages.PrePrepare.{PrePrepare}
use p_bft.Messages.Prepare.{Prepare}
use p_bft.Messages.ViewChange.{ViewChange, Prepared}
use p_bft.Messages.NewView
use p_bft.Messages.NewView.{NewView}
use p_bft.Messages.Message.{new_view_message}
use p_bft.Messages.Command.{broad_cast_message}
use p_bft.Consensus.Defs.{Consensus, Outcome, sent}
use p_bft.Consensus.Changes.{subsequent_prepares}
use p_bft.Views.Survival.{Lists}

-- one of the view changes reports exactly this
abbrev pub Includes : Prepared → List ViewChange → Type 0
Includes m [] = ⊥
Includes m (v ∷ vs) = (v.subsequent_prepares ≡ m) ⊎ Includes m vs

-- The view changes that a leader has, this one included.
abbrev pub collected : Consensus → ViewChange → List ViewChange
collected e v = values (insert e.state.view_change_votes v.id v)

-- The only message that is sent is a new view, whose list has a pre-prepare of the next view at the
-- sequence number, for a request of which this holds.
abbrev pub Announces : Consensus → Outcome → ℕ → (PrePrepare → Type 0) → Type 0
Announces e o n P =
    (message : NewView) × ((sent o).to_node ≡ broad_cast_message (new_view_message message) ∷ [])
    × ((q : PrePrepare) × P q
        × Lists message.outstanding_pre_prepares (incr e.state.view) n q.client_request)
