-- ===== src/Messages/Message.antt =====
-- src/messages.rs, `Identifier` and `Message`: what travels between nodes, who it says it is from,
-- and whether a key signed it.
use p_bft.Base.{ℕ, Bool, true, Option, none, some}
use p_bft.Collections.BTreeMap.{Bytes}
use p_bft.External.{External}
use p_bft.Messages.ClientRequest.{ClientRequest}
use p_bft.Messages.ClientResponse.{ClientResponse}
use p_bft.Messages.PrePrepare
use p_bft.Messages.Prepare
use p_bft.Messages.Commit
use p_bft.Messages.CheckPoint
use p_bft.Messages.ViewChange
use p_bft.Messages.NewView.{NewView}

pub record Identifier : Type 0 where
  pub id : ℕ
  pub pub_key_vec : Bytes

pub data Message : Type 0 where
  identifier_message : Identifier → Message
  pre_prepare_message : PrePrepare.PrePrepare → Message
  prepare_message : Prepare.Prepare → Message
  commit_message : Commit.Commit → Message
  view_change_message : ViewChange.ViewChange → Message
  new_view_message : NewView → Message
  check_point_message : CheckPoint.CheckPoint → Message
  client_request_message : ClientRequest → Message
  client_response_message : ClientResponse → Message

unfoldable pub get_id : Message → Option ℕ
get_id (identifier_message m) = some m.id
get_id (pre_prepare_message m) = some m.id
get_id (prepare_message m) = some m.id
get_id (commit_message m) = some m.id
get_id (view_change_message m) = some m.id
get_id (check_point_message m) = some m.id
get_id (client_response_message m) = some m.id
get_id (new_view_message m) = some m.id
get_id (client_request_message m) = none

-- `none` is a panic: `unreachable!()` at an identifier, or a malformed signature.
unfoldable pub is_properly_signed_by : External → Message → Bytes → Option Bool
is_properly_signed_by ext (identifier_message m) key = none
is_properly_signed_by ext (pre_prepare_message m) key = PrePrepare.is_properly_signed_by ext m key
is_properly_signed_by ext (prepare_message m) key = Prepare.is_properly_signed_by ext m key
is_properly_signed_by ext (commit_message m) key = Commit.is_properly_signed_by ext m key
is_properly_signed_by ext (check_point_message m) key = CheckPoint.is_properly_signed_by ext m key
is_properly_signed_by ext (view_change_message m) key = ViewChange.is_properly_signed_by ext m key
is_properly_signed_by ext (new_view_message m) key = some true
is_properly_signed_by ext (client_request_message m) key = some true
is_properly_signed_by ext (client_response_message m) key = some true
