-- ===== src/Projector/Receipts.antt =====
-- internal/event/projector_message.go: receipts, stars, and messages deleted for oneself
use wsapi_app.Common.{Bool, true, false, not, String, ◌==◌, none, some, List, if◌then◌else◌}
use wsapi_app.Whatsmeow.{Jid, jid_eq, empty_jid, WaTypes}
use wsapi_app.Event.Types.{Time, receipt, message_delete, message_star}
use wsapi_app.Event.Constants.{type_message_read, type_message_delete, type_message_star}
use wsapi_app.Projector.{
  ProjectorContext, Projection, discard, project, project_chat_id, resolve_sender,
}

-- `waTypes.ReceiptType`, by its constants.
pub data ReceiptType : Type 0 where
  delivered read played read_self sender_receipt retry : ReceiptType
  server_error inactive peer_msg history_receipt : ReceiptType
  other_receipt : String → ReceiptType

pub record Receipt : Type 0 where
  pub chat : Jid
  pub sender : Jid
  pub sender_alt : Jid
  pub is_from_me : Bool
  pub is_group : Bool
  pub timestamp : Time
  pub type : ReceiptType
  pub message_sender : Jid
  pub message_ids : List String

pub record DeleteForMe : Type 0 where
  pub chat_jid : Jid
  pub sender_jid : Jid
  pub is_from_me : Bool
  pub message_id : String
  pub timestamp : Time

pub record Star : Type 0 where
  pub chat_jid : Jid
  pub sender_jid : Jid
  pub is_from_me : Bool
  pub message_id : String
  pub timestamp : Time
  pub starred : Bool

-- `mapReceiptType`
unfoldable pub map_receipt_type : ReceiptType → String
map_receipt_type delivered = "delivered"
map_receipt_type read = "read"
map_receipt_type played = "played"
map_receipt_type read_self = "readSelf"
map_receipt_type sender_receipt = "sender"
map_receipt_type retry = "retry"
map_receipt_type server_error = "serverError"
map_receipt_type inactive = "inactive"
map_receipt_type peer_msg = "peerMsg"
map_receipt_type history_receipt = "historySync"
map_receipt_type (other_receipt t) = t

module _ (wt : WaTypes) where
  -- `ProjectReceipt`
  unfoldable pub project_receipt : Receipt → ProjectorContext → Projection
  project_receipt evt pctx =
      let receipt_type = map_receipt_type evt.type in
      if receipt_type == "peerMsg"
      then discard
      else project type_message_read (
          receipt (record {
            chat_id = project_chat_id wt evt.chat pctx.lids;
            sender = resolve_sender wt evt.sender evt.is_from_me evt.sender_alt pctx;
            message_sender =
                if not (evt.message_sender.user == "")
                then some (resolve_sender wt evt.message_sender false empty_jid pctx)
                else none;
            is_group = evt.is_group;
            message_ids = evt.message_ids;
            time = evt.timestamp;
            receipt_type = receipt_type;
          }))

  -- `ProjectMessageDeleteForMe`
  unfoldable pub project_message_delete_for_me : DeleteForMe → ProjectorContext → Projection
  project_message_delete_for_me evt pctx = project type_message_delete (
      message_delete (record {
        id = evt.message_id;
        chat_id = project_chat_id wt evt.chat_jid pctx.lids;
        sender = resolve_sender wt evt.sender_jid evt.is_from_me empty_jid pctx;
        time = evt.timestamp;
        is_deleted_for_all = false;
        is_deleted_for_me = true;
        is_status = jid_eq evt.chat_jid wt.status_broadcast_jid;
      }))

  -- `ProjectStar`
  unfoldable pub project_star : Star → ProjectorContext → Projection
  project_star evt pctx = project type_message_star (
      message_star (record {
        id = evt.message_id;
        chat_id = project_chat_id wt evt.chat_jid pctx.lids;
        sender = resolve_sender wt evt.sender_jid evt.is_from_me empty_jid pctx;
        time = evt.timestamp;
        is_starred = evt.starred;
      }))
