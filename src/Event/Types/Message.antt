-- ===== src/Event/Types/Message.antt =====
-- internal/event/types.go: the payloads about messages, receipts and history. A pointer is an `Option`.
use wsapi_app.Common.{ℕ, Bool, String, Option, List}
use wsapi_app.Identity.{Sender}
use wsapi_app.Event.Types.GoTime.{Time}

pub record MediaInfo : Type 0 where
  pub id : String
  pub media_type : String
  pub mime_type : String
  pub file_length : ℕ
  pub caption : String
  pub height : ℕ
  pub width : ℕ
  pub duration : ℕ
  pub filename : String
  pub title : String
  pub page_count : ℕ
  pub jpeg_thumbnail : List ℕ

pub record ReactionInfo : Type 0 where
  pub message_id : String
  pub emoji : String

pub record ReplyInfo : Type 0 where
  pub id : String
  pub sender : Option Sender
  pub text : String
  pub is_forwarded : Bool

pub record AdReferral : Type 0 where
  pub ctwa_clid : String
  pub source_type : String
  pub source_id : String
  pub source_url : String
  pub source_app : String
  pub title : String
  pub body : String
  pub media_type : String
  pub thumbnail_url : String
  pub conversion_source : String
  pub show_ad_attribution : Bool

pub record ExtendedText : Type 0 where
  pub matched_text : String
  pub description : String
  pub title : String
  pub jpeg_thumbnail : List ℕ

pub record PinInfo : Type 0 where
  pub pinned : Bool
  pub message_id : String
  pub expiration : String

pub record EditInfo : Type 0 where
  pub original_message_time : String
  pub original_message_id : String

pub record MessageEvent : Type 0 where
  pub id : String
  pub chat_id : String
  pub sender : Sender
  pub is_group : Bool
  pub time : Time
  pub type : String
  pub text : String
  pub media : Option MediaInfo
  pub reaction : Option ReactionInfo
  pub reply_to : Option ReplyInfo
  pub ad_referral : Option AdReferral
  pub contact : String
  pub contact_array : List String
  pub extended_text : Option ExtendedText
  pub pin : Option PinInfo
  pub edit : Option EditInfo
  pub mentions : List String
  pub is_edit : Bool
  pub is_forwarded : Bool
  pub view_once : Bool
  pub is_status : Bool
  pub ephemeral_expiration : String

pub record ReceiptEvent : Type 0 where
  pub chat_id : String
  pub sender : Sender
  pub message_sender : Option Sender
  pub is_group : Bool
  pub message_ids : List String
  pub time : Time
  pub receipt_type : String

pub record MessageDeleteEvent : Type 0 where
  pub id : String
  pub chat_id : String
  pub sender : Sender
  pub time : Time
  pub is_deleted_for_all : Bool
  pub is_deleted_for_me : Bool
  pub is_status : Bool

pub record MessageStarEvent : Type 0 where
  pub id : String
  pub chat_id : String
  pub sender : Sender
  pub time : Time
  pub is_starred : Bool

pub record HistorySyncEvent : Type 0 where
  pub chat_id : String
  pub messages : List MessageEvent
