-- ===== src/Whatsmeow/Proto.antt =====
-- The protobuf messages of go.mau.fi/whatsmeow that the code builds and reads, with the fields that it
-- names. A pointer is an `Option`, and a `[]byte` a list of byte values. A quoted message is kept as
-- the two texts that are read of it.
use wsapi_app.Common.{ℕ, Bool, false, String, Option, none, some, List, []}
use wsapi_app.Event.MediaId.Reader.{Bytes}

-- `x.GetF()`: the default of the type where the pointer is nil.
abbrev pub get_text : Option String → String
get_text none = ""
get_text (some s) = s

abbrev pub get_bool : Option Bool → Bool
get_bool none = false
get_bool (some b) = b

abbrev pub get_number : Option ℕ → ℕ
get_number none = 0
get_number (some n) = n

-- `waE2E.Message` as a quoted message: `GetConversation` and `GetExtendedTextMessage().GetText()`.
pub record QuotedMessage : Type 0 where
  pub conversation : String
  pub extended_text : String

-- `ContextInfo_ExternalAdReplyInfo_MediaType`
pub data AdMediaType : Type 0 where
  ad_none ad_image ad_video : AdMediaType

-- `ContextInfo_ExternalAdReplyInfo`, by its getters
pub record ExternalAdReply : Type 0 where
  pub ctwa_clid : String
  pub source_type : String
  pub source_id : String
  pub source_url : String
  pub source_app : String
  pub title : String
  pub body : String
  pub thumbnail_url : String
  pub media_type : AdMediaType
  pub show_ad_attribution : Bool

pub record ContextInfo : Type 0 where
  pub stanza_id : Option String
  pub participant : Option String
  pub quoted_message : Option QuotedMessage
  pub mentioned_jid : List String
  pub is_forwarded : Option Bool
  pub expiration : Option ℕ
  pub external_ad_reply : Option ExternalAdReply
  pub entry_point_conversion_source : Option String
  pub conversion_source : Option String

-- What all media messages have.
pub record MediaFile : Type 0 where
  pub url : Option String
  pub direct_path : Option String
  pub mimetype : Option String
  pub media_key : Bytes
  pub file_sha256 : Bytes
  pub file_enc_sha256 : Bytes
  pub file_length : Option ℕ

pub record ImageMessage : Type 0 where
  pub file : MediaFile
  pub caption : Option String
  pub height : Option ℕ
  pub width : Option ℕ
  pub jpeg_thumbnail : Bytes
  pub context_info : Option ContextInfo
  pub view_once : Option Bool

pub record VideoMessage : Type 0 where
  pub file : MediaFile
  pub caption : Option String
  pub height : Option ℕ
  pub width : Option ℕ
  pub seconds : Option ℕ
  pub jpeg_thumbnail : Bytes
  pub context_info : Option ContextInfo
  pub view_once : Option Bool

pub record AudioMessage : Type 0 where
  pub file : MediaFile
  pub seconds : Option ℕ
  pub ptt : Option Bool
  pub context_info : Option ContextInfo
  pub view_once : Option Bool

pub record DocumentMessage : Type 0 where
  pub file : MediaFile
  pub title : Option String
  pub file_name : Option String
  pub page_count : Option ℕ
  pub caption : Option String
  pub jpeg_thumbnail : Bytes
  pub context_info : Option ContextInfo

pub record StickerMessage : Type 0 where
  pub file : MediaFile
  pub height : Option ℕ
  pub width : Option ℕ
  pub is_animated : Option Bool
  pub context_info : Option ContextInfo

-- `waCommon.MessageKey`
pub record MessageKey : Type 0 where
  pub remote_jid : Option String
  pub from_me : Option Bool
  pub id : Option String

pub record ReactionMessage : Type 0 where
  pub key : Option MessageKey
  pub text : Option String

pub record ContactMessage : Type 0 where
  pub display_name : Option String
  pub vcard : Option String
  pub context_info : Option ContextInfo

pub record ExtendedTextMessage : Type 0 where
  pub text : Option String
  pub matched_text : Option String
  pub title : Option String
  pub description : Option String
  pub jpeg_thumbnail : Bytes
  pub context_info : Option ContextInfo

-- A float64 is its decimal text.
pub record Coordinates : Type 0 where
  pub degrees_latitude : String
  pub degrees_longitude : String

pub record LocationMessage : Type 0 where
  pub coordinates : Coordinates
  pub name : Option String
  pub address : Option String
  pub url : Option String
  pub context_info : Option ContextInfo

-- `PinInChatMessage_Type`
pub data PinType : Type 0 where
  unknown_pin pin_for_all unpin_for_all : PinType

pub record PinInChatMessage : Type 0 where
  pub key : Option MessageKey
  pub type : PinType
  pub sender_timestamp_ms : Option ℕ

-- `waE2E.MessageContextInfo_MessageAddonExpiryType`
pub data AddOnExpiryType : Type 0 where
  static dependent_on_parent : AddOnExpiryType

pub record MessageContextInfo : Type 0 where
  pub add_on_duration_in_secs : Option ℕ
  pub add_on_expiry_type : Option AddOnExpiryType

-- `waHistorySync.HistorySync_HistorySyncType`; the types that the code does not name are `other`.
pub data SyncType : Type 0 where
  initial_bootstrap full recent on_demand other : SyncType

-- `waE2E.Message` as an edited message.
pub record EditedMessage : Type 0 where
  pub conversation : Option String
  pub extended_text : Option ExtendedTextMessage

-- `ProtocolMessage_Type`
pub data ProtocolType : Type 0 where
  message_edit revoke ephemeral_setting other_protocol : ProtocolType

pub record ProtocolMessage : Type 0 where
  pub type : Option ProtocolType
  pub key : Option MessageKey
  pub edited_message : Option EditedMessage
  pub timestamp_ms : Option ℕ
  pub ephemeral_expiration : Option ℕ

-- `waE2E.Message`; of the sender key distribution only its presence is read.
pub record Message : Type 0 where
  pub conversation : Option String
  pub image_message : Option ImageMessage
  pub video_message : Option VideoMessage
  pub audio_message : Option AudioMessage
  pub document_message : Option DocumentMessage
  pub sticker_message : Option StickerMessage
  pub reaction_message : Option ReactionMessage
  pub contact_message : Option ContactMessage
  pub contacts_array_message : Option (List ContactMessage)
  pub extended_text_message : Option ExtendedTextMessage
  pub location_message : Option LocationMessage
  pub pin_in_chat_message : Option PinInChatMessage
  pub message_context_info : Option MessageContextInfo
  pub protocol_message : Option ProtocolMessage
  pub sender_key_distribution : Bool

-- `&waE2E.Message{}`
abbrev pub empty_message : Message
empty_message = record {
  conversation = none;
  image_message = none;
  video_message = none;
  audio_message = none;
  document_message = none;
  sticker_message = none;
  reaction_message = none;
  contact_message = none;
  contacts_array_message = none;
  extended_text_message = none;
  location_message = none;
  pin_in_chat_message = none;
  message_context_info = none;
  protocol_message = none;
  sender_key_distribution = false;
}

-- `&waE2E.ContextInfo{}`
abbrev pub empty_context : ContextInfo
empty_context = record {
  stanza_id = none;
  participant = none;
  quoted_message = none;
  mentioned_jid = [];
  is_forwarded = none;
  expiration = none;
  external_ad_reply = none;
  entry_point_conversion_source = none;
  conversion_source = none;
}
