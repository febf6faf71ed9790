-- ===== src/Event/Types/Chat.antt =====
-- internal/event/types.go: the payloads about chats, newsletters, contacts and presence. A pointer is an `Option`.
use wsapi_app.Common.{Bool, String, Option}
use wsapi_app.Identity.{Identity, Sender}
use wsapi_app.Event.Types.GoTime.{Time}

pub record ChatMuteSetting : Type 0 where
  pub is_muted : Bool
  pub mute_end_time : String

pub record ChatPinSetting : Type 0 where
  pub is_pinned : Bool

pub record ChatArchiveSetting : Type 0 where
  pub is_archived : Bool

pub record ChatReadSetting : Type 0 where
  pub is_read : Bool

pub record ChatEphemeralSetting : Type 0 where
  pub expiration : String
  pub sender : Sender

pub record ChatSettingEvent : Type 0 where
  pub id : String
  pub setting_type : String
  pub mute : Option ChatMuteSetting
  pub pin : Option ChatPinSetting
  pub archive : Option ChatArchiveSetting
  pub read : Option ChatReadSetting
  pub ephemeral : Option ChatEphemeralSetting

pub record ChatPresenceEvent : Type 0 where
  pub id : String
  pub sender : Sender
  pub state : String

pub record ChatPushNameEvent : Type 0 where
  pub user : Identity
  pub push_name : String

pub record ChatStatusEvent : Type 0 where
  pub user : Identity
  pub status : String

pub record ChatPictureEvent : Type 0 where
  pub id : String
  pub sender : Sender
  pub picture_id : String

pub record NewsletterEvent : Type 0 where
  pub id : String
  pub action : String
  pub name : String
  pub role : String
  pub mute : String

pub record ContactEvent : Type 0 where
  pub contact : Identity
  pub full_name : String
  pub in_phone_address_book : Bool

pub record PresenceEvent : Type 0 where
  pub user : Identity
  pub status : String
  pub last_seen : Time
