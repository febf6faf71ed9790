-- ===== src/Event/Types.antt =====
-- internal/event/types.go: the envelope of an event, and every payload that it can carry.
mod GoTime
mod Message
mod Chat
mod Group
mod Session
pub use GoTime.*
pub use Message.*
pub use Chat.*
pub use Group.*
pub use Session.*
use wsapi_app.Common.{String}

-- What `Data any` holds.
pub data EventData : Type 0 where
  message : MessageEvent → EventData
  receipt : ReceiptEvent → EventData
  message_delete : MessageDeleteEvent → EventData
  message_star : MessageStarEvent → EventData
  history_sync : HistorySyncEvent → EventData
  chat_setting : ChatSettingEvent → EventData
  chat_presence : ChatPresenceEvent → EventData
  chat_push_name : ChatPushNameEvent → EventData
  chat_status : ChatStatusEvent → EventData
  chat_picture : ChatPictureEvent → EventData
  newsletter : NewsletterEvent → EventData
  contact : ContactEvent → EventData
  presence : PresenceEvent → EventData
  group : GroupEvent → EventData
  call_offer : CallOfferEvent → EventData
  call_terminate : CallTerminateEvent → EventData
  call_accept : CallAcceptEvent → EventData
  session_logged_in : SessionLoggedInEvent → EventData
  session_logged_out : SessionLoggedOutEvent → EventData
  session_login_error : SessionLoginErrorEvent → EventData
  initial_sync_finished : InitialSyncFinishedEvent → EventData

pub record Event : Type 0 where
  pub event_id : String
  pub instance_id : String
  pub event_type : String
  pub received_at : Time
  pub event_data : EventData

-- `NewEvent`: the generated ID and the current time are arguments.
unfoldable pub new_event : String → Time → String → String → EventData → Event
new_event id now instance_id event_type payload = record {
  event_id = id;
  instance_id = instance_id;
  event_type = event_type;
  received_at = now;
  event_data = payload;
}
