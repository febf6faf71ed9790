-- ===== src/Event/Types/Session.antt =====
-- internal/event/types.go: the payloads about calls and sessions. A pointer is an `Option`.
use wsapi_app.Common.{Bool, String}
use wsapi_app.Identity.{Identity}
use wsapi_app.Event.Types.GoTime.{Time}

pub record CallOfferEvent : Type 0 where
  pub id : String
  pub caller : Identity
  pub chat_id : String
  pub is_group : Bool
  pub time : Time
  pub is_video : Bool

pub record CallTerminateEvent : Type 0 where
  pub id : String
  pub caller : Identity
  pub time : Time
  pub reason : String

pub record CallAcceptEvent : Type 0 where
  pub id : String
  pub caller : Identity
  pub time : Time

pub record SessionLoggedInEvent : Type 0 where
  pub device_id : String

pub record SessionLoggedOutEvent : Type 0 where
  pub reason : String

pub record SessionLoginErrorEvent : Type 0 where
  pub id : String
  pub error : String

pub record InitialSyncFinishedEvent : Type 0 where
