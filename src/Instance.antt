-- ===== src/Instance.antt =====
-- internal/instance: the instances that the process manages, and their configuration.
pub mod Lookup
pub mod Lifecycle
pub mod Startup
pub mod Deletion
pub mod Concurrent
pub mod AppState
pub mod Pipeline
pub mod Tracking
pub mod InitialSync
pub mod Login
mod Tests
pub mod Samples
mod EventTests
use wsapi_app.Common.{
  ℕ, Bool, true, false, not, String, ◌==◌, Option, none, some, List, [], ◌∷◌, length, eqb,
  if◌then◌else◌,
}
use wsapi_app.Common.Dict.{Dict, lookup}
use wsapi_app.Config.{InstanceConfig}
use wsapi_app.Event.Constants.{type_logged_out, strip_system_events}
use wsapi_app.Event.Types.{Event, Time, new_event, session_logged_out}
use wsapi_app.Publisher.{Publisher, Factory, create}
use wsapi_app.Store.Instances.{Row, InstanceRecord}

-- `*whatsapp.Service`: of the WhatsApp client we keep the device that it was opened with, and what
-- the event handler that `initService` registers on it has captured.
pub record Service : Type 0 where
  pub device_id : String
  pub handler_publisher : Option Publisher
  pub handler_config : InstanceConfig

-- `Instance`. The deduplication set is kept by the event handler; here only its presence counts.
pub record Instance : Type 0 where
  pub id : String
  pub config : InstanceConfig
  pub service : Option Service
  pub publisher : Option Publisher
  pub has_dedup : Bool
  pub deleting : Bool

-- Calls that leave the manager. The number is the pointer of the instance concerned.
pub data Effect : Type 0 where
  service_created : ℕ → String → Effect
  connected disconnected logged_out device_deleted publisher_closed dedup_closed : ℕ → Effect
  published : Publisher → Event → Effect

-- `Manager`: a map of pointers, the heap that they point into, the table, and what was called, the
-- newest call first.
pub record Manager : Type 0 where
  pub instances : Dict ℕ
  pub objects : ℕ → Instance
  pub next : ℕ
  pub has_store : Bool
  pub rows : Dict Row
  pub defaults : InstanceConfig
  pub factory : Factory
  pub log : List Effect

-- What the environment answers during one call.
pub record Answers : Type 0 where
  pub now : Time
  pub event_id : String
  pub db_ok : Bool
  pub service_ok : Bool
  pub is_logged_in : Bool
  pub logout_ok : Bool
  pub device_jid : String

pub data ManagerError : Type 0 where
  being_deleted already_exists not_found : ManagerError
  persist_failed store_delete_failed list_failed get_first_device_failed : ManagerError

-- `*p = f(*p)`
abbrev pub set_object : (ℕ → Instance) → ℕ → Instance → ℕ → Instance
set_object objects p inst q = if eqb p q then inst else objects q

-- `lookup`, which `GetInstance` and `GetInstanceDirect` call under the lock. The flag of the object
-- that the entry points to is tested.
unfoldable pub visible : (ℕ → Instance) → Option ℕ → Option ℕ
visible objects none = none
visible objects (some p) = if (objects p).deleting then none else some p

unfoldable pub get_instance : Manager → String → Option ℕ
get_instance m id = visible m.objects (lookup id m.instances)

-- `applyDefaults`
unfoldable pub apply_defaults : InstanceConfig → InstanceConfig → InstanceConfig
apply_defaults d cfg = record {
  api_key = if cfg.api_key == "" then d.api_key else cfg.api_key;
  webhook_url = if cfg.webhook_url == "" then d.webhook_url else cfg.webhook_url;
  signing_secret = if cfg.signing_secret == "" then d.signing_secret else cfg.signing_secret;
  event_filters = if eqb (length cfg.event_filters) 0 then d.event_filters else cfg.event_filters;
  history_sync = elim cfg.history_sync [ none ↦ d.history_sync | some b ↦ some b ];
  publish_events = elim cfg.publish_events [ none ↦ d.publish_events | some b ↦ some b ];
}

-- `publishEventsEnabled`
unfoldable pub publish_events_enabled : InstanceConfig → Bool
publish_events_enabled cfg = elim cfg.publish_events [ none ↦ true | some b ↦ b ]

-- The defaults applied and the system events stripped, as `CreateInstance` and
-- `UpdateInstanceConfig` do.
unfoldable pub effective_config : InstanceConfig → InstanceConfig → InstanceConfig
effective_config d cfg =
    let cfg' = apply_defaults d cfg in
    record cfg' { event_filters = strip_system_events cfg'.event_filters }

-- The record that is persisted for a configuration.
unfoldable pub to_record : String → InstanceConfig → InstanceRecord
to_record id cfg = record {
  id = id;
  device_id = "";
  api_key = cfg.api_key;
  webhook_url = cfg.webhook_url;
  signing_secret = cfg.signing_secret;
  event_filters = cfg.event_filters;
  history_sync = cfg.history_sync;
  publish_events = cfg.publish_events;
  created_at = 0;
  updated_at = 0;
  logged_in_at = none;
  logged_out_at = none;
}

-- The publisher that the factory makes for a configuration.
unfoldable pub publisher_for : Factory → String → InstanceConfig → Publisher
publisher_for f id cfg = create f id cfg.webhook_url cfg.signing_secret (publish_events_enabled cfg)

-- The `logged_out` event of an explicit logout.
unfoldable pub logout_event : Answers → String → String → Event
logout_event a id reason =
    new_event a.event_id a.now id type_logged_out (session_logged_out (record { reason = reason }))
