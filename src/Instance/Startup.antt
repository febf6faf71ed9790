-- ===== src/Instance/Startup.antt =====
-- internal/instance/manager.go: what the manager does when the process starts and ends.
pub mod Restored
pub mod Restart
mod Tests
use wsapi_app.Common.{ℕ, Bool, not, String, Option, none, some, List, [], ◌∷◌, ◌++◌, ok, err}
use wsapi_app.Common.Dict.{Dict}
use wsapi_app.Config.{InstanceConfig}
use wsapi_app.Event.Constants.{strip_system_events}
use wsapi_app.Store.Instances.{InstanceRecord, list_instances}
use wsapi_app.Instance.{
  Instance, Effect, Manager, Answers, ManagerError, list_failed, get_first_device_failed,
  apply_defaults,
}
use wsapi_app.Instance.Lifecycle.{register, close_dedup, close_publisher, disconnect}

-- The configuration that a record holds.
abbrev pub record_config : InstanceRecord → InstanceConfig
record_config rec = record {
  api_key = rec.api_key;
  webhook_url = rec.webhook_url;
  signing_secret = rec.signing_secret;
  event_filters = rec.event_filters;
  history_sync = rec.history_sync;
  publish_events = rec.publish_events;
}

-- The loop of `RestoreInstances`; the stored filters are not stripped again.
unfoldable pub restore_all : (String → Answers) → List InstanceRecord → Manager → Manager
restore_all a [] m = m
restore_all a (rec ∷ recs) m =
    let cfg = apply_defaults m.defaults (record_config rec) in
    restore_all a recs (register (a rec.id) rec.id rec.device_id cfg m)

-- `RestoreInstances`: whether the list can be read, and the answers while an instance is built.
unfoldable pub restore_instances :
    Bool → (String → Answers) → Manager → Option ManagerError × Manager
restore_instances db_ok a m = elim (list_instances db_ok m.rows) [
  | err _ ↦ (some list_failed, m)
  | ok recs ↦ (none, restore_all a recs m)
]

abbrev pub single_instance_id : String
single_instance_id = "default"

-- `EnsureSingleInstance`: `none` is an error of `GetFirstDevice`, and the empty text a device that
-- has no ID yet.
unfoldable pub ensure_single_instance :
    Answers → Option String → Manager → Option ManagerError × Manager
ensure_single_instance a none m = (some get_first_device_failed, m)
ensure_single_instance a (some device_id) m =
    let cfg = record m.defaults { event_filters = strip_system_events m.defaults.event_filters } in
    (none, register a single_instance_id device_id cfg m)

-- The loop of `Shutdown`.
unfoldable pub shutdown_effects : (ℕ → Instance) → Dict ℕ → List Effect
shutdown_effects objects [] = []
shutdown_effects objects ((id, p) ∷ rest) =
    let inst = objects p in
    shutdown_effects objects rest
    ++ (close_dedup p inst ++ (close_publisher p inst ++ disconnect p inst))

-- `Shutdown`
unfoldable pub shutdown : Manager → Manager
shutdown m = record m { instances = []; log = shutdown_effects m.objects m.instances ++ m.log }
