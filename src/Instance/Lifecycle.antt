-- ===== src/Instance/Lifecycle.antt =====
-- internal/instance/manager.go: the operations of the manager. Each runs under the manager's lock,
-- so that it is one step, but for `DeleteInstance`, which is three.
pub mod Create
pub mod Handler
use wsapi_app.Common.{
  ℕ, suc, true, false, not, String, ◌==◌, Option, none, some, List, [], ◌∷◌, ◌++◌, if◌then◌else◌,
  ok, err,
}
use wsapi_app.Common.Dict.{lookup, insert}
use wsapi_app.Config.{InstanceConfig}
use wsapi_app.Publisher.{Publisher}
use wsapi_app.Store.Instances.{save_instance, update_device_state}
use wsapi_app.Instance.{
  Instance, Effect, service_created, connected, disconnected, logged_out, publisher_closed,
  dedup_closed, published, Manager, Answers, ManagerError, being_deleted, already_exists, not_found,
  persist_failed, set_object, get_instance, effective_config, to_record, publisher_for,
  logout_event,
}

-- The pointer `p` holds `inst` from now on.
abbrev pub put : ℕ → Instance → Manager → Manager
put p inst m = record m { objects = set_object m.objects p inst }

abbrev pub note : List Effect → Manager → Manager
note effects m = record m { log = effects ++ m.log }

-- What `initService` calls.
abbrev pub service_effects : Answers → ℕ → String → List Effect
service_effects a p device_id =
    if not a.service_ok
    then []
    else if device_id == ""
    then service_created p device_id ∷ []
    else connected p ∷ service_created p device_id ∷ []

-- `initService`: the service is replaced if a new one could be made.
abbrev pub with_service : Answers → String → Instance → Instance
with_service a device_id inst =
    if a.service_ok
    then record inst {
      service = some (record {
        device_id = device_id;
        handler_publisher = inst.publisher;
        handler_config = inst.config;
      });
    }
    else inst

unfoldable pub init_service : Answers → ℕ → String → Manager → Manager
init_service a p device_id m =
    note (service_effects a p device_id) (put p (with_service a device_id (m.objects p)) m)

-- The object that `buildInstance` allocates.
abbrev pub built : Answers → Manager → String → String → InstanceConfig → Instance
built a m id device_id cfg = with_service a device_id (record {
  id = id;
  config = cfg;
  service = none;
  publisher = some (publisher_for m.factory id cfg);
  has_dedup = true;
  deleting = false;
})

-- `buildInstance`, and the entry that its callers make.
unfoldable pub register : Answers → String → String → InstanceConfig → Manager → Manager
register a id device_id cfg m = note (service_effects a m.next device_id) (record m {
  instances = insert id m.next m.instances;
  objects = set_object m.objects m.next (built a m id device_id cfg);
  next = suc m.next;
})

-- `CreateInstance` after the test for an entry.
unfoldable pub create_new :
    Answers → String → InstanceConfig → Manager → Option ManagerError × Manager
create_new a id cfg m =
    let cfg' = effective_config m.defaults cfg in
    elim (save_instance a.db_ok a.now (to_record id cfg') m.rows) [
      | err _ ↦ (some persist_failed, m)
      | ok rows ↦ (none, register a id "" cfg' (record m { rows = rows }))
    ]

-- `CreateInstance`
unfoldable pub create_instance :
    Answers → String → InstanceConfig → Manager → Option ManagerError × Manager
create_instance a id cfg m = elim (lookup id m.instances) [
  | some p ↦ (if (m.objects p).deleting then some being_deleted else some already_exists, m)
  | none ↦ create_new a id cfg m
]

-- `_ = inst.Publisher.Close()`, if there is one.
abbrev pub close_publisher : ℕ → Instance → List Effect
close_publisher p inst = elim inst.publisher [ none ↦ [] | some _ ↦ publisher_closed p ∷ [] ]

abbrev pub close_dedup : ℕ → Instance → List Effect
close_dedup p inst = if inst.has_dedup then dedup_closed p ∷ [] else []

abbrev pub disconnect : ℕ → Instance → List Effect
disconnect p inst = elim inst.service [ none ↦ [] | some _ ↦ disconnected p ∷ [] ]

-- `UpdateInstanceConfig` of an instance that was found: the change in memory is made before the
-- record is saved, and stays if that fails.
unfoldable pub update_found :
    Answers → String → InstanceConfig → ℕ → Manager → Option ManagerError × Manager
update_found a id cfg p m =
    let inst = m.objects p in
    let cfg' = effective_config m.defaults cfg in
    let m' = note (close_publisher p inst) (
      put p (record inst { config = cfg'; publisher = some (publisher_for m.factory id cfg') })
        m) in
    elim (save_instance a.db_ok a.now (to_record id cfg') m.rows) [
      | err _ ↦ (some persist_failed, m')
      | ok rows ↦ (none, record m' { rows = rows })
    ]

-- `UpdateInstanceConfig`
unfoldable pub update_instance_config :
    Answers → String → InstanceConfig → Manager → Option ManagerError × Manager
update_instance_config a id cfg m = elim (get_instance m id) [
  | none ↦ (some not_found, m)
  | some p ↦ update_found a id cfg p m
]

-- `RestartInstance` of an instance that was found.
unfoldable pub restart_found : Answers → String → ℕ → Manager → Manager
restart_found a id p m =
    let inst = m.objects p in
    let device_id : String = elim inst.service [ none ↦ "" | some _ ↦ a.device_jid ] in
    register a id device_id inst.config
      (note (close_dedup p inst ++ (close_publisher p inst ++ disconnect p inst)) m)

-- `RestartInstance`
unfoldable pub restart_instance : Answers → String → Manager → Option ManagerError × Manager
restart_instance a id m = elim (get_instance m id) [
  | none ↦ (some not_found, m)
  | some p ↦ (none, restart_found a id p m)
]

-- `rebuildInstanceService`
unfoldable pub rebuild_instance_service : Answers → String → Manager → Manager
rebuild_instance_service a id m = elim (get_instance m id) [
  | none ↦ m
  | some p ↦ init_service a p "" (note (disconnect p (m.objects p)) m)
]

-- `m.store.UpdateDeviceState(ctx, id, "", false)`, whose error is only logged.
unfoldable pub persist_logout : Answers → String → Manager → Manager
persist_logout a id m =
    if m.has_store
    then elim (update_device_state a.db_ok a.now id "" false m.rows) [
      | err _ ↦ m
      | ok rows ↦ record m { rows = rows }
    ]
    else m

-- The `logged_out` event of an API logout.
abbrev pub announce_logout : Answers → String → Option ℕ → Manager → Manager
announce_logout a id none m = m
announce_logout a id (some p) m = elim (m.objects p).publisher [
  | none ↦ m
  | some pub' ↦ note (published pub' (logout_event a id "api_logout") ∷ []) m
]

-- `HandleLogout`
unfoldable pub handle_logout : Answers → String → Manager → Manager
handle_logout a id m =
    let m' = persist_logout a id m in
    rebuild_instance_service a id (announce_logout a id (get_instance m' id) m')
