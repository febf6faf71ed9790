-- ===== src/Instance/Login.antt =====
-- internal/instance/manager.go: the cases PairSuccess and LoggedOut of the event handler of
-- `initService`. The rebuilding of the service that a logout starts is a goroutine of its own:
-- `rebuild_instance_service` of Instance.Lifecycle.
pub mod Device
mod Tests
use wsapi_app.Common.{true, String, [], ◌∷◌, ok, err, if◌then◌else◌}
use wsapi_app.Publisher.{Publisher}
use wsapi_app.Store.Instances.{update_device_state}
use wsapi_app.Instance.{Answers, Manager, published, logout_event}
use wsapi_app.Instance.Lifecycle.{note, persist_logout}

-- The two events: the text of the device's JID, and the reason.
pub data LoginEvent : Type 0 where
  pair_success : String → LoginEvent
  logged_out : String → LoginEvent

-- `m.store.UpdateDeviceState(ctx, id, deviceJID, true)`, whose error is only logged.
unfoldable pub persist_login : Answers → String → String → Manager → Manager
persist_login a id device_jid m =
    if m.has_store
    then elim (update_device_state a.db_ok a.now id device_jid true m.rows) [
      | err _ ↦ m
      | ok rows ↦ record m { rows = rows }
    ]
    else m

-- The two cases, for the ID and the publisher that the handler has captured.
unfoldable pub on_login_event : Answers → String → Publisher → LoginEvent → Manager → Manager
on_login_event a id publisher (pair_success device_jid) m = persist_login a id device_jid m
on_login_event a id publisher (logged_out reason) m =
    note (published publisher (logout_event a id reason) ∷ []) (persist_logout a id m)
