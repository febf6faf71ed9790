-- ===== src/Instance/Deletion.antt =====
-- internal/instance/manager.go: `DeleteInstance`. The lock is held at the beginning and at the end;
-- the teardown between them runs without it.
pub mod Laws
pub mod ShutOut
use wsapi_app.Common.{
  ℕ, Bool, true, false, not, String, Option, none, some, List, [], ◌∷◌, ◌++◌, if◌then◌else◌, Result,
  ok, err,
}
use wsapi_app.Common.Dict.{lookup, remove}
use wsapi_app.Store.Instances.{StoreError, database, instance_not_found}
use wsapi_app.Store.Instances
use wsapi_app.Instance.{
  Instance, Effect, logged_out, device_deleted, published, Manager, Answers, ManagerError,
  being_deleted, store_delete_failed, logout_event,
}
use wsapi_app.Instance.Lifecycle.{put, note, close_publisher, close_dedup}

-- The first critical section: an error, or the entry that was found and is marked now.
unfoldable pub delete_begin : String → Manager → Result ManagerError (Option ℕ) × Manager
delete_begin id m = elim (lookup id m.instances) [
  | none ↦ (ok none, m)
  | some p ↦
      if (m.objects p).deleting
      then (err being_deleted, m)
      else (ok (some p), put p (record (m.objects p) { deleting = true }) m)
]

-- "Log out from WhatsApp to unlink the device, then clean up." The newest call comes first.
abbrev pub unlink : Answers → ℕ → Instance → List Effect
unlink a p inst = elim inst.service [
  | none ↦ []
  | some _ ↦
      if a.is_logged_in
      then (if a.logout_ok then logged_out p ∷ [] else device_deleted p ∷ logged_out p ∷ [])
      else device_deleted p ∷ []
]

-- "client.Logout() does not emit a LoggedOut event, so publish explicitly".
abbrev pub announce : Answers → String → Instance → List Effect
announce a id inst = elim inst.publisher [
  | none ↦ []
  | some pub' ↦ elim inst.service [
    | none ↦ []
    | some _ ↦
        if a.is_logged_in then published pub' (logout_event a id "instance_deleted") ∷ [] else []
  ]
]

-- `teardownAndDelete` up to the store, for the instance that was found.
unfoldable pub teardown_effects : Answers → String → Option ℕ → Manager → List Effect
teardown_effects a id none m = []
teardown_effects a id (some p) m =
    let inst = m.objects p in
    close_dedup p inst ++ (close_publisher p inst ++ (announce a id inst ++ unlink a p inst))

-- `teardownAndDelete`: a row that is gone already is no error.
unfoldable pub teardown_and_delete :
    Answers → String → Option ℕ → Manager → Option ManagerError × Manager
teardown_and_delete a id handle m =
    let m' = note (teardown_effects a id handle m) m in
    elim (Instances.delete_instance a.db_ok id m.rows) [
      | ok rows ↦ (none, record m' { rows = rows })
      | err e ↦ (elim e [ instance_not_found ↦ none | database ↦ some store_delete_failed ], m')
    ]

-- The last critical section.
unfoldable pub delete_finish : String → Option ℕ → Option ManagerError → Manager → Manager
delete_finish id handle none m = record m { instances = remove id m.instances }
delete_finish id none (some e) m = m
delete_finish id (some p) (some e) m = put p (record (m.objects p) { deleting = false }) m

-- The rest of `DeleteInstance` after its first critical section, when nothing comes between.
unfoldable pub delete_rest :
    Answers → String → Result ManagerError (Option ℕ) × Manager → Option ManagerError × Manager
delete_rest a id (err e, m) = (some e, m)
delete_rest a id (ok handle, m) =
    let (error, m') = teardown_and_delete a id handle m in (error, delete_finish id handle error m')

-- `DeleteInstance`, when nothing comes between its three parts.
unfoldable pub delete_instance : Answers → String → Manager → Option ManagerError × Manager
delete_instance a id m = delete_rest a id (delete_begin id m)
