-- ===== src/Instance/Concurrent/LostCreate.antt =====
-- internal/instance/manager.go: `DeleteInstance` of an ID without an entry holds nothing while its
-- teardown runs, so that a creation of the ID can come between.
use wsapi_app.Common.{◌≡◌, refl, true, String, none, some, arith, eq_refl, ok}
use wsapi_app.Common.Dict.{lookup, lookup-remove}
use wsapi_app.Config.{InstanceConfig}
use wsapi_app.Store.Instances.{Row, upsert}
use wsapi_app.Store.Instances
use wsapi_app.Instance.{Manager, Answers, effective_config, to_record}
use wsapi_app.Instance.Lifecycle.{create_instance}
use wsapi_app.Instance.Lifecycle.Create.{create_registers}
use wsapi_app.Instance.Deletion.{delete_begin, teardown_and_delete, delete_finish}

-- The manager after a deletion of `id`, whose teardown is followed by a creation of `id` before the
-- deletion takes the lock again.
abbrev pub creation_between : Answers → Answers → String → InstanceConfig → Manager → Manager
creation_between a b id cfg m =
    let m1 = (delete_begin id m).1 in
    let (error, m2) = teardown_and_delete a id none m1 in
    let (_, m3) = create_instance b id cfg m2 in delete_finish id none error m3

no_error :
    (a : Answers) (id : String) (m : Manager)
    → a.db_ok ≡ true
    → (teardown_and_delete a id none m).0 ≡ none
unfolding teardown_and_delete Instances.delete_instance
no_error a id m h = ground arith

-- A deletion of an ID without an entry lets a creation of the same ID in before it ends. The
-- creation returns no error and its row stays in the table, but the deletion then removes the new
-- entry, so that the instance that was created resolves to nothing.
pub creation_between_is_lost :
    (a b : Answers) (id : String) (cfg : InstanceConfig) (m : Manager)
    → lookup id m.instances ≡ none
    → a.db_ok ≡ true
    → (create_instance b id cfg (teardown_and_delete a id none (delete_begin id m).1).1).0 ≡ none
    → let m' = creation_between a b id cfg m in
      ((delete_begin id m).0 ≡ ok none)
      × (lookup id m'.instances ≡ none)
      × ((r : Row) × (lookup id m'.rows ≡ some r))
unfolding delete_begin delete_finish
creation_between_is_lost a b id cfg m absent works created =
    let m1 = (delete_begin id m).1 in
    let m2 = (teardown_and_delete a id none m1).1 in
    let (_, _, _, _, row) = create_registers b id cfg m2 created in
    (
      rw (absent, delete_begin) refl,
      rw (no_error a id m1 works, delete_finish) (rw (lookup-remove, eq_refl id) refl),
      (
        upsert b.now (to_record id (effective_config m2.defaults cfg)) (lookup id m2.rows),
        rw (no_error a id m1 works, delete_finish) row,
      ),
    )
