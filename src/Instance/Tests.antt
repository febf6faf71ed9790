-- ===== src/Instance/Tests.antt =====
-- The theorems about the manager at a manager with one instance, and at an empty one.
use wsapi_app.Common.{ℕ, ◌≡◌, ◌≢◌, refl, true, false, String, Option, none, some, ok}
use wsapi_app.Common.Dict.{lookup, insert}
use wsapi_app.Store.Instances.{Row, upsert, save_instance}
use wsapi_app.Store.Instances
use wsapi_app.Instance.{Manager, being_deleted, not_found, get_instance, visible}
use wsapi_app.Instance.Samples.{config, fresh, answers}
use wsapi_app.Instance.Lifecycle.{
  register, create_new, create_instance, update_instance_config, restart_instance,
  rebuild_instance_service, announce_logout,
}
use wsapi_app.Instance.Deletion.{delete_begin, teardown_and_delete, delete_instance}
use wsapi_app.Instance.Deletion.ShutOut.{deleting_is_shut_out}
use wsapi_app.Instance.Concurrent.{
  tearing, Pending, System, begin_at, create, begin_delete, Reach, here, next, IsFresh,
}
use wsapi_app.Instance.Concurrent.Safety.{
  found_is_not_deleting, one_deletion_each, marked_has_deletion,
}
use wsapi_app.Instance.Concurrent.Settles.{Settling, deletions_can_settle}
use wsapi_app.Instance.Concurrent.LostCreate.{creation_between, creation_between_is_lost}

abbrev one : Manager
one = (create_instance (answers true) "a" config fresh).1

-- One goroutine creates, and another has begun to delete the instance.
abbrev system : Manager → System
system m = record { mgr = m; pending = λ t. none }

abbrev two : Manager
two = (create_instance (answers true) "b" config one).1

abbrev deleting : System
deleting = begin_at (system two) 7 "a" (some 0)

fresh_lem : IsFresh (system fresh)
fresh_lem = (refl, λ t. refl)

reached : Reach (system fresh) deleting
unfolding create_instance create_new save_instance register lookup insert delete_begin
reached =
    next
      (next (next here (create (answers true) "a" config refl))
        (create (answers true) "b" config refl))
      (begin_delete 7 "a" (some 0) refl refl refl)

abbrev held : Pending
held = record { id = "a"; handle = some 0; phase = tearing }

found_is_not_deleting_example : ◌≢◌ {A = Option ℕ} (some 0) (some 1)
unfolding create_instance create_new save_instance register lookup insert delete_begin get_instance
    visible
found_is_not_deleting_example = found_is_not_deleting fresh_lem reached "b" 1 7 held refl refl

one_deletion_each_example : ◌≡◌ {A = ℕ} 7 7
one_deletion_each_example = one_deletion_each fresh_lem reached 7 7 held held 0 refl refl refl refl

marked_has_deletion_example :
    (t : ℕ) × (q : Pending) × (deleting.pending t ≡ some q) × (q.id ≡ "a") × (q.handle ≡ some 0)
unfolding create_instance create_new save_instance register lookup insert delete_begin
marked_has_deletion_example = marked_has_deletion fresh_lem reached "a" 0 refl refl

deleting_is_shut_out_example :
    let m = deleting.mgr in
    (get_instance m "a" ≡ none)
    × (delete_instance (answers true) "a" m ≡ (some being_deleted, m))
    × (create_instance (answers true) "a" config m ≡ (some being_deleted, m))
    × (update_instance_config (answers true) "a" config m ≡ (some not_found, m))
    × (restart_instance (answers true) "a" m ≡ (some not_found, m))
    × (rebuild_instance_service (answers true) "a" m ≡ m)
    × (announce_logout (answers true) "a" (get_instance m "a") m ≡ m)
unfolding create_instance create_new save_instance register lookup insert delete_begin
deleting_is_shut_out_example =
    deleting_is_shut_out fresh_lem reached 7 0 held (answers true) config refl refl refl

deletions_can_settle_example :
    (v : System) × Settling (λ t. answers false) deleting v
    × ((t : ℕ) → v.pending t ≡ none)
    × ((id : String) (p : ℕ)
        → lookup id v.mgr.instances ≡ some p
        → (v.mgr.objects p).deleting ≡ false)
deletions_can_settle_example = deletions_can_settle fresh_lem reached (λ t. answers false)

creation_between_is_lost_example :
    let m' = creation_between (answers true) (answers true) "a" config fresh in
    ((delete_begin "a" fresh).0 ≡ ok none)
    × (lookup "a" m'.instances ≡ none)
    × ((r : Row) × (lookup "a" m'.rows ≡ some r))
unfolding create_instance create_new save_instance lookup delete_begin teardown_and_delete
    Instances.delete_instance
creation_between_is_lost_example =
    creation_between_is_lost (answers true) (answers true) "a" config fresh refl refl refl
