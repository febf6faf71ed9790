-- ===== src/Instance/Deletion/ShutOut.antt =====
-- What is refused while an instance is being deleted. Not among it are the storing of a device that a
-- logout lost, which writes the row, and a start or shutdown of the program, which replace the entry.
use wsapi_app.Common.{ℕ, ◌≡◌, refl, true, String, none, some}
use wsapi_app.Common.Dict.{lookup}
use wsapi_app.Config.{InstanceConfig}
use wsapi_app.Instance.{Manager, Answers, being_deleted, not_found, get_instance}
use wsapi_app.Instance.Lookup.{get_marked}
use wsapi_app.Instance.Lifecycle.{
  create_instance, update_instance_config, restart_instance, rebuild_instance_service,
  announce_logout,
}
use wsapi_app.Instance.Deletion.{delete_begin, delete_rest, delete_instance}
use wsapi_app.Instance.Concurrent.{Pending, System, Reach, IsFresh}
use wsapi_app.Instance.Concurrent.Safety.{Reach-Consistent}

module _ (a : Answers) (id : String) (cfg : InstanceConfig) (m : Manager) (p : ℕ)
    (present : lookup id m.instances ≡ some p) (deleting : (m.objects p).deleting ≡ true) where
  pub marked-get_instance : get_instance m id ≡ none
  marked-get_instance = get_marked id m p present deleting

  marked-delete : delete_instance a id m ≡ (some being_deleted, m)
  unfolding delete_instance delete_begin delete_rest
  marked-delete = rw (present, delete_begin, deleting)

  marked-create : create_instance a id cfg m ≡ (some being_deleted, m)
  unfolding create_instance
  marked-create = rw (present, create_instance, deleting)

  marked-update : update_instance_config a id cfg m ≡ (some not_found, m)
  unfolding update_instance_config
  marked-update = rw (marked-get_instance, update_instance_config)

  marked-restart : restart_instance a id m ≡ (some not_found, m)
  unfolding restart_instance
  marked-restart = rw (marked-get_instance, restart_instance)

  marked-rebuild : rebuild_instance_service a id m ≡ m
  unfolding rebuild_instance_service
  marked-rebuild = rw (marked-get_instance, rebuild_instance_service)

-- In every state that a new manager reaches, by any interleaving, in which a deletion is under way and the
-- entry that it found still stands: the ID resolves to nothing, another deletion and a creation are
-- refused as "being deleted", an update and a restart do not find it, and a rebuild of the service and
-- the announcement of a logout do nothing; none of these changes the manager.
pub deleting_is_shut_out :
    {s u : System} (fresh : IsFresh s) (r : Reach s u) (t p : ℕ) (q : Pending) (a : Answers)
    (cfg : InstanceConfig)
    → u.pending t ≡ some q
    → q.handle ≡ some p
    → lookup q.id u.mgr.instances ≡ some p
    → (get_instance u.mgr q.id ≡ none)
      × (delete_instance a q.id u.mgr ≡ (some being_deleted, u.mgr))
      × (create_instance a q.id cfg u.mgr ≡ (some being_deleted, u.mgr))
      × (update_instance_config a q.id cfg u.mgr ≡ (some not_found, u.mgr))
      × (restart_instance a q.id u.mgr ≡ (some not_found, u.mgr))
      × (rebuild_instance_service a q.id u.mgr ≡ u.mgr)
      × (announce_logout a q.id (get_instance u.mgr q.id) u.mgr ≡ u.mgr)
deleting_is_shut_out {u = u} fresh r t p q a cfg busy holds present =
    let deleting = ((Reach-Consistent fresh r).owned t q.id p (rw (busy, holds) refl)).0 in
    (
      marked-get_instance a q.id cfg u.mgr p present deleting,
      marked-delete a q.id cfg u.mgr p present deleting,
      marked-create a q.id cfg u.mgr p present deleting,
      marked-update a q.id cfg u.mgr p present deleting,
      marked-restart a q.id cfg u.mgr p present deleting,
      marked-rebuild a q.id cfg u.mgr p present deleting,
      rw (marked-get_instance a q.id cfg u.mgr p present deleting) refl,
    )
