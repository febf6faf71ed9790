-- ===== src/Instance/Concurrent/Steps.antt =====
-- internal/instance/manager.go: that no step of a goroutine breaks the order of the deletions.
use mathlib.Core.Path.{fun_ext}
use wsapi_app.Common.{
  ℕ, ◌≡◌, List, ◌∷◌, refl, sym, ap, ◌∙◌, eqb_iff, Bool-cases, Option-cases, inl, inr, ◌⊎◌, Bool,
  true, false, String, Option, none, some, eqb, ok, [],
}
use wsapi_app.Common.Dict.{lookup}
use wsapi_app.Config.{InstanceConfig}
use wsapi_app.Instance.{Manager, Answers, ManagerError, get_instance}
use wsapi_app.Store.Instances.{InstanceRecord, list_instances}
use wsapi_app.Instance.Lifecycle.{
  create_instance, update_instance_config, restart_instance, rebuild_instance_service, note,
  disconnect,
}
use wsapi_app.Instance.Startup.{
  restore_all, restore_instances, ensure_single_instance, single_instance_id,
}
use wsapi_app.Instance.Deletion.{delete_begin, teardown_and_delete, delete_finish}
use wsapi_app.Instance.Concurrent.{
  tearing, torn, Pending, System, set_pending, begin_at, finish_at, Step, create, update, restart,
  persist, announce, rebuild, begin_delete, teardown, finish, restore, ensure, stop,
}
use wsapi_app.Instance.Concurrent.Skeleton.{
  Skeleton, skeleton, set_at, set_at_same, registered, mark, put_lem, skeleton-init_service,
  skeleton-persist_logout, skeleton-announce_logout, skeleton-teardown_and_delete,
  skeleton-update_found, skeleton-create_new, skeleton-restart_found, skeleton-shutdown,
  skeleton-register,
}
use wsapi_app.Instance.Concurrent.Owners.{
  Owners, IsConsistent, registered-IsConsistent, begin-IsConsistent, undo-IsConsistent,
  remove-IsConsistent, clear-IsConsistent,
}

-- What a deletion holds.
abbrev pub hold : String → Option ℕ → Option (String × ℕ)
hold id none = none
hold id (some p) = some (id, p)

abbrev pub holding : Option Pending → Option (String × ℕ)
holding none = none
holding (some q) = hold q.id q.handle

abbrev pub owners : (ℕ → Option Pending) → Owners
owners pending t = holding (pending t)

pub owners-set :
    (t : ℕ) (q : Option Pending) (pending : ℕ → Option Pending)
    → owners (set_pending t q pending) ≡ set_at t (holding q) (owners pending)
owners-set t q pending =
    fun_ext {g = set_at t (holding q) (owners pending)}
      λ u. elim (Bool-cases (eqb t u)) [ inl e ↦ rw e | inr e ↦ rw e ]

-- A deletion that goes on holding what it held.
pub owners-keep :
    (t : ℕ) (q r : Pending) (pending : ℕ → Option Pending)
    → pending t ≡ some q
    → holding (some r) ≡ holding (some q)
    → owners (set_pending t (some r) pending) ≡ owners pending
owners-keep t q r pending h e = fun_ext {g = owners pending} λ u. elim (Bool-cases (eqb t u)) [
  | inl s ↦ rw (s, e) (ap holding (sym h ∙ ap pending ((eqb_iff t u).0 s)))
  | inr s ↦ rw s
]

abbrev pub Consistent : System → Type 0
Consistent s = IsConsistent (skeleton s.mgr) (owners s.pending)

-- An operation that keeps the skeleton, or registers one object.
abbrev Small : Manager → Manager → Type 0
Small m m' =
    (skeleton m' ≡ skeleton m) ⊎ ((id : String) × (skeleton m' ≡ registered id (skeleton m)))

Small-IsConsistent :
    (m m' : Manager) (o : Owners)
    → Small m m'
    → IsConsistent (skeleton m) o
    → IsConsistent (skeleton m') o
Small-IsConsistent m m' o (inl e) inv = rw e inv
Small-IsConsistent m m' o (inr (id, e)) inv = rw e (registered-IsConsistent (skeleton m) o inv id)

module _ (a : Answers) (id : String) (m : Manager) where
  create-Small : (cfg : InstanceConfig) → Small m (create_instance a id cfg m).1
  unfolding create_instance
  create-Small cfg = elim (Option-cases (lookup id m.instances)) [
    | inl absent ↦
        rw (absent, create_instance)
          (elim (skeleton-create_new a id cfg m) [ inl e ↦ inl e | inr e ↦ inr (id, e) ])
    | inr (p, present) ↦ rw (present, create_instance) (inl refl)
  ]

  update-Small : (cfg : InstanceConfig) → Small m (update_instance_config a id cfg m).1
  unfolding update_instance_config
  update-Small cfg = elim (Option-cases (get_instance m id)) [
    | inl absent ↦ rw (absent, update_instance_config) (inl refl)
    | inr (p, present) ↦
        rw (present, update_instance_config) (inl (skeleton-update_found a id cfg p m))
  ]

  restart-Small : Small m (restart_instance a id m).1
  unfolding restart_instance
  restart-Small = elim (Option-cases (get_instance m id)) [
    | inl absent ↦ rw (absent, restart_instance) (inl refl)
    | inr (p, present) ↦ rw (present, restart_instance) (inr (id, skeleton-restart_found a id p m))
  ]

  rebuild-Small : Small m (rebuild_instance_service a id m)
  unfolding rebuild_instance_service
  rebuild-Small = elim (Option-cases (get_instance m id)) [
    | inl absent ↦ rw (absent, rebuild_instance_service) (inl refl)
    | inr (p, present) ↦
        rw (present, rebuild_instance_service)
          (inl (skeleton-init_service a p "" (note (disconnect p (m.objects p)) m)))
  ]

restored-IsConsistent :
    (a : String → Answers) (recs : List InstanceRecord) (m : Manager) (o : Owners)
    → IsConsistent (skeleton m) o
    → IsConsistent (skeleton (restore_all a recs m)) o
unfolding restore_all
restored-IsConsistent a [] m o inv = inv
restored-IsConsistent a (rec ∷ recs) m o inv = restored-IsConsistent a recs _ o (
    rw (skeleton-register (a rec.id) rec.id rec.device_id _ m)
      (registered-IsConsistent (skeleton m) o inv rec.id))

restore-IsConsistent :
    (b : Bool) (a : String → Answers) (m : Manager) (o : Owners)
    → IsConsistent (skeleton m) o
    → IsConsistent (skeleton (restore_instances b a m).1) o
unfolding restore_instances list_instances
restore-IsConsistent true a m o inv = restored-IsConsistent a _ m o inv
restore-IsConsistent false a m o inv = inv

ensure-IsConsistent :
    (a : Answers) (device : Option String) (m : Manager) (o : Owners)
    → IsConsistent (skeleton m) o
    → IsConsistent (skeleton (ensure_single_instance a device m).1) o
unfolding ensure_single_instance
ensure-IsConsistent a none m o inv = inv
ensure-IsConsistent a (some device) m o inv =
    rw (skeleton-register a single_instance_id device _ m)
      (registered-IsConsistent (skeleton m) o inv single_instance_id)

idle-IsConsistent :
    (k : Skeleton) (o : Owners) (t : ℕ)
    → o t ≡ none
    → IsConsistent k o
    → IsConsistent k (set_at t none o)
idle-IsConsistent k o t h inv = rw (set_at_same o t none (sym h)) inv

-- The first critical section marks an object that no other deletion has marked, or does nothing.
begun_lem :
    (id : String) (m : Manager) (handle : Option ℕ)
    → (delete_begin id m).0 ≡ ok handle
    → ((handle ≡ none) × ((delete_begin id m).1 ≡ m))
      ⊎ ((p : ℕ) × (handle ≡ some p)
          × (lookup id m.instances ≡ some p)
          × ((m.objects p).deleting ≡ false)
          × (skeleton (delete_begin id m).1 ≡ mark p true (skeleton m)))
unfolding delete_begin
begun_lem id m handle h = elim (Option-cases (lookup id m.instances)) [
  | inl absent ↦ rw (absent, delete_begin) (inl (cc (rw (absent, delete_begin) at h), refl))
  | inr (p, present) ↦ elim (Bool-cases (m.objects p).deleting) [
    | inl d ↦ absurd (cc (rw (present, delete_begin, d) at h))
    | inr d ↦
        rw (present, delete_begin, d)
          (inr (p, cc (rw (present, delete_begin, d) at h), refl, d, put_lem m p _ true refl refl))
  ]
]

begin_at-Consistent :
    (s : System) (t : ℕ) (id : String) (handle : Option ℕ)
    → s.pending t ≡ none
    → (delete_begin id s.mgr).0 ≡ ok handle
    → Consistent s
    → Consistent (begin_at s t id handle)
begin_at-Consistent s t id handle idle h inv =
    rw (owners-set t (some (record { id = id; handle = handle; phase = tearing })) s.pending)
      (elim (begun_lem id s.mgr handle h) [
        | inl (absent, same) ↦
            rw (absent, same)
              (idle-IsConsistent (skeleton s.mgr) (owners s.pending) t (ap holding idle) inv)
        | inr (p, found, present, unmarked, marked) ↦
            rw (found, marked)
              (begin-IsConsistent (skeleton s.mgr) (owners s.pending) inv t id p present unmarked
                (ap holding idle))
      ])

finished_lem :
    (o : Owners) (t : ℕ) (id : String) (handle : Option ℕ) (e : Option ManagerError) (m : Manager)
    → o t ≡ hold id handle
    → IsConsistent (skeleton m) o
    → IsConsistent (skeleton (delete_finish id handle e m)) (set_at t none o)
unfolding delete_finish
finished_lem o t id none none m h inv = remove-IsConsistent (skeleton m) o inv t id (inl h)
finished_lem o t id (some p) none m h inv = remove-IsConsistent (skeleton m) o inv t id (inr (p, h))
finished_lem o t id none (some e) m h inv = idle-IsConsistent (skeleton m) o t h inv
finished_lem o t id (some p) (some e) m h inv =
    rw (put_lem m p (record (m.objects p) { deleting = false }) false refl refl)
      (undo-IsConsistent (skeleton m) o inv t id p h)

finish_at-Consistent :
    (s : System) (t : ℕ) (q : Pending) (e : Option ManagerError)
    → s.pending t ≡ some q
    → Consistent s
    → Consistent (finish_at s t q e)
finish_at-Consistent s t q e h inv =
    rw (owners-set t none s.pending)
      (finished_lem (owners s.pending) t q.id q.handle e s.mgr (ap holding h) inv)

pub Step-Consistent : {s u : System} → Step s u → Consistent s → Consistent u
Step-Consistent {s} (create a id cfg e) inv = rw e (
    Small-IsConsistent s.mgr (create_instance a id cfg s.mgr).1 (owners s.pending)
      (create-Small a id s.mgr cfg) inv)
Step-Consistent {s} (update a id cfg e) inv = rw e (
    Small-IsConsistent s.mgr (update_instance_config a id cfg s.mgr).1 (owners s.pending)
      (update-Small a id s.mgr cfg) inv)
Step-Consistent {s} (restart a id e) inv = rw e (
    Small-IsConsistent s.mgr (restart_instance a id s.mgr).1 (owners s.pending)
      (restart-Small a id s.mgr) inv)
Step-Consistent {s} (persist a id e) inv = rw (e, skeleton-persist_logout a id s.mgr) inv
Step-Consistent {s} (announce a id e) inv =
    rw (e, skeleton-announce_logout a id (get_instance s.mgr id) s.mgr) inv
Step-Consistent {s} (rebuild a id e) inv = rw e (
    Small-IsConsistent s.mgr (rebuild_instance_service a id s.mgr) (owners s.pending)
      (rebuild-Small a id s.mgr) inv)
Step-Consistent {s} (begin_delete t id handle idle h e) inv =
    rw e (begin_at-Consistent s t id handle idle h inv)
Step-Consistent {s} (teardown t q a h p e) inv =
    rw
      (
        e,
        owners-keep t q (record q { phase = torn (teardown_and_delete a q.id q.handle s.mgr).0 })
            s.pending h refl,
        skeleton-teardown_and_delete a q.id q.handle s.mgr,
      )
      inv
Step-Consistent {s} (finish t q err' h p e) inv = rw e (finish_at-Consistent s t q err' h inv)
Step-Consistent {s} (restore b a e) inv =
    rw e (restore-IsConsistent b a s.mgr (owners s.pending) inv)
Step-Consistent {s} (ensure a device e) inv =
    rw e (ensure-IsConsistent a device s.mgr (owners s.pending) inv)
Step-Consistent {s} (stop e) inv =
    rw (e, skeleton-shutdown s.mgr) (clear-IsConsistent (skeleton s.mgr) (owners s.pending) inv)
