-- ===== src/Instance/Concurrent/Skeleton.antt =====
-- What the safety of deletions turns on: the entries, and the name and the mark of each object.
use mathlib.Core.Path.{fun_ext}
use wsapi_app.Common.{
  ℕ, suc, [], ◌≡◌, refl, ap, ◌∙◌, eqb_iff, Bool-cases, inl, inr, ◌⊎◌, Bool, true, false, String,
  Option, none, some, arith, eqb, if◌then◌else◌,
}
use wsapi_app.Common.Dict.{Dict, insert}
use wsapi_app.Config.{InstanceConfig}
use wsapi_app.Store.Instances.{save_instance, update_device_state}
use wsapi_app.Instance.{Instance, Manager, Answers, effective_config, publisher_for, set_object}
use wsapi_app.Instance.Lifecycle.{
  put, built, init_service, register, create_new, update_found, restart_found, persist_logout,
  announce_logout, with_service,
}
use wsapi_app.Instance.Startup.{shutdown}
use wsapi_app.Instance.Deletion.{teardown_and_delete}

pub record Skeleton : Type 0 where
  pub instances : Dict ℕ
  pub marked : ℕ → Bool
  pub name : ℕ → String
  pub next : ℕ

abbrev pub skeleton : Manager → Skeleton
skeleton m = record {
  instances = m.instances;
  marked = λ p. (m.objects p).deleting;
  name = λ p. (m.objects p).id;
  next = m.next;
}

abbrev pub set_at {ℓ} : {A : Type ℓ} → ℕ → A → (ℕ → A) → ℕ → A
set_at p a f q = if eqb p q then a else f q

-- A new object under a name.
abbrev pub registered : String → Skeleton → Skeleton
registered id k = record {
  instances = insert id k.next k.instances;
  marked = set_at k.next false k.marked;
  name = set_at k.next id k.name;
  next = suc k.next;
}

abbrev pub mark : ℕ → Bool → Skeleton → Skeleton
mark p b k = record k { marked = set_at p b k.marked }

-- A field of the objects after a write.
field_set {ℓ} :
    {A : Type ℓ} (f : Instance → A) (objects : ℕ → Instance) (p : ℕ) (inst : Instance)
    → (λ q. f (set_object objects p inst q)) ≡ set_at p (f inst) (λ q. f (objects q))
field_set f objects p inst =
    fun_ext {g = set_at p (f inst) (λ q. f (objects q))}
      λ q. elim (Bool-cases (eqb p q)) [ inl e ↦ rw e | inr e ↦ rw e ]

pub set_at_same {ℓ} : {A : Type ℓ} (f : ℕ → A) (p : ℕ) (a : A) → a ≡ f p → set_at p a f ≡ f
set_at_same f p a e =
    fun_ext {g = f} λ q. elim (Bool-cases (eqb p q)) [
      | inl h ↦ rw (h, e) (ap f ((eqb_iff p q).0 h))
      | inr h ↦ rw h
    ]

-- What a write does to the skeleton.
pub put_lem :
    (m : Manager) (p : ℕ) (inst : Instance) (b : Bool)
    → inst.deleting ≡ b
    → inst.id ≡ (m.objects p).id
    → skeleton (put p inst m) ≡ mark p b (skeleton m)
put_lem m p inst b d i = λ j. record {
  instances = m.instances;
  marked =
      (field_set (λ o. o.deleting) m.objects p inst
          ∙ ap (λ c. set_at p c (λ q. (m.objects q).deleting)) d)
        j;
  name =
      (field_set (λ o. o.id) m.objects p inst ∙ set_at_same (λ q. (m.objects q).id) p inst.id i) j;
  next = m.next;
}

-- A write that keeps the mark keeps the skeleton.
pub put_same :
    (m : Manager) (p : ℕ) (inst : Instance)
    → inst.deleting ≡ (m.objects p).deleting
    → inst.id ≡ (m.objects p).id
    → skeleton (put p inst m) ≡ skeleton m
put_same m p inst d i = λ j. record {
  instances = m.instances;
  marked =
      (field_set (λ o. o.deleting) m.objects p inst
          ∙ set_at_same (λ q. (m.objects q).deleting) p inst.deleting d)
        j;
  name =
      (field_set (λ o. o.id) m.objects p inst ∙ set_at_same (λ q. (m.objects q).id) p inst.id i) j;
  next = m.next;
}

module _ (a : Answers) where
  with_service_same :
      (device_id : String) (inst : Instance)
      → ((with_service a device_id inst).deleting ≡ inst.deleting)
        × ((with_service a device_id inst).id ≡ inst.id)
  with_service_same device_id inst = ground arith

  pub skeleton-register :
      (id device_id : String) (cfg : InstanceConfig) (m : Manager)
      → skeleton (register a id device_id cfg m) ≡ registered id (skeleton m)
  unfolding register
  skeleton-register id device_id cfg m =
      let inst = built a m id device_id cfg in
      let (d, i) = with_service_same device_id (record {
        id = id;
        config = cfg;
        service = none;
        publisher = some (publisher_for m.factory id cfg);
        has_dedup = true;
        deleting = false;
      }) in
      λ j. record {
        instances = insert id m.next m.instances;
        marked =
            (field_set (λ o. o.deleting) m.objects m.next inst
                ∙ ap (λ c. set_at m.next c (λ q. (m.objects q).deleting)) d)
              j;
        name =
            (field_set (λ o. o.id) m.objects m.next inst
                ∙ ap (λ c. set_at m.next c (λ q. (m.objects q).id)) i)
              j;
        next = suc m.next;
      }

  pub skeleton-init_service :
      (p : ℕ) (device_id : String) (m : Manager)
      → skeleton (init_service a p device_id m) ≡ skeleton m
  unfolding init_service
  skeleton-init_service p device_id m =
      let (d, i) = with_service_same device_id (m.objects p) in
      put_same m p (with_service a device_id (m.objects p)) d i

  pub skeleton-persist_logout :
      (id : String) (m : Manager) → skeleton (persist_logout a id m) ≡ skeleton m
  unfolding persist_logout update_device_state
  skeleton-persist_logout id m = ground arith

  pub skeleton-announce_logout :
      (id : String) (o : Option ℕ) (m : Manager) → skeleton (announce_logout a id o m) ≡ skeleton m
  skeleton-announce_logout id none m = refl
  skeleton-announce_logout id (some p) m = ground arith

  pub skeleton-teardown_and_delete :
      (id : String) (handle : Option ℕ) (m : Manager)
      → skeleton (teardown_and_delete a id handle m).1 ≡ skeleton m
  unfolding teardown_and_delete
  skeleton-teardown_and_delete id handle m = ground arith

  pub skeleton-update_found :
      (id : String) (cfg : InstanceConfig) (p : ℕ) (m : Manager)
      → skeleton (update_found a id cfg p m).1 ≡ skeleton m
  unfolding update_found save_instance
  skeleton-update_found id cfg p m =
      let cfg' = effective_config m.defaults cfg in
      let inst = record (m.objects p) {
        config = cfg';
        publisher = some (publisher_for m.factory id cfg');
      } in
      elim (Bool-cases a.db_ok) [
        | inl e ↦ rw (e, save_instance) (put_same m p inst refl refl)
        | inr e ↦ rw (e, save_instance) (put_same m p inst refl refl)
      ]

  pub skeleton-restart_found :
      (id : String) (p : ℕ) (m : Manager)
      → skeleton (restart_found a id p m) ≡ registered id (skeleton m)
  unfolding restart_found
  skeleton-restart_found id p m = skeleton-register id _ _ _

new_skeleton :
    (a : Answers) (b : Bool) (id : String) (cfg : InstanceConfig) (m : Manager)
    → let m' = (create_new (record a { db_ok = b }) id cfg m).1 in
      (skeleton m' ≡ skeleton m) ⊎ (skeleton m' ≡ registered id (skeleton m))
unfolding create_new save_instance
new_skeleton a true id cfg m = inr (skeleton-register (record a { db_ok = true }) id "" _ _)
new_skeleton a false id cfg m = inl refl

pub skeleton-create_new :
    (a : Answers) (id : String) (cfg : InstanceConfig) (m : Manager)
    → (skeleton (create_new a id cfg m).1 ≡ skeleton m)
      ⊎ (skeleton (create_new a id cfg m).1 ≡ registered id (skeleton m))
skeleton-create_new a id cfg m = new_skeleton a a.db_ok id cfg m

pub skeleton-shutdown :
    (m : Manager) → skeleton (shutdown m) ≡ record (skeleton m) { instances = [] }
unfolding shutdown
skeleton-shutdown m = refl
