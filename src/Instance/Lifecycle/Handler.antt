-- ===== src/Instance/Lifecycle/Handler.antt =====
-- What the registered event handler sees of a change of the configuration.
use wsapi_app.Common.{
  ℕ, ◌≡◌, refl, ap, ◌∙◌, true, String, none, some, List, [], ◌∷◌, map, arith, eq_refl,
}
use wsapi_app.Common.Dict.{lookup-insert}
use wsapi_app.Config.{InstanceConfig}
use wsapi_app.Store.Instances.{save_instance}
use wsapi_app.Instance.{Service, Manager, Answers, get_instance, effective_config, publisher_for}
use wsapi_app.Instance.Lookup.{get_unmarked, get-eq-some}
use wsapi_app.Instance.Lifecycle.Create.{create_registers}
use wsapi_app.Event.Dedup.{Dedup}
use wsapi_app.Instance.Pipeline.{Input, delivered, handled_by}
use wsapi_app.Instance.Lifecycle.{
  register, create_new, create_instance, update_found, update_instance_config, restart_found,
  restart_instance,
}

-- Any number of updates of one instance, whether the database takes them or not.
unfoldable pub updates : String → List (Answers × InstanceConfig) → Manager → Manager
updates id [] m = m
updates id ((a, cfg) ∷ rest) m = updates id rest (update_instance_config a id cfg m).1

-- What updates keep: the entry, its mark, its service, and the defaults and the factory of the manager.
abbrev Kept : String → ℕ → Manager → Manager → Type 0
Kept id p m m' =
    (get_instance m' id ≡ some p)
    × ((m'.objects p).service ≡ (m.objects p).service)
    × (m'.defaults ≡ m.defaults)
    × (m'.factory ≡ m.factory)

update-Kept :
    (a : Answers) (id : String) (cfg : InstanceConfig) (m : Manager) (p : ℕ)
    → get_instance m id ≡ some p
    → Kept id p m (update_instance_config a id cfg m).1
unfolding update_instance_config update_found save_instance
update-Kept a id cfg m p found =
    let (entry, unmarked) = get-eq-some id m p found in
    rw (found, update_instance_config)
      (get_unmarked id _ p (ground arith) (ground arith), ground arith, ground arith, ground arith)

updates-Kept :
    (id : String) (us : List (Answers × InstanceConfig)) (m : Manager) (p : ℕ)
    → get_instance m id ≡ some p
    → Kept id p m (updates id us m)
unfolding updates
updates-Kept id [] m p found = (found, refl, refl, refl)
updates-Kept id ((a, cfg) ∷ rest) m p found =
    let (found', s, d, f) = update-Kept a id cfg m p found in
    let (found'', s', d', f') =
      updates-Kept id rest (update_instance_config a id cfg m).1 p found' in
    (found'', s' ∙ s, d' ∙ d, f' ∙ f)

-- The instance after an update that finds it, saved or not.
updated_lem :
    (a : Answers) (id : String) (cfg : InstanceConfig) (m : Manager) (p : ℕ)
    → get_instance m id ≡ some p
    → let inst = (update_instance_config a id cfg m).1.objects p in
      let cfg' = effective_config m.defaults cfg in
      (inst.config ≡ cfg') × (inst.publisher ≡ some (publisher_for m.factory id cfg'))
unfolding update_instance_config update_found save_instance
updated_lem a id cfg m p found = rw (found, update_instance_config) (ground arith)

-- The service of an instance that was created.
created_service :
    (a : Answers) (id : String) (cfg : InstanceConfig) (m : Manager)
    → (create_instance a id cfg m).0 ≡ none
    → a.service_ok ≡ true
    → let m' = (create_instance a id cfg m).1 in
      let cfg' = effective_config m.defaults cfg in
      ((m'.objects m.next).service
        ≡ some (record {
          device_id = "";
          handler_publisher = some (publisher_for m.factory id cfg');
          handler_config = cfg';
        }))
      × (m'.defaults ≡ m.defaults)
      × (m'.factory ≡ m.factory)
unfolding create_instance create_new save_instance register
created_service a id cfg m made works = (ground arith, ground arith, ground arith)

-- An instance that was created with a service, and then updated any number of times, at last with `cfg`:
-- it has the configuration `cfg`, with the defaults filled in, and a publisher made for it; but
-- whatever happens to its event handler, the handler filters by the configuration of the creation,
-- and hands every event to the publisher of the creation.
pub handler_misses_update :
    (a b : Answers) (id : String) (cfg₀ cfg : InstanceConfig) (m : Manager)
    (us : List (Answers × InstanceConfig)) (d : Dedup) (inputs : List Input)
    → (create_instance a id cfg₀ m).0 ≡ none
    → a.service_ok ≡ true
    → let made = (create_instance a id cfg₀ m).1 in
      let inst = (update_instance_config b id cfg (updates id us made)).1.objects m.next in
      let old = effective_config m.defaults cfg₀ in
      let new = effective_config m.defaults cfg in
      (inst.config ≡ new)
      × (inst.publisher ≡ some (publisher_for m.factory id new))
      × ((s : Service) × (inst.service ≡ some s)
          × (handled_by s d inputs
              ≡ map
                  (λ evt. (some (publisher_for m.factory id old), evt))
                  (delivered old.event_filters d inputs)))
unfolding handled_by
handler_misses_update a b id cfg₀ cfg m us d inputs ok' works =
    let made = (create_instance a id cfg₀ m).1 in
    let (_, entry, _, _, _) = create_registers a id cfg₀ m ok' in
    let (service, defaults, factory) = created_service a id cfg₀ m ok' works in
    let (found, same, defaults', factory') = updates-Kept id us made m.next entry in
    let (_, same', _, _) = update-Kept b id cfg (updates id us made) m.next found in
    let (config, publisher) = updated_lem b id cfg (updates id us made) m.next found in
    (
      config ∙ ap (λ x. effective_config x cfg) (defaults' ∙ defaults),
      publisher ∙ λ i. some (
          publisher_for ((factory' ∙ factory) i) id
            (effective_config ((defaults' ∙ defaults) i) cfg)),
      (_, same' ∙ same ∙ service, refl),
    )

-- A restart that finds its instance and can make a service registers a new instance of the same
-- configuration under the ID, whose event handler uses that configuration and the publisher of the
-- instance, which the factory makes for it.
handler_after_restart :
    (a : Answers) (id : String) (m : Manager) (p : ℕ)
    → get_instance m id ≡ some p
    → a.service_ok ≡ true
    → let m' = (restart_instance a id m).1 in
      let inst = m'.objects m.next in
      let made = some (publisher_for m.factory id (m.objects p).config) in
      (get_instance m' id ≡ some m.next)
      × (inst.config ≡ (m.objects p).config)
      × (inst.publisher ≡ made)
      × ((s : Service) × (inst.service ≡ some s)
          × (s.handler_config ≡ (m.objects p).config)
          × (s.handler_publisher ≡ made))
unfolding restart_instance restart_found register
handler_after_restart a id m p found works =
    rw (found, restart_instance, works)
      (
        get_unmarked id _ m.next (rw (lookup-insert, eq_refl id) refl) (ground arith),
        ground arith,
        ground arith,
        (
          record {
            device_id = elim (m.objects p).service [ none ↦ "" | some _ ↦ a.device_jid ];
            handler_publisher = some (publisher_for m.factory id (m.objects p).config);
            handler_config = (m.objects p).config;
          },
          ground arith,
          refl,
          refl,
        ),
      )
