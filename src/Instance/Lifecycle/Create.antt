-- ===== src/Instance/Lifecycle/Create.antt =====
-- What a creation registers and persists.
use wsapi_app.Common.{
  ℕ, ◌≡◌, refl, false, String, none, some, arith, eq_iff, eq_refl, Option-cases, inl, inr,
}
use wsapi_app.Common.Dict.{lookup, insert, lookup-insert}
use wsapi_app.Config.{InstanceConfig}
use wsapi_app.Store.Instances.{upsert, save_instance}
use wsapi_app.Instance.{Manager, Answers, get_instance, effective_config, to_record}
use wsapi_app.Instance.Lookup.{get_unmarked}
use wsapi_app.Instance.Lifecycle.{register, create_new, create_instance}

saved_row :
    (a : Answers) (id : String) (cfg : InstanceConfig) (m : Manager)
    → (create_new a id cfg m).0 ≡ none
    → let m' = (create_new a id cfg m).1 in
      (lookup id m'.rows
        ≡ some (upsert a.now (to_record id (effective_config m.defaults cfg)) (lookup id m.rows)))
      × (m'.instances ≡ insert id m.next m.instances)
      × ((m'.objects m.next).deleting ≡ false)
      × ((m'.objects m.next).id ≡ id)
      × ((m'.objects m.next).config ≡ effective_config m.defaults cfg)
unfolding create_new save_instance register to_record
saved_row a id cfg m h = ground (
  arith,
  eq_iff id id,
  lookup-insert id id
      (upsert a.now (to_record id (effective_config m.defaults cfg)) (lookup id m.rows)) m.rows,
)

existing :
    (a : Answers) (id : String) (cfg : InstanceConfig) (m : Manager) (p : ℕ)
    → lookup id m.instances ≡ some p
    → (create_instance a id cfg m).0 ≡ none
    → ⊥
unfolding create_instance
existing a id cfg m p present h = ground arith

-- A creation that returns no error found no entry for the ID; afterwards the ID resolves to a new
-- instance of that name, whose configuration is the given one with the defaults filled in and the
-- system events stripped from its filters, and the row of the ID holds the same configuration.
pub create_registers :
    (a : Answers) (id : String) (cfg : InstanceConfig) (m : Manager)
    → (create_instance a id cfg m).0 ≡ none
    → let m' = (create_instance a id cfg m).1 in
      let cfg' = effective_config m.defaults cfg in
      (lookup id m.instances ≡ none)
      × (get_instance m' id ≡ some m.next)
      × ((m'.objects m.next).id ≡ id)
      × ((m'.objects m.next).config ≡ cfg')
      × (lookup id m'.rows ≡ some (upsert a.now (to_record id cfg') (lookup id m.rows)))
unfolding create_instance
create_registers a id cfg m h = elim (Option-cases (lookup id m.instances)) [
  | inl absent ↦
      let (row, entry, unmarked, named, config) =
        saved_row a id cfg m (rw (absent, create_instance) at h) in
      rw (absent, create_instance)
        (
          refl,
          get_unmarked id _ m.next (rw (entry, lookup-insert, eq_refl id)) unmarked,
          named,
          config,
          row,
        )
  | inr (p, present) ↦ absurd (existing a id cfg m p present h)
]
