-- ===== src/Instance/Startup/Restored.antt =====
-- The instances after the process was started again.
use wsapi_app.Common.{
  ℕ, ◌<◌, ◌≡◌, ◌≢◌, refl, ap, ◌∙◌, true, false, String, ◌==◌, none, some, List, [], ◌∷◌, map,
  Bool-cases, inl, inr, eq_iff, eq_refl, arith, if◌then◌else◌,
}
use wsapi_app.Common.Dict.{Dict, lookup, lookup-insert}
use wsapi_app.Store.Instances.{InstanceRecord, Row, scan, list_instances}
use wsapi_app.Instance.{Instance, Manager, Answers, get_instance, apply_defaults, publisher_for}
use wsapi_app.Instance.Lookup.{get_unmarked}
use wsapi_app.Instance.Lifecycle.{built, register}
use wsapi_app.Instance.Startup.{record_config, restore_all, restore_instances}

-- A table has one row for each key.
abbrev pub IsTable : Dict Row → Type 0
IsTable [] = Unit
IsTable ((id, row) ∷ rows) = (lookup id rows ≡ none) × IsTable rows

abbrev records : Dict Row → List InstanceRecord
records rows = map (λ p. scan p.0 p.1) rows

-- The objects made before the loop stay as they are.
restore_all-objects :
    (a : String → Answers) (recs : List InstanceRecord) (m : Manager) (p : ℕ)
    → p < m.next
    → (restore_all a recs m).objects p ≡ m.objects p
unfolding restore_all register
restore_all-objects a [] m p old = refl
restore_all-objects a (rec ∷ recs) m p old =
    let cfg = apply_defaults m.defaults (record_config rec) in
    let m' = register (a rec.id) rec.id rec.device_id cfg m in
    restore_all-objects a recs m' p (omega (arith, old)) ∙ ground (arith, old)

nothing_found : (id : String) (row : Row) → lookup id [] ≢ some row
unfolding lookup
nothing_found id row = λ h. cc

found_cons :
    (id other : String) (row : Row) (rows : Dict Row)
    → lookup id ((other, row) ∷ rows) ≡ (if other == id then some row else lookup id rows)
unfolding lookup
found_cons id other row rows = refl

absent_cons :
    (id other : String) (row : Row) (rows : Dict Row)
    → lookup id ((other, row) ∷ rows) ≡ none
    → ((other == id) ≡ false) × (lookup id rows ≡ none)
absent_cons id other row rows h = ground (arith, found_cons id other row rows)

-- The entries of IDs that are not restored stay as they are.
restore_all-instances :
    (a : String → Answers) (rows : Dict Row) (m : Manager) (id : String)
    → lookup id rows ≡ none
    → lookup id (restore_all a (records rows) m).instances ≡ lookup id m.instances
unfolding restore_all register scan
restore_all-instances a [] m id absent = refl
restore_all-instances a ((other, row) ∷ rows) m id absent =
    let (differs, later) = absent_cons id other row rows absent in
    let cfg = apply_defaults m.defaults (record_config (scan other row)) in
    let m' = register (a other) other row.device_id cfg m in
    restore_all-instances a rows m' id later ∙ rw (lookup-insert, differs) refl

-- What the loop leaves for the row of an ID.
abbrev restored_object : (String → Answers) → Manager → String → Row → Instance
restored_object a m id row =
    built (a id) m id row.device_id (apply_defaults m.defaults (record_config (scan id row)))

-- An ID, the row that it has, and what the loop registers for it.
abbrev IsRestored : (String → Answers) → Manager → String → Row → Manager → Type 0
IsRestored a m id row m' =
    (p : ℕ) × (lookup id m'.instances ≡ some p) × (m'.objects p ≡ restored_object a m id row)

restore_all-first :
    (a : String → Answers) (rows : Dict Row) (m : Manager) (id : String) (row : Row)
    → lookup id rows ≡ none
    → IsRestored a m id row (restore_all a (records ((id, row) ∷ rows)) m)
unfolding restore_all register scan
restore_all-first a rows m id row absent =
    let cfg = apply_defaults m.defaults (record_config (scan id row)) in
    let m' = register (a id) id row.device_id cfg m in
    (
      m.next,
      restore_all-instances a rows m' id absent ∙ rw (lookup-insert, eq_refl id) refl,
      restore_all-objects a (records rows) m' m.next (omega arith) ∙ ground arith,
    )

restore_all-lookup :
    (a : String → Answers) (rows : Dict Row) (m : Manager) (id : String) (row : Row)
    → IsTable rows
    → lookup id rows ≡ some row
    → IsRestored a m id row (restore_all a (records rows) m)
unfolding restore_all register scan
restore_all-lookup a [] m id row t found = absurd (nothing_found id row found)
restore_all-lookup a ((other, row') ∷ rows) m id row t found =
    let cfg = apply_defaults m.defaults (record_config (scan other row')) in
    let m' = register (a other) other row'.device_id cfg m in
    elim (Bool-cases (other == id)) [
      | inl e ↦
          let same = (eq_iff other id).0 e in
          let these : row' ≡ row = ground (arith, found_cons id other row' rows) in
          rw (← same, ← these) (restore_all-first a rows m other row' t.0)
      | inr e ↦
          restore_all-lookup a rows m' id row t.1 (ground (arith, found_cons id other row' rows))
    ]

-- A start with a database that can be read, for a table with one row for each ID: every ID with a
-- row has an instance that can be found, with the configuration of the row after the defaults, the
-- publisher that the factory makes for it and, if the service can be made, a service that was opened
-- with the device of the row and whose event handler uses that publisher and that configuration.
pub restored_from_row :
    (a : String → Answers) (m : Manager) (id : String) (row : Row)
    → IsTable m.rows
    → lookup id m.rows ≡ some row
    → (a id).service_ok ≡ true
    → let m' = (restore_instances true a m).1 in
      let cfg = apply_defaults m.defaults (record_config (scan id row)) in
      let made = some (publisher_for m.factory id cfg) in
      (p : ℕ) × (get_instance m' id ≡ some p)
      × ((m'.objects p).config ≡ cfg)
      × ((m'.objects p).publisher ≡ made)
      × ((m'.objects p).service
          ≡ some (record {
            device_id = row.device_id;
            handler_publisher = made;
            handler_config = cfg;
          }))
unfolding restore_instances list_instances
restored_from_row a m id row t found works =
    let (p, entry, object) = restore_all-lookup a m.rows m id row t found in
    (
      p,
      get_unmarked id _ p entry (ap (λ (i : Instance). i.deleting) object ∙ rw works refl),
      ap (λ (i : Instance). i.config) object ∙ rw works refl,
      ap (λ (i : Instance). i.publisher) object ∙ rw works refl,
      ap (λ (i : Instance). i.service) object ∙ rw works refl,
    )
