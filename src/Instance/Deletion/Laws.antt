-- ===== src/Instance/Deletion/Laws.antt =====
-- What a deletion that nothing interrupts leaves behind.
use wsapi_app.Common.{
  ℕ, ◌≡◌, refl, ap, sym, ◌∙◌, true, false, String, ◌==◌, Option, none, some, arith, eq_iff,
  if◌then◌else◌, Bool-cases, Option-cases, inl, inr, Result, ok, err,
}
use wsapi_app.Common.Dict.{Dict, lookup, lookup-remove}
use wsapi_app.Store.Instances.{Row, StoreError, database, instance_not_found}
use wsapi_app.Store.Instances
use wsapi_app.Instance.{
  Instance, Manager, Answers, ManagerError, being_deleted, store_delete_failed, set_object,
  get_instance,
}
use wsapi_app.Instance.Lookup.{get_same, get_unmarked}
use wsapi_app.Instance.Lifecycle.{put}
use wsapi_app.Instance.Deletion.{
  delete_begin, teardown_and_delete, delete_finish, delete_rest, delete_instance,
}

-- A teardown without an error leaves no row for the ID, and every other row as it was.
rows-teardown :
    (a : Answers) (id j : String) (handle : Option ℕ) (m : Manager)
    → (teardown_and_delete a id handle m).0 ≡ none
    → lookup j (teardown_and_delete a id handle m).1.rows
      ≡ (if id == j then none else lookup j m.rows)
unfolding teardown_and_delete Instances.delete_instance
rows-teardown a id j handle m h = ground (arith, lookup-remove id j m.rows, eq_iff id j)

-- A teardown touches neither the map nor the heap, and with an error not the table either.
map-teardown :
    (a : Answers) (id : String) (handle : Option ℕ) (m : Manager)
    → let m' = (teardown_and_delete a id handle m).1 in
      (m'.instances ≡ m.instances) × (m'.objects ≡ m.objects)
unfolding teardown_and_delete Instances.delete_instance
map-teardown a id handle m = ground arith

failed-teardown :
    (a : Answers) (id : String) (handle : Option ℕ) (m : Manager) {e : ManagerError}
    → (teardown_and_delete a id handle m).0 ≡ some e
    → ((teardown_and_delete a id handle m).1.rows ≡ m.rows) × (e ≡ store_delete_failed)
unfolding teardown_and_delete Instances.delete_instance
failed-teardown a id handle m h = ground arith

begin-rows :
    (id : String) (m : Manager)
    → ((delete_begin id m).1.rows ≡ m.rows) × ((delete_begin id m).1.instances ≡ m.instances)
unfolding delete_begin
begin-rows id m = ground arith

rest-removes :
    (a : Answers) (id j : String) (r : Result ManagerError (Option ℕ)) (m : Manager)
    → (delete_rest a id (r, m)).0 ≡ none
    → let m' = (delete_rest a id (r, m)).1 in
      (lookup j m'.instances ≡ (if id == j then none else lookup j m.instances))
      × (lookup j m'.rows ≡ (if id == j then none else lookup j m.rows))
unfolding delete_rest delete_finish
rest-removes a id j (err e) m h = cc
rest-removes a id j (ok handle) m h =
    let kept = (map-teardown a id handle m).0 in
    rw (h, delete_finish) (rw lookup-remove (rw kept refl), rows-teardown a id j handle m h)

-- After a deletion that returns no error there is neither an entry nor a row for the ID, and so no
-- instance that a lookup could return; the entries and the rows of all other IDs are as before.
delete_removes :
    (a : Answers) (id j : String) (m : Manager)
    → (delete_instance a id m).0 ≡ none
    → let m' = (delete_instance a id m).1 in
      (lookup j m'.instances ≡ (if id == j then none else lookup j m.instances))
      × (lookup j m'.rows ≡ (if id == j then none else lookup j m.rows))
unfolding delete_instance
delete_removes a id j m h =
    let begun = begin-rows id m in
    let done = rest-removes a id j (delete_begin id m).0 (delete_begin id m).1 h in
    (
      done.0 ∙ ap (λ (d : Dict ℕ). if id == j then none else lookup j d) begun.1,
      done.1 ∙ ap (λ (d : Dict Row). if id == j then none else lookup j d) begun.0,
    )

rest-failed :
    (a : Answers) (id : String) (handle : Option ℕ) (m : Manager) {e : ManagerError}
    → (delete_rest a id (ok handle, m)).0 ≡ some e
    → let m' = (delete_rest a id (ok handle, m)).1 in
      (m'.rows ≡ m.rows)
      × (m'.instances ≡ m.instances)
      × (m'.objects ≡ elim handle [
        | none ↦ m.objects
        | some p ↦ set_object m.objects p (record (m.objects p) { deleting = false })
      ])
unfolding delete_rest delete_finish
rest-failed a id none m h =
    let kept = map-teardown a id none m in
    rw (h, delete_finish) ((failed-teardown a id none m h).0, kept.0, kept.1)
rest-failed a id (some p) m h =
    let kept = map-teardown a id (some p) m in
    rw (h, delete_finish)
      (
        (failed-teardown a id (some p) m h).0,
        kept.0,
        ap (λ (f : ℕ → Instance). set_object f p (record (f p) { deleting = false })) kept.1,
      )

begin_absent :
    (id : String) (m : Manager) → lookup id m.instances ≡ none → delete_begin id m ≡ (ok none, m)
unfolding delete_begin
begin_absent id m h = rw (h, delete_begin)

begin_deleting :
    (id : String) (m : Manager) (p : ℕ)
    → lookup id m.instances ≡ some p
    → (m.objects p).deleting ≡ true
    → delete_begin id m ≡ (err being_deleted, m)
unfolding delete_begin
begin_deleting id m p h d = rw (h, delete_begin, d)

begin_present :
    (id : String) (m : Manager) (p : ℕ)
    → lookup id m.instances ≡ some p
    → (m.objects p).deleting ≡ false
    → delete_begin id m ≡ (ok (some p), put p (record (m.objects p) { deleting = true }) m)
unfolding delete_begin
begin_present id m p h d = rw (h, delete_begin, d)

-- What a failed deletion keeps.
abbrev pub Kept : String → Manager → Manager → Type 0
Kept id m m' =
    (m'.rows ≡ m.rows) × (m'.instances ≡ m.instances) × (get_instance m' id ≡ get_instance m id)

failed_absent :
    (a : Answers) (id : String) (m : Manager)
    → lookup id m.instances ≡ none
    → (delete_instance a id m).0 ≡ some store_delete_failed
    → Kept id m (delete_instance a id m).1
unfolding delete_instance
failed_absent a id m absent h =
    let begun = begin_absent id m absent in
    let (rows, inst, obj) = rest-failed a id none m (rw begun at h) in
    rw begun (rows, inst, get_same id m _ inst obj)

refused :
    (a : Answers) (id : String) (m : Manager) (p : ℕ)
    → lookup id m.instances ≡ some p
    → (m.objects p).deleting ≡ true
    → (delete_instance a id m).0 ≡ some store_delete_failed
    → ⊥
unfolding delete_instance delete_rest
refused a id m p present d h = cc (rw (begin_deleting id m p present d) at h)

failed_present :
    (a : Answers) (id : String) (m : Manager) (p : ℕ)
    → lookup id m.instances ≡ some p
    → (m.objects p).deleting ≡ false
    → (delete_instance a id m).0 ≡ some store_delete_failed
    → Kept id m (delete_instance a id m).1
unfolding delete_instance
failed_present a id m p present d h =
    let begun = begin_present id m p present d in
    let m1 = put p (record (m.objects p) { deleting = true }) m in
    let (rows, inst, obj) = rest-failed a id (some p) m1 (rw begun at h) in
    rw begun (
      rows,
      inst,
      get_unmarked id _ p (rw inst present) (rw obj (ground arith))
          ∙ sym (get_unmarked id m p present d),
    )

-- A deletion that fails in the store loses nothing: the table is as before, and the ID resolves to
-- the same instance as before, so that the deletion can be tried again.
delete_failed_keeps :
    (a : Answers) (id : String) (m : Manager)
    → (delete_instance a id m).0 ≡ some store_delete_failed
    → let m' = (delete_instance a id m).1 in
      (m'.rows ≡ m.rows) × (m'.instances ≡ m.instances) × (get_instance m' id ≡ get_instance m id)
unfolding delete_instance
delete_failed_keeps a id m h = elim (Option-cases (lookup id m.instances)) [
  | inl absent ↦ failed_absent a id m absent h
  | inr (p, present) ↦ elim (Bool-cases (m.objects p).deleting) [
    | inl d ↦ absurd (refused a id m p present d h)
    | inr d ↦ failed_present a id m p present d h
  ]
]
