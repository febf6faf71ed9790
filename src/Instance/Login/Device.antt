-- ===== src/Instance/Login/Device.antt =====
-- Which device a start of the process opens.
use wsapi_app.Common.{
  ℕ, ◌≡◌, refl, ◌∙◌, true, false, String, some, List, [], ◌∷◌, Bool-cases, inl, inr, eq_refl, arith,
  if◌then◌else◌,
}
use wsapi_app.Common.Dict.{lookup, insert, lookup-insert}
use wsapi_app.Publisher.{Publisher}
use wsapi_app.Store.Instances.{Row, set_device, update_device_state}
use wsapi_app.Instance.{Service, Manager, Answers, get_instance}
use wsapi_app.Instance.Lifecycle.{persist_logout}
use wsapi_app.Instance.Startup.{restore_instances}
use wsapi_app.Instance.Startup.Restored.{IsTable, restored_from_row}
use wsapi_app.Instance.Startup.Restart.{IsTable-insert}
use wsapi_app.Instance.Login.{LoginEvent, pair_success, logged_out, persist_login, on_login_event}

-- The device of an account after an event.
abbrev pub device_after : LoginEvent → String
device_after (pair_success device_jid) = device_jid
device_after (logged_out reason) = ""

-- Earlier events, each with what the environment answers and the publisher of its handler.
abbrev pub on_login_events : String → List (Answers × Publisher × LoginEvent) → Manager → Manager
on_login_events id [] m = m
on_login_events id ((a, publisher, evt) ∷ evts) m =
    on_login_events id evts (on_login_event a id publisher evt m)

-- The row that a write of an event leaves.
abbrev row_after : Answers → LoginEvent → Row → Row
row_after a (pair_success device_jid) row = set_device a.now device_jid true row
row_after a (logged_out reason) row = set_device a.now "" false row

device-row_after :
    (a : Answers) (evt : LoginEvent) (row : Row)
    → (row_after a evt row).device_id ≡ device_after evt
unfolding set_device
device-row_after a (pair_success device_jid) row = refl
device-row_after a (logged_out reason) row = refl

-- An event with a row for its ID writes that row, or nothing if the database fails.
rows-on_login_event :
    (a : Answers) (id : String) (publisher : Publisher) (evt : LoginEvent) (m : Manager) (row : Row)
    → m.has_store ≡ true
    → lookup id m.rows ≡ some row
    → (on_login_event a id publisher evt m).rows
      ≡ (if a.db_ok then insert id (row_after a evt row) m.rows else m.rows)
unfolding on_login_event persist_login persist_logout update_device_state
rows-on_login_event a id publisher (pair_success device_jid) m row stored found =
    elim (Bool-cases a.db_ok) [ inl e ↦ rw (stored, e, found) refl | inr e ↦ rw (stored, e) refl ]
rows-on_login_event a id publisher (logged_out reason) m row stored found =
    elim (Bool-cases a.db_ok) [ inl e ↦ rw (stored, e, found) refl | inr e ↦ rw (stored, e) refl ]

has_store-on_login_event :
    (a : Answers) (id : String) (publisher : Publisher) (evt : LoginEvent) (m : Manager)
    → (on_login_event a id publisher evt m).has_store ≡ m.has_store
unfolding on_login_event persist_login persist_logout
has_store-on_login_event a id publisher (pair_success device_jid) m = ground arith
has_store-on_login_event a id publisher (logged_out reason) m = ground arith

-- A manager with a store, a table with one row for each ID, and a row for this ID.
abbrev pub IsStored : String → Manager → Type 0
IsStored id m = (row : Row) × (m.has_store ≡ true) × IsTable m.rows × (lookup id m.rows ≡ some row)

IsStored-on_login_event :
    (a : Answers) (id : String) (publisher : Publisher) (evt : LoginEvent) (m : Manager)
    → IsStored id m
    → IsStored id (on_login_event a id publisher evt m)
IsStored-on_login_event a id publisher evt m (row, stored, table, found) =
    let kept = has_store-on_login_event a id publisher evt m ∙ stored in
    let rows = rows-on_login_event a id publisher evt m row stored found in
    elim (Bool-cases a.db_ok) [
      | inl e ↦
          let here = rows ∙ rw e refl in
          (
            row_after a evt row,
            kept,
            rw here (IsTable-insert id (row_after a evt row) m.rows table),
            rw here (rw (lookup-insert, eq_refl id) refl),
          )
      | inr e ↦ let here = rows ∙ rw e refl in (row, kept, rw here table, rw here found)
    ]

IsStored-on_login_events :
    (id : String) (evts : List (Answers × Publisher × LoginEvent)) (m : Manager)
    → IsStored id m
    → IsStored id (on_login_events id evts m)
IsStored-on_login_events id [] m h = h
IsStored-on_login_events id ((a, publisher, evt) ∷ evts) m h =
    IsStored-on_login_events id evts _ (IsStored-on_login_event a id publisher evt m h)

-- For an ID with a row, in a table with one row for each ID: after any logins and logouts, whatever
-- the database answered, and a last one that is written, a start with that table, a database that
-- can be read and a service that can be made opens the service of the ID with the device that was
-- paired, if the last event is a login, and with a new device if it is a logout.
pub restored_device :
    (id : String) (m started : Manager) (evts : List (Answers × Publisher × LoginEvent))
    → (a : Answers) (publisher : Publisher) (evt : LoginEvent) (b : String → Answers)
    → IsStored id m
    → a.db_ok ≡ true
    → (b id).service_ok ≡ true
    → started.rows ≡ (on_login_event a id publisher evt (on_login_events id evts m)).rows
    → let m' = (restore_instances true b started).1 in
      (p : ℕ) × (get_instance m' id ≡ some p)
      × ((s : Service) × ((m'.objects p).service ≡ some s) × (s.device_id ≡ device_after evt))
restored_device id m started evts a publisher evt b h wrote works rows =
    let m1 = on_login_events id evts m in
    let (row, stored, table, found) = IsStored-on_login_events id evts m h in
    let last = row_after a evt row in
    let here =
      rows ∙ (rows-on_login_event a id publisher evt m1 row stored found ∙ rw wrote refl) in
    let (p, entry, config, made, service) =
      restored_from_row b started id last (rw here (IsTable-insert id last m1.rows table))
        (rw here (rw (lookup-insert, eq_refl id) refl)) works in
    (p, entry, (_, service, device-row_after a evt row))
