-- ===== src/Instance/Lookup.antt =====
-- What `lookup` of internal/instance/manager.go returns: entries whose object is not marked.
use wsapi_app.Common.{ℕ, ◌≡◌, arith, true, false, String, none, some}
use wsapi_app.Common.Dict.{lookup}
use wsapi_app.Instance.{Manager, visible, get_instance}

pub get_same :
    (id : String) (m m' : Manager)
    → m'.instances ≡ m.instances
    → m'.objects ≡ m.objects
    → get_instance m' id ≡ get_instance m id
unfolding get_instance
get_same id m m' i o = cc

pub get_unmarked :
    (id : String) (m : Manager) (p : ℕ)
    → lookup id m.instances ≡ some p
    → (m.objects p).deleting ≡ false
    → get_instance m id ≡ some p
unfolding get_instance visible
get_unmarked id m p h d = rw (h, visible, d)

pub get_marked :
    (id : String) (m : Manager) (p : ℕ)
    → lookup id m.instances ≡ some p
    → (m.objects p).deleting ≡ true
    → get_instance m id ≡ none
unfolding get_instance visible
get_marked id m p h d = rw (h, visible, d)

-- What is found is the entry, and not marked.
pub get-eq-some :
    (id : String) (m : Manager) (p : ℕ)
    → get_instance m id ≡ some p
    → (lookup id m.instances ≡ some p) × ((m.objects p).deleting ≡ false)
unfolding get_instance visible
get-eq-some id m p h = ground arith
