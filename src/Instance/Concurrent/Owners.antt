-- ===== src/Instance/Concurrent/Owners.antt =====
-- internal/instance/manager.go: entries, marks, and the deletions that hold a marked object.
use wsapi_app.Common.{
  ℕ, ◌<◌, ◌≡◌, Bool-cases, inl, inr, ◌⊎◌, true, false, String, Option, none, some, arith, eqb,
  eq_iff, [],
}
use wsapi_app.Common.Dict.{lookup, remove, lookup-insert, lookup-remove, lookup-nil}
use wsapi_app.Instance.Concurrent.Skeleton.{Skeleton, set_at, registered, mark}

-- The ID and the object that the deletion of a goroutine has marked.
abbrev pub Owners : Type 0
Owners = ℕ → Option (String × ℕ)

-- An entry leads to an object of its name; a deletion holds a marked object of its ID that no other
-- deletion holds; an entry with a marked object has a deletion that holds the object.
pub record IsConsistent (k : Skeleton) (o : Owners) : Type 0 where
  pub named : (id : String) (p : ℕ) → lookup id k.instances ≡ some p → k.name p ≡ id
  pub allocated : (id : String) (p : ℕ) → lookup id k.instances ≡ some p → p < k.next
  pub owned :
      (t : ℕ) (id : String) (p : ℕ)
      → o t ≡ some (id, p)
      → (k.marked p ≡ true) × (p < k.next) × (k.name p ≡ id)
  pub exclusive : (t u : ℕ) (id j : String) (p : ℕ) → o t ≡ some (id, p) → o u ≡ some (j, p) → t ≡ u
  pub held :
      (id : String) (p : ℕ)
      → lookup id k.instances ≡ some p
      → k.marked p ≡ true
      → (t : ℕ) × (o t ≡ some (id, p))

module _ (k : Skeleton) (o : Owners) (inv : IsConsistent k o) where
  pub registered-IsConsistent : (id : String) → IsConsistent (registered id k) o
  registered-IsConsistent id = record {
    named = λ j p h. ground (
      arith,
      eq_iff id j,
      lookup-insert id j k.next k.instances,
      inv.named j p,
      inv.allocated j p,
    );
    allocated = λ j p h. ground (arith, lookup-insert id j k.next k.instances, inv.allocated j p);
    owned = λ t j p h. ground (arith, inv.owned t j p h);
    exclusive = inv.exclusive;
    held = λ j p h d.
        inv.held j p (ground (arith, lookup-insert id j k.next k.instances))
          (ground (arith, lookup-insert id j k.next k.instances, inv.allocated j p));
  }

  pub begin-IsConsistent :
      (t : ℕ) (id : String) (p : ℕ)
      → lookup id k.instances ≡ some p
      → k.marked p ≡ false
      → o t ≡ none
      → IsConsistent (mark p true k) (set_at t (some (id, p)) o)
  begin-IsConsistent t id p present unmarked idle = record {
    named = inv.named;
    allocated = inv.allocated;
    owned = λ u j q h.
        ground (arith, inv.owned u j q, inv.named id p present, inv.allocated id p present);
    exclusive =
        λ u v i j q h g. ground (arith, inv.exclusive u v i j q, inv.owned u i q, inv.owned v j q);
    held = λ j q h d. elim (Bool-cases (eqb p q)) [
      | inl e ↦ (t, ground (arith, inv.named id p present, inv.named j q h))
      | inr e ↦ let (u, owner) = inv.held j q h (ground arith) in (u, ground arith)
    ];
  }

  pub undo-IsConsistent :
      (t : ℕ) (id : String) (p : ℕ)
      → o t ≡ some (id, p)
      → IsConsistent (mark p false k) (set_at t none o)
  undo-IsConsistent t id p holds = record {
    named = inv.named;
    allocated = inv.allocated;
    owned = λ u j q h. ground (arith, inv.owned u j q, inv.exclusive t u id j p holds);
    exclusive = λ u v i j q h g. ground (arith, inv.exclusive u v i j q);
    held = λ j q h d.
        let (u, e) = inv.held j q h (ground arith) in
        (u, ground (arith, inv.exclusive t u id j p holds));
  }

  pub remove-IsConsistent :
      (t : ℕ) (id : String)
      → (o t ≡ none) ⊎ ((p : ℕ) × (o t ≡ some (id, p)))
      → IsConsistent (record k { instances = remove id k.instances }) (set_at t none o)
  remove-IsConsistent t id holds = record {
    named = λ j q h. ground (arith, lookup-remove id j k.instances, inv.named j q);
    allocated = λ j q h. ground (arith, lookup-remove id j k.instances, inv.allocated j q);
    owned = λ u j q h. ground (arith, inv.owned u j q);
    exclusive = λ u v i j q h g. ground (arith, inv.exclusive u v i j q);
    held = λ j q h d.
        let (u, e) = inv.held j q (ground (arith, lookup-remove id j k.instances)) d in
        (u, ground (arith, lookup-remove id j k.instances, eq_iff id j));
  }

  pub clear-IsConsistent : IsConsistent (record k { instances = [] }) o
  clear-IsConsistent = record {
    named = λ j q h. ground (arith, lookup-nil {V = ℕ} j);
    allocated = λ j q h. ground (arith, lookup-nil {V = ℕ} j);
    owned = inv.owned;
    exclusive = inv.exclusive;
    held = λ j q h d. absurd (ground (arith, lookup-nil {V = ℕ} j));
  }
