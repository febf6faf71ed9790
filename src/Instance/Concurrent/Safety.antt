-- ===== src/Instance/Concurrent/Safety.antt =====
-- internal/instance/manager.go: deletions under way, in every order of the goroutines' steps.
use wsapi_app.Common.{ℕ, ◌≡◌, ◌≢◌, refl, Option-cases, inl, inr, true, String, some, arith}
use wsapi_app.Common.Dict.{lookup, lookup-nil}
use wsapi_app.Instance.{get_instance}
use wsapi_app.Instance.Lookup.{get-eq-some}
use wsapi_app.Instance.Concurrent.{Pending, System, Reach, here, next, IsFresh}
use wsapi_app.Instance.Concurrent.Skeleton.{}
use wsapi_app.Instance.Concurrent.Owners.{}
use wsapi_app.Instance.Concurrent.Steps.{Consistent, Step-Consistent}

fresh-Consistent : (s : System) → IsFresh s → Consistent s
fresh-Consistent s (empty, idle) = record {
  named = λ id p h. absurd (ground (arith, lookup-nil {V = ℕ} id));
  allocated = λ id p h. absurd (ground (arith, lookup-nil {V = ℕ} id));
  owned = λ t id p h. ground (arith, idle t);
  exclusive = λ t u id j p h g. ground (arith, idle t);
  held = λ id p h d. absurd (ground (arith, lookup-nil {V = ℕ} id));
}

pub Reach-Consistent : {s u : System} → IsFresh s → Reach s u → Consistent u
Reach-Consistent {s} fresh here = fresh-Consistent s fresh
Reach-Consistent fresh (next r step) = Step-Consistent step (Reach-Consistent fresh r)

-- In every state that a new manager reaches, by any interleaving of its operations and of the three
-- parts of deletions, an instance that a lookup returns is not one that a deletion under way holds:
-- no caller is handed an instance whose teardown may be running.
pub found_is_not_deleting :
    {s u : System} (fresh : IsFresh s) (r : Reach s u) (id : String) (p t : ℕ) (q : Pending)
    → get_instance u.mgr id ≡ some p
    → u.pending t ≡ some q
    → q.handle ≢ some p
found_is_not_deleting {u = u} fresh r id p t q found pending h =
    let inv = Reach-Consistent fresh r in
    let unmarked = (get-eq-some id u.mgr p found).1 in
    let marked = (inv.owned t q.id p (rw (pending, h) refl)).0 in cc

-- In every reachable state two deletions under way never hold the same instance, so that no
-- teardown runs twice on one instance.
pub one_deletion_each :
    {s u : System} (fresh : IsFresh s) (r : Reach s u) (t t' : ℕ) (q q' : Pending) (p : ℕ)
    → u.pending t ≡ some q
    → u.pending t' ≡ some q'
    → q.handle ≡ some p
    → q'.handle ≡ some p
    → t ≡ t'
one_deletion_each fresh r t t' q q' p h h' e e' =
    (Reach-Consistent fresh r).exclusive t t' q.id q'.id p (rw (h, e) refl) (rw (h', e') refl)

-- In every reachable state an entry whose instance is marked as being deleted belongs to a deletion
-- of that ID that is still under way: no ID stays blocked after its deletion has returned.
pub marked_has_deletion :
    {s u : System} (fresh : IsFresh s) (r : Reach s u) (id : String) (p : ℕ)
    → lookup id u.mgr.instances ≡ some p
    → (u.mgr.objects p).deleting ≡ true
    → (t : ℕ) × (q : Pending) × (u.pending t ≡ some q) × (q.id ≡ id) × (q.handle ≡ some p)
marked_has_deletion {u = u} fresh r id p present marked =
    let (t, owner) = (Reach-Consistent fresh r).held id p present marked in
    elim (Option-cases (u.pending t)) [
      | inl none' ↦ absurd (cc (rw none' at owner))
      | inr (q, e) ↦ (t, q, e, ground (arith, rw e at owner), ground (arith, rw e at owner))
    ]
