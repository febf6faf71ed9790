-- ===== src/Instance/Concurrent/Settles.antt =====
-- internal/instance/manager.go: that deletions under way can always end.
use wsapi_app.Common.{
  ℕ, zero, suc, ◌+◌, ◌≤◌, ◌≡◌, ◌≢◌, refl, ap, sym, ◌⊎◌, ◌∙◌, eqb_iff, Bool-cases, Option-cases, inl,
  inr, false, String, Option, none, some, arith, eqb,
}
use wsapi_app.Common.Dict.{lookup}
use wsapi_app.Instance.{Answers, ManagerError}
use wsapi_app.Instance.Deletion.{teardown_and_delete}
use wsapi_app.Instance.Concurrent.{
  Phase, tearing, torn, Pending, System, set_pending, tear_at, finish_at, Step, create, update,
  restart, persist, announce, rebuild, begin_delete, teardown, finish, restore, ensure, stop, Reach,
  here, next, IsFresh,
}
use wsapi_app.Instance.Concurrent.Safety.{marked_has_deletion}

-- No goroutine from `n` on has a deletion under way.
abbrev pub IdleFrom : ℕ → System → Type 0
IdleFrom n s = (t : ℕ) → n ≤ t → s.pending t ≡ none

-- The steps that end deletions, and no others: a teardown by the goroutine `t`, to which the environment
-- answers `a t`, and the last critical section of a deletion.
pub data Settling (a : ℕ → Answers) (s : System) : System → Type 0 where
  start : Settling a s s
  torn_down :
      {u v : System} (t : ℕ) (q : Pending)
      → Settling a s u
      → u.pending t ≡ some q
      → q.phase ≡ tearing
      → v ≡ tear_at u t q (a t)
      → Settling a s v
  finished :
      {u v : System} (t : ℕ) (q : Pending) (e : Option ManagerError)
      → Settling a s u
      → u.pending t ≡ some q
      → q.phase ≡ torn e
      → v ≡ finish_at u t q e
      → Settling a s v

Settling-Reach : {a : ℕ → Answers} {s u v : System} → Reach s u → Settling a u v → Reach s v
Settling-Reach r start = r
Settling-Reach {a} r (torn_down t q z h p e) = next (Settling-Reach r z) (teardown t q (a t) h p e)
Settling-Reach r (finished t q err' z h p e) = next (Settling-Reach r z) (finish t q err' h p e)

Settling-trans :
    {a : ℕ → Answers} {s u v : System} → Settling a s u → Settling a u v → Settling a s v
Settling-trans r start = r
Settling-trans r (torn_down t q z h p e) = torn_down t q (Settling-trans r z) h p e
Settling-trans r (finished t q err' z h p e) = finished t q err' (Settling-trans r z) h p e

set_pending_other :
    (t u : ℕ) (q : Option Pending) (pending : ℕ → Option Pending)
    → t ≢ u
    → set_pending t q pending u ≡ pending u
set_pending_other t u q pending h = elim (Bool-cases (eqb t u)) [
  | inl e ↦ absurd (h ((eqb_iff t u).0 e))
  | inr e ↦ rw e refl
]

set_pending_same :
    (t : ℕ) (q : Option Pending) (pending : ℕ → Option Pending) → set_pending t q pending t ≡ q
set_pending_same t q pending = rw ((eqb_iff t t).1 refl) refl

-- A goroutine that has a deletion under way is one of the first `n`.
busy_lem :
    (n t u : ℕ) (q : Pending) (r : Option Pending) (s : System)
    → IdleFrom n s
    → s.pending t ≡ some q
    → n ≤ u
    → set_pending t r s.pending u ≡ none
busy_lem n t u q r s idle busy h =
    set_pending_other t u r s.pending (λ e. (let free = idle t (rw e h) in cc)) ∙ idle u h

Step-IdleFrom : {s u : System} (n : ℕ) → Step s u → IdleFrom n s → (k : ℕ) × IdleFrom k u
Step-IdleFrom n (create a id cfg e) idle = (n, rw e idle)
Step-IdleFrom n (update a id cfg e) idle = (n, rw e idle)
Step-IdleFrom n (restart a id e) idle = (n, rw e idle)
Step-IdleFrom n (persist a id e) idle = (n, rw e idle)
Step-IdleFrom n (announce a id e) idle = (n, rw e idle)
Step-IdleFrom n (rebuild a id e) idle = (n, rw e idle)
Step-IdleFrom {s} n (begin_delete t id handle free h e) idle = (
  n + suc t,
  rw e (λ u k.
      set_pending_other t u _ s.pending (λ j. omega (arith, j, k)) ∙ idle u (omega (arith, k))),
)
Step-IdleFrom {s} n (teardown t q a h p e) idle = (n, rw e (λ u k. busy_lem n t u q _ s idle h k))
Step-IdleFrom {s} n (finish t q err' h p e) idle = (n, rw e (λ u k. busy_lem n t u q _ s idle h k))
Step-IdleFrom n (restore b a e) idle = (n, rw e idle)
Step-IdleFrom n (ensure a device e) idle = (n, rw e idle)
Step-IdleFrom n (stop e) idle = (n, rw e idle)

-- In every reachable state only finitely many deletions are under way.
Reach-IdleFrom : {s u : System} → IsFresh s → Reach s u → (n : ℕ) × IdleFrom n u
Reach-IdleFrom fresh here = (0, λ t h. fresh.1 t)
Reach-IdleFrom fresh (next r step) =
    let (n, idle) = Reach-IdleFrom fresh r in Step-IdleFrom n step idle

-- One goroutine ends its deletion, and no other goroutine's deletion moves.
Ended : (ℕ → Answers) → ℕ → System → Type 0
Ended a t s =
    (v : System) × Settling a s v
    × (v.pending t ≡ none)
    × ((u : ℕ) → t ≢ u → v.pending u ≡ s.pending u)

finish_torn :
    (a : ℕ → Answers) (t : ℕ) (q : Pending) (e : Option ManagerError) (s : System)
    → s.pending t ≡ some q
    → q.phase ≡ torn e
    → Ended a t s
unfolding Ended
finish_torn a t q e s h p = (
  finish_at s t q e,
  finished t q e start h p refl,
  set_pending_same t none s.pending,
  λ u n. set_pending_other t u none s.pending n,
)

Phase-cases : (p : Phase) → (p ≡ tearing) ⊎ ((e : Option ManagerError) × (p ≡ torn e))
Phase-cases tearing = inl refl
Phase-cases (torn e) = inr (e, refl)

-- Two steps at most, whatever the environment answers.
end_one : (a : ℕ → Answers) (t : ℕ) (s : System) → Ended a t s
unfolding Ended
end_one a t s = elim (Option-cases (s.pending t)) [
  | inl free ↦ (s, start, free, λ u n. refl)
  | inr (q, busy) ↦ elim (Phase-cases q.phase) [
    | inr (e, p) ↦ finish_torn a t q e s busy p
    | inl p ↦
        let e = (teardown_and_delete (a t) q.id q.handle s.mgr).0 in
        let (v, r, free, others) =
          finish_torn a t (record q { phase = torn e }) e (tear_at s t q (a t))
            (set_pending_same t _ s.pending) refl in
        (
          v,
          Settling-trans (torn_down t q start busy p refl) r,
          free,
          λ u n. others u n ∙ set_pending_other t u _ s.pending n,
        )
  ]
]

end_all :
    (a : ℕ → Answers) (n : ℕ) (s : System)
    → IdleFrom n s
    → (v : System) × Settling a s v × IdleFrom 0 v
unfolding Ended
end_all a zero s idle = (s, start, idle)
end_all a (suc n) s idle =
    let (u, r, free, others) = end_one a n s in
    let idle' : IdleFrom n u = λ t h. elim (Bool-cases (eqb n t)) [
      | inl e ↦ ap u.pending (sym ((eqb_iff n t).0 e)) ∙ free
      | inr e ↦
          others t (λ j. (let same = (eqb_iff n t).1 j in cc))
          ∙ idle t (ground (arith, h, e, eqb_iff n t))
    ] in
    let (v, r', done) = end_all a n u idle' in (v, Settling-trans r r', done)

-- From every state that a new manager reaches, by any interleaving, the deletions under way end by their
-- own steps alone, whatever the environment answers to the teardown of each goroutine, a failure of the
-- database included: teardowns with these answers and last critical sections, and nothing else, lead to
-- a state in which no deletion is under way, and in which no entry is marked as being deleted, so that
-- no ID is blocked.
pub deletions_can_settle :
    {s u : System} (fresh : IsFresh s) (r : Reach s u) (a : ℕ → Answers)
    → (v : System) × Settling a u v
      × ((t : ℕ) → v.pending t ≡ none)
      × ((id : String) (p : ℕ)
          → lookup id v.mgr.instances ≡ some p
          → (v.mgr.objects p).deleting ≡ false)
deletions_can_settle {u = u} fresh r a =
    let (n, idle) = Reach-IdleFrom fresh r in
    let (v, r', done) = end_all a n u idle in
    (
      v,
      r',
      λ t. done t (omega arith),
      λ id p present. elim (Bool-cases (v.mgr.objects p).deleting) [
        | inr e ↦ e
        | inl e ↦
            let (t, q, busy, _, _) =
              marked_has_deletion fresh (Settling-Reach r r') id p present e in
            let free = done t (omega arith) in absurd (cc)
      ],
    )
