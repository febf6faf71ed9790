-- ===== src/Instance/AppState/Cooldown.antt =====
-- How often a collection of the app state is asked for again.
use wsapi_app.Common.{
  ℕ, ◌+◌, ◌≤◌, ◌<◌, ◌≡◌, ◌≢◌, refl, Bool, false, String, ◌==◌, Option, none, some, List, [], ◌∷◌,
  ◌++◌, length, keep, All, arith, eq_iff, length-append,
}
use wsapi_app.Event.Types.{Time}
use wsapi_app.Instance.AppState.{
  Attempts, Request, fetch_full, recover, cooldown, sync_completed, sync_failed, Sync, completed,
  failed, on_sync, requests,
}

-- A request for the collection.
abbrev pub is_for : String → Request → Bool
is_for name (fetch_full n) = n == name
is_for name (recover n) = n == name

abbrev is_fetch : String → Request → Bool
is_fetch name (fetch_full n) = n == name
is_fetch name (recover n) = false

-- No sync of the collection completes, and the event is handled before the time.
abbrev pub IsQuiet : String → Time → Sync → Type 0
IsQuiet name end (completed now n) = n ≢ name
IsQuiet name end (failed now n is_full) = now < end

-- No sync of the collection completes.
abbrev IsOpen : String → Sync → Type 0
IsOpen name (completed now n) = n ≢ name
IsOpen name (failed now n is_full) = Unit

keep-append :
    (p : Request → Bool) (xs ys : List Request) → keep p (xs ++ ys) ≡ keep p xs ++ keep p ys
keep-append p [] ys = refl
keep-append p (x ∷ xs) ys = ground (arith, keep-append p xs ys)

quiet-on_sync :
    (s : Attempts) (e : Sync) (name : String) (t : Time)
    → s.recovery name ≡ some t
    → IsQuiet name (t + cooldown) e
    → (keep (is_for name) (on_sync s e).0 ≡ []) × ((on_sync s e).1.recovery name ≡ some t)
unfolding on_sync sync_completed sync_failed
quiet-on_sync s (completed now n) name t h q = ground (arith, eq_iff n name)
quiet-on_sync s (failed now n is_full) name t h q = ground (arith, eq_iff n name)

quiet-requests :
    (s : Attempts) (es : List Sync) (name : String) (t : Time)
    → s.recovery name ≡ some t
    → All (IsQuiet name (t + cooldown)) es
    → keep (is_for name) (requests s es) ≡ []
unfolding requests
quiet-requests s [] name t h q = refl
quiet-requests s (e ∷ es) name t h q =
    let (none_now, still) = quiet-on_sync s e name t h q.0 in
    rw (keep-append, none_now) (quiet-requests (on_sync s e).1 es name t still q.1)

recovered :
    (s : Attempts) (now : Time) (name : String) (is_full : Bool)
    → (on_sync s (failed now name is_full)).0 ≡ recover name ∷ []
    → (on_sync s (failed now name is_full)).1.recovery name ≡ some now
unfolding on_sync sync_failed
recovered s now name is_full h = ground (arith, eq_iff name name)

-- After a failure at the time `t` that asked the phone to recover a collection, nothing is asked for
-- that collection, neither a full sync nor a recovery, by any sequence of events of which none is a
-- completed sync of the collection and every failure is handled less than 48 hours after `t`.
pub recovery_cooldown :
    (s : Attempts) (t : Time) (name : String) (is_full : Bool) (es : List Sync)
    → (on_sync s (failed t name is_full)).0 ≡ recover name ∷ []
    → All (IsQuiet name (t + cooldown)) es
    → keep (is_for name) (requests (on_sync s (failed t name is_full)).1 es) ≡ []
recovery_cooldown s t name is_full es h q =
    quiet-requests (on_sync s (failed t name is_full)).1 es name t (recovered s t name is_full h) q

-- How many full syncs a collection may still ask for.
abbrev allowance : Option Time → ℕ
allowance none = 1
allowance (some _) = 0

allowance-on_sync :
    (s : Attempts) (e : Sync) (name : String)
    → IsOpen name e
    → length (keep (is_fetch name) (on_sync s e).0) + allowance ((on_sync s e).1.full_sync name)
      ≤ allowance (s.full_sync name)
unfolding on_sync sync_completed sync_failed
allowance-on_sync s (completed now n) name o = ground (arith, eq_iff n name)
allowance-on_sync s (failed now n is_full) name o = ground (arith, eq_iff n name)

fetches_lem :
    (s : Attempts) (name : String) (es : List Sync)
    → All (IsOpen name) es
    → length (keep (is_fetch name) (requests s es)) ≤ allowance (s.full_sync name)
unfolding requests
fetches_lem s name [] o = omega arith
fetches_lem s name (e ∷ es) o =
    rw (keep-append, length-append)
      (omega (arith, allowance-on_sync s e name o.0, fetches_lem (on_sync s e).1 name es o.1))

allowance_lem : (o : Option Time) → allowance o ≤ 1
allowance_lem none = omega arith
allowance_lem (some t) = omega arith

-- From any state, a sequence of events of which none is a completed sync of the collection asks for
-- at most one full sync of that collection, however much time it takes.
one_full_sync :
    (s : Attempts) (name : String) (es : List Sync)
    → All (IsOpen name) es
    → length (keep (is_fetch name) (requests s es)) ≤ 1
one_full_sync s name es o = omega (arith, fetches_lem s name es o, allowance_lem (s.full_sync name))
