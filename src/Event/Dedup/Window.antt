-- ===== src/Event/Dedup/Window.antt =====
-- How long a message ID counts as seen.
use wsapi_app.Common.{
  ℕ, ◌+◌, ◌≤◌, ◌≡◌, refl, Bool, true, false, String, Option, none, some, List, [], ◌∷◌, All, arith,
  leb, eq_iff,
}
use wsapi_app.Event.Types.{Time}
use wsapi_app.Event.Dedup.{
  Dedup, contains, close, drop_expired, tick, Op, see, clean, stop, apply, run,
}

-- The time of a tick is not past the limit.
abbrev pub Before : Time → Op → Type 0
Before limit (see _ _) = Unit
Before limit (clean now) = now ≤ limit
Before limit stop = Unit

ttl-apply : (d : Dedup) (op : Op) → (apply d op).ttl ≡ d.ttl
unfolding apply contains tick close
ttl-apply d (see id now) = ground arith
ttl-apply d (clean now) = refl
ttl-apply d stop = refl

-- One operation keeps a recorded ID, unless it is a tick past its time.
apply-entry :
    (d : Dedup) (op : Op) (id : String) (t : Time)
    → d.entries id ≡ some t
    → Before (t + d.ttl) op
    → (apply d op).entries id ≡ some t
unfolding apply contains tick close
apply-entry d (see j now) id t h b = ground (arith, eq_iff j id)
apply-entry d (clean now) id t h b = rw h (ground arith)
apply-entry d stop id t h b = h

run-entry :
    (d : Dedup) (ops : List Op) (id : String) (t limit : Time)
    → limit ≡ t + d.ttl
    → d.entries id ≡ some t
    → All (Before limit) ops
    → (run d ops).entries id ≡ some t
unfolding run
run-entry d [] id t limit e h b = h
run-entry d (op ∷ ops) id t limit e h b =
    run-entry (apply d op) ops id t limit (rw ttl-apply e) (apply-entry d op id t h (rw e at b.0))
      b.1

contains-entry :
    (d : Dedup) (id : String) (now : Time) {t : Time}
    → d.entries id ≡ some t
    → (contains d id now).0 ≡ true
unfolding contains
contains-entry d id now h = rw (h, contains)

recorded :
    (d : Dedup) (id : String) (now : Time)
    → (contains d id now).0 ≡ false
    → ((contains d id now).1.entries id ≡ some now) × ((contains d id now).1.ttl ≡ d.ttl)
unfolding contains
recorded d id now h = ground (arith, eq_iff id id)

-- A message ID that was new at the time `t` is a duplicate afterwards, whatever was seen since, and
-- however often the set was cleaned or closed, as long as no cleaning took place after `t + ttl`.
pub duplicate_within_ttl :
    (d : Dedup) (id : String) (t : Time) (ops : List Op) (now : Time)
    → (contains d id t).0 ≡ false
    → All (Before (t + d.ttl)) ops
    → (contains (run (contains d id t).1 ops) id now).0 ≡ true
duplicate_within_ttl d id t ops now new b =
    let (there, same) = recorded d id t new in
    contains-entry (run (contains d id t).1 ops) id now
      (run-entry (contains d id t).1 ops id t (t + d.ttl) (rw same) there b)

-- A recorded time that is not older than the TTL.
abbrev pub is_recent : ℕ → Time → Option Time → Bool
is_recent ttl now none = false
is_recent ttl now (some t) = leb now (t + ttl)

abbrev is_some : Option Time → Bool
is_some none = false
is_some (some _) = true

recent_lem :
    (ttl : ℕ) (now : Time) (o : Option Time)
    → is_some (drop_expired ttl now o) ≡ is_recent ttl now o
recent_lem ttl now none = refl
recent_lem ttl now (some t) = ground arith

contains_iff :
    (d : Dedup) (id : String) (now : Time) → (contains d id now).0 ≡ is_some (d.entries id)
unfolding contains
contains_iff d id now = ground arith

-- A cleaning forgets what is too old and nothing else: right after a tick at `now`, an ID is a
-- duplicate exactly if it was recorded at a time `t` with `now ≤ t + ttl`.
contains-tick :
    (d : Dedup) (id : String) (now later : Time)
    → (contains (tick d now) id later).0 ≡ is_recent d.ttl now (d.entries id)
unfolding tick
contains-tick d id now later = rw contains_iff (recent_lem d.ttl now (d.entries id))
