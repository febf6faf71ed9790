-- ===== src/Event/Dedup.antt =====
-- internal/event/dedup.go: the set of recently seen message IDs. The map is a function; the mutex
-- makes every operation one step, and the clock is an argument.
pub mod Window
use wsapi_app.Common.{
  ℕ, ◌+◌, Bool, true, false, String, ◌==◌, Option, none, some, List, [], ◌∷◌, ltb, if◌then◌else◌,
}
use wsapi_app.Event.Types.{Time}

pub record Dedup : Type 0 where
  pub entries : String → Option Time
  pub ttl : ℕ
  pub closed : Bool  -- the channel `done`

-- `NewDedup`
unfoldable pub new_dedup : ℕ → Dedup
new_dedup ttl = record { entries = λ id. none; ttl = ttl; closed = false }

-- `d.entries[id] = now`
abbrev pub update : (String → Option Time) → String → Time → String → Option Time
update entries id now j = if id == j then some now else entries j

-- `Contains`
unfoldable pub contains : Dedup → String → Time → Bool × Dedup
contains d id now = elim (d.entries id) [
  | some _ ↦ (true, d)
  | none ↦ (false, record d { entries = update d.entries id now })
]

-- `Close`
unfoldable pub close : Dedup → Dedup
close d = record d { closed = true }

-- `t.Before(now.Add(-ttl))`
abbrev pub is_expired : ℕ → Time → Time → Bool
is_expired ttl now t = ltb (t + ttl) now

abbrev pub drop_expired : ℕ → Time → Option Time → Option Time
drop_expired ttl now none = none
drop_expired ttl now (some t) = if is_expired ttl now t then none else some t

-- One tick of the loop in `cleanup`, which deletes the expired entries.
unfoldable pub tick : Dedup → Time → Dedup
tick d now = record d { entries = λ id. drop_expired d.ttl now (d.entries id) }

-- What may happen to a set, in any order: a message, a tick, a close.
pub data Op : Type 0 where
  see : String → Time → Op
  clean : Time → Op
  stop : Op

unfoldable pub apply : Dedup → Op → Dedup
apply d (see id now) = (contains d id now).1
apply d (clean now) = tick d now
apply d stop = close d

unfoldable pub run : Dedup → List Op → Dedup
run d [] = d
run d (op ∷ ops) = run (apply d op) ops
