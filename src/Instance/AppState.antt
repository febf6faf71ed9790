-- ===== src/Instance/AppState.antt =====
-- internal/instance/manager.go: the recovery of the app state in the event handler of `initService`.
-- A failed partial sync asks for a full one, and a failed full sync for a recovery by the phone, each
-- at most once until a sync completes or, for a recovery, until 48 hours have passed. The maps are
-- functions, and the zero time is `none`.
pub mod Cooldown
use wsapi_app.Common.{
  ℕ, ◌+◌, ◌*◌, Bool, true, false, not, String, ◌==◌, Option, none, some, List, [], ◌∷◌, ◌++◌, ltb,
  if◌then◌else◌,
}
use wsapi_app.Event.Types.{Time}

-- `appStateFullSyncAttempted` and `appStateRecoveryAttempted`.
pub record Attempts : Type 0 where
  pub full_sync : String → Option Time
  pub recovery : String → Option Time

-- The goroutines that are started.
pub data Request : Type 0 where
  fetch_full : String → Request
  recover : String → Request

-- 48 hours in nanoseconds
abbrev pub cooldown : ℕ
cooldown = 172800000000000

abbrev pub set_time : (String → Option Time) → String → Option Time → String → Option Time
set_time times name t n = if name == n then t else times n

-- `!last.IsZero() && time.Since(last) < 48*time.Hour`
abbrev pub is_cooling : Time → Option Time → Bool
is_cooling now none = false
is_cooling now (some last) = ltb now (last + cooldown)

-- The case `AppStateSyncComplete`.
unfoldable pub sync_completed : String → Attempts → Attempts
sync_completed name s = record {
  full_sync = set_time s.full_sync name none;
  recovery = set_time s.recovery name none;
}

-- The case `AppStateSyncError`.
unfoldable pub sync_failed : Time → String → Bool → Attempts → List Request × Attempts
sync_failed now name is_full s =
    if is_cooling now (s.recovery name)
    then ([], s)
    else if not is_full
    then elim (s.full_sync name) [
      | some _ ↦ ([], s)
      | none ↦ (fetch_full name ∷ [], record s { full_sync = set_time s.full_sync name (some now) })
    ]
    else (recover name ∷ [], record s { recovery = set_time s.recovery name (some now) })

-- The two events, each with the time at which it is handled.
pub data Sync : Type 0 where
  completed : Time → String → Sync
  failed : Time → String → Bool → Sync

unfoldable pub on_sync : Attempts → Sync → List Request × Attempts
on_sync s (completed now name) = ([], sync_completed name s)
on_sync s (failed now name is_full) = sync_failed now name is_full s

-- The requests of a sequence of events, in order.
unfoldable pub requests : Attempts → List Sync → List Request
requests s [] = []
requests s (e ∷ es) = let (rs, s') = on_sync s e in rs ++ requests s' es
