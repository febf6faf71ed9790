-- ===== src/Instance/Concurrent.antt =====
-- internal/instance/manager.go under several goroutines. A step is what one goroutine does under
-- the manager's lock; a deletion is three steps, and other steps may come between them.
pub mod Skeleton
pub mod Owners
pub mod Steps
pub mod Safety
pub mod LostCreate
pub mod Settles
use wsapi_app.Common.{ℕ, [], Bool, ◌≡◌, String, Option, none, some, eqb, if◌then◌else◌, Result, ok}
use wsapi_app.Config.{InstanceConfig}
use wsapi_app.Instance.{Manager, Answers, ManagerError, get_instance}
use wsapi_app.Instance.Lifecycle.{
  create_instance, update_instance_config, restart_instance, persist_logout, announce_logout,
  rebuild_instance_service,
}
use wsapi_app.Instance.Startup.{restore_instances, ensure_single_instance, shutdown}
use wsapi_app.Instance.Deletion.{delete_begin, teardown_and_delete, delete_finish}

-- How far a deletion has come: before its teardown, or after it, with its error.
pub data Phase : Type 0 where
  tearing : Phase
  torn : Option ManagerError → Phase

-- A deletion under way, with the entry that its first critical section found.
pub record Pending : Type 0 where
  pub id : String
  pub handle : Option ℕ
  pub phase : Phase

-- The manager, and the deletion that each goroutine is in the middle of.
pub record System : Type 0 where
  pub mgr : Manager
  pub pending : ℕ → Option Pending

abbrev pub set_pending : ℕ → Option Pending → (ℕ → Option Pending) → ℕ → Option Pending
set_pending t q pending u = if eqb t u then q else pending u

abbrev pub with_mgr : System → Manager → System
with_mgr s m = record s { mgr = m }

abbrev pub begin_at : System → ℕ → String → Option ℕ → System
begin_at s t id handle = record {
  mgr = (delete_begin id s.mgr).1;
  pending = set_pending t (some (record { id = id; handle = handle; phase = tearing })) s.pending;
}

abbrev pub tear_at : System → ℕ → Pending → Answers → System
tear_at s t q a = record {
  mgr = (teardown_and_delete a q.id q.handle s.mgr).1;
  pending =
      set_pending t (some (record q { phase = torn (teardown_and_delete a q.id q.handle s.mgr).0 }))
        s.pending;
}

abbrev pub finish_at : System → ℕ → Pending → Option ManagerError → System
finish_at s t q e = record {
  mgr = delete_finish q.id q.handle e s.mgr;
  pending = set_pending t none s.pending;
}

pub data Step (s u : System) : Type 0 where
  create :
      (a : Answers) (id : String) (cfg : InstanceConfig)
      → u ≡ with_mgr s (create_instance a id cfg s.mgr).1
      → Step s u
  update :
      (a : Answers) (id : String) (cfg : InstanceConfig)
      → u ≡ with_mgr s (update_instance_config a id cfg s.mgr).1
      → Step s u
  restart : (a : Answers) (id : String) → u ≡ with_mgr s (restart_instance a id s.mgr).1 → Step s u
  -- The three parts of `HandleLogout`; the last is also run after a logout by the server.
  persist : (a : Answers) (id : String) → u ≡ with_mgr s (persist_logout a id s.mgr) → Step s u
  announce :
      (a : Answers) (id : String)
      → u ≡ with_mgr s (announce_logout a id (get_instance s.mgr id) s.mgr)
      → Step s u
  rebuild :
      (a : Answers) (id : String) → u ≡ with_mgr s (rebuild_instance_service a id s.mgr) → Step s u
  begin_delete :
      (t : ℕ) (id : String) (handle : Option ℕ)
      → s.pending t ≡ none
      → (delete_begin id s.mgr).0 ≡ ok handle
      → u ≡ begin_at s t id handle
      → Step s u
  teardown :
      (t : ℕ) (q : Pending) (a : Answers)
      → s.pending t ≡ some q
      → q.phase ≡ tearing
      → u ≡ tear_at s t q a
      → Step s u
  finish :
      (t : ℕ) (q : Pending) (e : Option ManagerError)
      → s.pending t ≡ some q
      → q.phase ≡ torn e
      → u ≡ finish_at s t q e
      → Step s u
  -- The start of the program, in either mode.
  restore :
      (db_ok : Bool) (a : String → Answers)
      → u ≡ with_mgr s (restore_instances db_ok a s.mgr).1
      → Step s u
  ensure :
      (a : Answers) (device : Option String)
      → u ≡ with_mgr s (ensure_single_instance a device s.mgr).1
      → Step s u
  stop : u ≡ with_mgr s (shutdown s.mgr) → Step s u

pub data Reach (s : System) : System → Type 0 where
  here : Reach s s
  next : {u v : System} → Reach s u → Step u v → Reach s v

-- A manager that `NewManager` made: no entry, and no deletion under way.
abbrev pub IsFresh : System → Type 0
IsFresh s = (s.mgr.instances ≡ []) × ((t : ℕ) → s.pending t ≡ none)
