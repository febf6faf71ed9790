-- ===== src/Instance/InitialSync/Once.antt =====
-- How often the end of the initial sync is announced.
use wsapi_app.Common.{
  ℕ, suc, ◌+◌, ◌≤◌, ◌≡◌, Bool, false, not, String, Option, List, [], ◌∷◌, if◌then◌else◌, arith,
}
use wsapi_app.Whatsmeow.{Jid, WaTypes}
use wsapi_app.Event.Types.{MessageEvent}
use wsapi_app.Event.MediaId.{Codec}
use wsapi_app.Projector.{ProjectorContext}
use wsapi_app.Projector.Messages.Media.{Texts}
use wsapi_app.Instance.InitialSync.{
  SyncState, SyncStep, history, paired, finish_sync, on_sync_step, on_sync_steps,
}

abbrev pub pairings : List SyncStep → ℕ
pairings [] = 0
pairings (history _ _ _ ∷ steps) = pairings steps
pairings (paired ∷ steps) = suc (pairings steps)

abbrev pub count_of : Bool → ℕ
count_of b = if b then 1 else 0

module _ (wt : WaTypes) (alt_jid : Jid → Option Jid) (t : Texts) (c : Codec) (rfc3339 : ℕ → String)
    (marshal : List MessageEvent → Option String) (pctx : ProjectorContext)
    (history_sync_enabled : Bool) where
  -- An announcement takes the place of one that was due.
  step_lem :
      (step : SyncStep) (s : SyncState)
      → let (published, s') =
          on_sync_step wt alt_jid t c rfc3339 marshal pctx history_sync_enabled step s in
        count_of published + count_of (not s'.published)
        ≤ count_of (not s.published) + pairings (step ∷ [])
  unfolding on_sync_step finish_sync
  step_lem (history now our evt) s = ground arith
  step_lem paired s = ground arith

  steps_lem :
      (steps : List SyncStep) (s : SyncState)
      → (on_sync_steps wt alt_jid t c rfc3339 marshal pctx history_sync_enabled steps s).0
        ≤ count_of (not s.published) + pairings steps
  unfolding on_sync_steps
  steps_lem [] s = omega arith
  steps_lem (history now our evt ∷ steps) s =
      let step = history now our evt in
      let s' = (on_sync_step wt alt_jid t c rfc3339 marshal pctx history_sync_enabled step s).1 in
      omega (arith, step_lem step s, steps_lem steps s')
  steps_lem (paired ∷ steps) s =
      let s' = (on_sync_step wt alt_jid t c rfc3339 marshal pctx history_sync_enabled paired s).1 in
      omega (arith, step_lem paired s, steps_lem steps s')

  -- Whatever parts of a history arrive, and whichever writes of their messages fail: from a handler
  -- that has announced nothing yet, initial_sync_finished is published at most once more often than
  -- the device is paired.
  pub announced_once :
      (steps : List SyncStep) (s : SyncState)
      → s.published ≡ false
      → (on_sync_steps wt alt_jid t c rfc3339 marshal pctx history_sync_enabled steps s).0
        ≤ suc (pairings steps)
  announced_once steps s fresh = ground (arith, steps_lem steps s)
