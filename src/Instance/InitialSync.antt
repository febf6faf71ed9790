-- ===== src/Instance/InitialSync.antt =====
-- internal/instance/manager.go: `cacheHistorySyncMessages`, and the event that ends the initial sync,
-- which the event handler of `initService` publishes once for each pairing. The recording of the
-- chats of a history sync is in Instance.Tracking. `json.Marshal` is a parameter.
pub mod Once
pub mod Flush
mod Tests
use wsapi_app.Common.{
  ℕ, ◌+◌, ◌*◌, ◌^◌, Bool, true, false, not, ◌&&◌, ◌||◌, String, ◌==◌, Option, none, some, List, [],
  ◌∷◌, leb, if◌then◌else◌,
}
use wsapi_app.Whatsmeow.{Jid, WaTypes}
use wsapi_app.Whatsmeow.Proto.{SyncType, initial_bootstrap, full, recent, on_demand, other}
use wsapi_app.Event.Types.{Time, MessageEvent}
use wsapi_app.Event.MediaId.{Codec}
use wsapi_app.Projector.{ProjectorContext}
use wsapi_app.Projector.Messages.{WaMessage}
use wsapi_app.Projector.Messages.Media.{Texts}
use wsapi_app.Projector.History.{SyncConversation, gather_messages}
use wsapi_app.History.{Cache, insert_messages}
use wsapi_app.Instance.Tracking.{carries_chats, resolve_lid, skip_chat}

-- The answers to one `store.Insert`: whether its two statements succeed, and its clock.
pub record Attempt : Type 0 where
  pub clean_ok : Bool
  pub insert_ok : Bool
  pub now : Time

-- `events.HistorySync`, each conversation with the answers to its insertion.
pub record SyncEvent : Type 0 where
  pub sync_type : Option SyncType
  pub conversations : List (Attempt × Option SyncConversation)
  pub progress : ℕ

-- `time.Now().Add(1 * time.Hour)`
abbrev pub in_one_hour : Time → Time
in_one_hour now = now + 3600 * 10 ^ 9

abbrev pub is_recent : Option SyncType → Bool
is_recent (some recent) = true
is_recent _ = false

module _ (marshal : List MessageEvent → Option String) where
  -- The end of the loop's body: messages that cannot be encoded or written are logged and lost.
  unfoldable pub cache_messages :
      Time → String → String → Attempt → List MessageEvent → Cache → Cache
  cache_messages expire_at our_jid chat at [] cache = cache
  cache_messages expire_at our_jid chat at (m ∷ ms) cache = elim (marshal (m ∷ ms)) [
    | none ↦ cache
    | some json ↦
        (insert_messages at.clean_ok at.insert_ok at.now our_jid chat json expire_at cache).1
  ]

abbrev pub messages_of : Option SyncConversation → List (Jid → Option WaMessage)
messages_of none = []
messages_of (some conv) = conv.messages

module _ (wt : WaTypes) (alt_jid : Jid → Option Jid) where
  -- The chat of a conversation that is cached.
  unfoldable pub cached_chat : Option SyncConversation → Option Jid
  cached_chat none = none
  cached_chat (some conv) = elim (wt.parse_jid conv.id) [
    | none ↦ none
    | some jid ↦
        let chat = resolve_lid wt alt_jid jid in
        if chat.server == wt.hidden_user_server || skip_chat wt chat then none else some chat
  ]

module _ (wt : WaTypes) (alt_jid : Jid → Option Jid) (t : Texts) (c : Codec) (rfc3339 : ℕ → String)
    (marshal : List MessageEvent → Option String) (pctx : ProjectorContext) where
  -- `cacheHistorySyncMessages`: whether it returns, and does not panic, and the cache.
  unfoldable pub cache_conversations :
      Time → String → List (Attempt × Option SyncConversation) → Cache → Bool × Cache
  cache_conversations expire_at our_jid [] cache = (true, cache)
  cache_conversations expire_at our_jid ((at, conv) ∷ convs) cache =
      let go_on = cache_conversations expire_at our_jid convs in
      elim (cached_chat wt alt_jid conv) [
        | none ↦ go_on cache
        | some chat ↦ elim (gather_messages wt t c rfc3339 chat (messages_of conv) pctx) [
          | none ↦ (false, cache)
          | some msgs ↦
              go_on (cache_messages marshal expire_at our_jid (wt.to_string chat) at msgs cache)
        ]
      ]

-- The cache, and `initialSyncPublished`: whether its `Do` has run.
pub record SyncState : Type 0 where
  pub cache : Cache
  pub published : Bool

-- What the handler is told about a sync: a part of the history, at a time and for the account that
-- the device has then ("" for none), or a new pairing.
pub data SyncStep : Type 0 where
  history : Time → String → SyncEvent → SyncStep
  paired : SyncStep

module _ (wt : WaTypes) (alt_jid : Jid → Option Jid) (t : Texts) (c : Codec) (rfc3339 : ℕ → String)
    (marshal : List MessageEvent → Option String) (pctx : ProjectorContext)
    (history_sync_enabled : Bool) where
  -- The end of the case, after the messages were cached: whether initial_sync_finished is published.
  unfoldable pub finish_sync : SyncEvent → Bool → Bool × Cache → Bool × SyncState
  finish_sync evt published (returned, cache) =
      if returned && (is_recent evt.sync_type && (leb 100 evt.progress && not published))
      then (true, record { cache = cache; published = true })
      else (false, record { cache = cache; published = published })

  -- The cases HistorySync, as far as messages are concerned, and PairSuccess of the handler.
  unfoldable pub on_sync_step : SyncStep → SyncState → Bool × SyncState
  on_sync_step (history now our_jid evt) s =
      if our_jid == "" || not (carries_chats evt.sync_type && history_sync_enabled)
      then (false, s)
      else finish_sync evt s.published (
          cache_conversations wt alt_jid t c rfc3339 marshal pctx (in_one_hour now) our_jid
            evt.conversations s.cache)
  on_sync_step paired s = (false, record s { published = false })

  -- The number of events initial_sync_finished, and the state.
  unfoldable pub on_sync_steps : List SyncStep → SyncState → ℕ × SyncState
  on_sync_steps [] s = (0, s)
  on_sync_steps (step ∷ steps) s =
      let (published, s') = on_sync_step step s in
      let (count, s'') = on_sync_steps steps s' in ((if published then 1 else 0) + count, s'')
