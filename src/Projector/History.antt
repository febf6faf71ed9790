-- ===== src/Projector/History.antt =====
-- internal/event/projector_history_sync.go, and the loop over the messages of a conversation, which
-- the cache of the instance manager has too.
use wsapi_app.Common.{ℕ, String, ◌==◌, Option, none, some, List, [], ◌∷◌, ◌++◌, if◌then◌else◌}
use wsapi_app.Whatsmeow.{Jid, WaTypes}
use wsapi_app.Whatsmeow.Proto.{SyncType, on_demand}
use wsapi_app.Event.MediaId.{Codec}
use wsapi_app.Event.Types.{MessageEvent, message, history_sync}
use wsapi_app.Event.Constants.{type_message_history_sync}
use wsapi_app.Projector.{ProjectorContext, Projection, discard, project, panics}
use wsapi_app.Projector.Messages.{WaMessage, project_message}
use wsapi_app.Projector.Messages.Media.{Texts}

-- `waHistorySync.Conversation`. A message is what the client's `ParseWebMessage` makes of it in a
-- chat; `none` is its error.
pub record SyncConversation : Type 0 where
  pub id : String
  pub messages : List (Jid → Option WaMessage)

-- `events.HistorySync`; a nil conversation is `none`.
pub record HistorySync : Type 0 where
  pub sync_type : Option SyncType
  pub conversations : List (Option SyncConversation)

-- What one message adds: nothing, an event, or a panic.
pub data Gathered : Type 0 where
  skipped crashed : Gathered
  kept : MessageEvent → Gathered

-- `data.(MessageEvent)` and the test of the type.
unfoldable pub gather : Projection → Gathered
gather discard = skipped
gather panics = crashed
gather (project _ (message msg)) = if msg.type == "unknown" then skipped else kept msg
gather (project _ _) = skipped

-- The loop that compares the chat IDs.
unfoldable pub common_chat : String → List MessageEvent → String
common_chat chat_id [] = chat_id
common_chat chat_id (m ∷ ms) =
    let rest = common_chat chat_id ms in if m.chat_id == chat_id then rest else ""

-- The end of `ProjectHistorySync`.
unfoldable pub history_event : List MessageEvent → Projection
history_event [] = discard
history_event (m ∷ ms) =
    project type_message_history_sync
      (history_sync (record { chat_id = common_chat m.chat_id ms; messages = m ∷ ms }))

module _ (wt : WaTypes) (t : Texts) (c : Codec) (rfc3339 : ℕ → String) where
  -- The loop over the messages of a chat; `none` is a panic.
  unfoldable pub gather_messages :
      Jid → List (Jid → Option WaMessage) → ProjectorContext → Option (List MessageEvent)
  gather_messages chat [] pctx = some []
  gather_messages chat (parse ∷ msgs) pctx =
      let rest = gather_messages chat msgs pctx in
      elim (parse chat) [
        | none ↦ rest
        | some msg ↦ elim (gather (project_message wt t c rfc3339 msg pctx)) [
          | skipped ↦ rest
          | crashed ↦ none
          | kept evt ↦ elim rest [ none ↦ none | some evts ↦ some (evt ∷ evts) ]
        ]
      ]

  -- The loop over the conversations.
  unfoldable pub gather_conversations :
      List (Option SyncConversation) → ProjectorContext → Option (List MessageEvent)
  gather_conversations [] pctx = some []
  gather_conversations (none ∷ convs) pctx = gather_conversations convs pctx
  gather_conversations (some conv ∷ convs) pctx =
      let rest = gather_conversations convs pctx in
      elim (wt.parse_jid conv.id) [
        | none ↦ rest
        | some chat ↦ elim (gather_messages chat conv.messages pctx) [
          | none ↦ none
          | some evts ↦ elim rest [ none ↦ none | some later ↦ some (evts ++ later) ]
        ]
      ]

  -- `ProjectHistorySync`
  unfoldable pub project_history_sync : HistorySync → ProjectorContext → Projection
  project_history_sync evt pctx =
      let found = gather_conversations evt.conversations pctx in
      elim evt.sync_type [
        | some on_demand ↦ elim found [ none ↦ panics | some msgs ↦ history_event msgs ]
        | _ ↦ discard
      ]
