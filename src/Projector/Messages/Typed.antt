-- ===== src/Projector/Messages/Typed.antt =====
-- The types of the events that are made of messages and of history syncs.
use wsapi_app.Common.{ℕ, refl, String, List, [], ◌∷◌, Option-cases, inl, inr}
use wsapi_app.Whatsmeow.{WaTypes}
use wsapi_app.Whatsmeow.Proto.{}
use wsapi_app.Event.MediaId.{Codec}
use wsapi_app.Event.Types.{MessageEvent, message, message_delete, chat_setting}
use wsapi_app.Projector.{ProjectorContext, Projection, discard, project, panics}
use wsapi_app.Projector.TypeOf.{type_of, IsTyped}
use wsapi_app.Projector.Messages.{MessageInfo, WaMessage, project_message}
use wsapi_app.Projector.History.{
  HistorySync, gather_conversations, history_event, project_history_sync,
}
use wsapi_app.Whatsmeow.Proto.{initial_bootstrap, full, recent, on_demand, other}
use wsapi_app.Projector.Messages.Outcome.{Outcome, project_message-Outcome}
use wsapi_app.Projector.Messages.Media.{Texts}
use wsapi_app.Projector.Messages.Kinds.{}

OutcomeOf-IsTyped :
    (wt : WaTypes) (info : MessageInfo) (pctx : ProjectorContext) (p : Projection)
    → Outcome wt info pctx p
    → IsTyped p
unfolding type_of
OutcomeOf-IsTyped wt info pctx discard h = tt
OutcomeOf-IsTyped wt info pctx panics h = tt
OutcomeOf-IsTyped wt info pctx (project ty (message evt)) h = h.0
OutcomeOf-IsTyped wt info pctx (project ty (message_delete d)) h = h.0
OutcomeOf-IsTyped wt info pctx (project ty (chat_setting s)) h = h.0
OutcomeOf-IsTyped wt info pctx (project ty _) h = absurd h

pub project_message-IsTyped :
    (wt : WaTypes) (t : Texts) (c : Codec) (rfc3339 : ℕ → String) (msg : WaMessage)
    (pctx : ProjectorContext)
    → IsTyped (project_message wt t c rfc3339 msg pctx)
project_message-IsTyped wt t c rfc3339 msg pctx =
    OutcomeOf-IsTyped wt msg.info pctx _ (project_message-Outcome wt t c rfc3339 msg pctx)

history_event-IsTyped : (msgs : List MessageEvent) → IsTyped (history_event msgs)
unfolding history_event type_of
history_event-IsTyped [] = tt
history_event-IsTyped (m ∷ ms) = refl

pub project_history_sync-IsTyped :
    (wt : WaTypes) (t : Texts) (c : Codec) (rfc3339 : ℕ → String) (evt : HistorySync)
    (pctx : ProjectorContext)
    → IsTyped (project_history_sync wt t c rfc3339 evt pctx)
unfolding project_history_sync
project_history_sync-IsTyped wt t c rfc3339 evt pctx = elim (Option-cases evt.sync_type) [
  | inl e ↦ rw (e, project_history_sync) tt
  | inr (initial_bootstrap, e) ↦ rw (e, project_history_sync) tt
  | inr (full, e) ↦ rw (e, project_history_sync) tt
  | inr (recent, e) ↦ rw (e, project_history_sync) tt
  | inr (on_demand, e) ↦
      elim (Option-cases (gather_conversations wt t c rfc3339 evt.conversations pctx)) [
        | inl e' ↦ rw (e, project_history_sync, e') tt
        | inr (msgs, e') ↦ rw (e, project_history_sync, e') (history_event-IsTyped msgs)
      ]
  | inr (other, e) ↦ rw (e, project_history_sync) tt
]
