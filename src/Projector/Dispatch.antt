-- ===== src/Projector/Dispatch.antt =====
-- internal/event/projector.go: `Project`.
use wsapi_app.Common.{ℕ, String}
use wsapi_app.Whatsmeow.{Jid, WaTypes}
use wsapi_app.Event.Types.{Event, Time, new_event}
use wsapi_app.Event.Constants.{}
use wsapi_app.Projector.{ProjectorContext, Projection, discard, project, panics}
use wsapi_app.Projector.Calls.{
  CallOffer, CallTerminate, CallAccept, project_call_offer, project_call_terminated,
  project_call_accepted,
}
use wsapi_app.Projector.Chats.{
  Mute, ChatAction, ChatPresence, PushName, Picture, Presence, UserAbout, project_mute, project_pin,
  project_archive, project_mark_chat_as_read, project_chat_presence, project_push_name,
  project_business_name, project_picture, project_presence, project_user_about,
}
use wsapi_app.Projector.Groups.{GroupInfo, JoinedGroup, project_group_info, project_joined_group}
use wsapi_app.Event.MediaId.{Codec}
use wsapi_app.Projector.Messages.{WaMessage, project_message}
use wsapi_app.Projector.Messages.Media.{Texts}
use wsapi_app.Projector.History.{HistorySync, project_history_sync}
use wsapi_app.Projector.Receipts.{
  Receipt, DeleteForMe, Star, project_receipt, project_message_delete_for_me, project_star,
}
use wsapi_app.Projector.Sessions.{
  PairError, NewsletterJoin, Contact, project_pair_success, project_pair_error, project_logged_out,
  project_newsletter_join, project_newsletter_leave, project_newsletter_mute_change,
  project_contact,
}

-- The events that `Project` tells apart.
pub data WaEvent : Type 0 where
  message_event : WaMessage → WaEvent
  receipt_event : Receipt → WaEvent
  delete_for_me : DeleteForMe → WaEvent
  star : Star → WaEvent
  pair_success : Jid → WaEvent
  pair_error : PairError → WaEvent
  device_logged_out : String → WaEvent
  mute_event : Mute → WaEvent
  pin_event archive_event mark_chat_as_read : ChatAction → WaEvent
  chat_presence_event : ChatPresence → WaEvent
  push_name : PushName → WaEvent
  business_name : WaEvent
  picture : Picture → WaEvent
  presence_event : Presence → WaEvent
  user_about : UserAbout → WaEvent
  group_info : GroupInfo → WaEvent
  joined_group_event : JoinedGroup → WaEvent
  newsletter_join : NewsletterJoin → WaEvent
  newsletter_leave newsletter_mute_change : Jid → String → WaEvent
  contact_event : Contact → WaEvent
  call_offer_event : CallOffer → WaEvent
  call_terminate_event : CallTerminate → WaEvent
  call_accept_event : CallAccept → WaEvent
  history_sync_event : HistorySync → WaEvent
  unknown_event : WaEvent

module _ (wt : WaTypes) (t : Texts) (c : Codec) (rfc3339 : ℕ → String) where
  -- The switch of `Project`.
  unfoldable pub project_event : WaEvent → ProjectorContext → Projection
  project_event (message_event e) pctx = project_message wt t c rfc3339 e pctx
  project_event (receipt_event e) pctx = project_receipt wt e pctx
  project_event (delete_for_me e) pctx = project_message_delete_for_me wt e pctx
  project_event (star e) pctx = project_star wt e pctx
  project_event (pair_success id) pctx = project_pair_success wt id
  project_event (pair_error e) pctx = project_pair_error wt e
  project_event (device_logged_out reason) pctx = project_logged_out wt reason
  project_event (mute_event e) pctx = project_mute wt rfc3339 e pctx
  project_event (pin_event e) pctx = project_pin wt e pctx
  project_event (archive_event e) pctx = project_archive wt e pctx
  project_event (mark_chat_as_read e) pctx = project_mark_chat_as_read wt e pctx
  project_event (chat_presence_event e) pctx = project_chat_presence wt e pctx
  project_event (push_name e) pctx = project_push_name wt e pctx
  project_event business_name pctx = project_business_name wt
  project_event (picture e) pctx = project_picture wt e pctx
  project_event (presence_event e) pctx = project_presence wt e pctx
  project_event (user_about e) pctx = project_user_about wt e pctx
  project_event (group_info e) pctx = project_group_info wt e pctx
  project_event (joined_group_event e) pctx = project_joined_group wt e pctx
  project_event (newsletter_join e) pctx = project_newsletter_join wt e
  project_event (newsletter_leave id role) pctx = project_newsletter_leave wt id role
  project_event (newsletter_mute_change id mute) pctx = project_newsletter_mute_change wt id mute
  project_event (contact_event e) pctx = project_contact wt e pctx
  project_event (call_offer_event e) pctx = project_call_offer wt e pctx
  project_event (call_terminate_event e) pctx = project_call_terminated wt e pctx
  project_event (call_accept_event e) pctx = project_call_accepted wt e pctx
  project_event (history_sync_event e) pctx = project_history_sync wt t c rfc3339 e pctx
  project_event unknown_event pctx = discard

-- What `Project` returns.
pub data Projected : Type 0 where
  discarded panicked : Projected
  projected : Event → Projected

-- The end of `Project`: the envelope.
unfoldable pub envelope : String → Time → String → Projection → Projected
envelope event_id now instance_id discard = discarded
envelope event_id now instance_id panics = panicked
envelope event_id now instance_id (project event_type payload) =
    projected (new_event event_id now instance_id event_type payload)

module _ (wt : WaTypes) (t : Texts) (c : Codec) (rfc3339 : ℕ → String) where
  -- `Project`
  unfoldable pub project_all : String → Time → WaEvent → ProjectorContext → Projected
  project_all event_id now e pctx =
      envelope event_id now pctx.instance_id (project_event wt t c rfc3339 e pctx)
