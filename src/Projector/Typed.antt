-- ===== src/Projector/Typed.antt =====
-- The types of the events that `Project` makes.
use wsapi_app.Common.{ℕ, ◌≡◌, refl, String, arith}
use wsapi_app.Whatsmeow.{WaTypes}
use wsapi_app.Event.Types.{Event, Time, new_event}
use wsapi_app.Event.Constants.{}
use wsapi_app.Projector.{ProjectorContext, Projection, discard, project, panics}
use wsapi_app.Projector.Calls.{
  CallOffer, project_call_offer, project_call_terminated, project_call_accepted,
}
use wsapi_app.Projector.Chats.{
  project_mute, project_pin, project_archive, project_mark_chat_as_read, project_chat_presence,
  project_push_name, project_picture, project_presence, project_user_about,
}
use wsapi_app.Projector.Groups.{
  GroupInfo, project_group_info, project_group_ephemeral, project_joined_group,
}
use wsapi_app.Event.MediaId.{Codec}
use wsapi_app.Projector.Messages.Media.{Texts}
use wsapi_app.Projector.TypeOf.{type_of, IsTyped}
use wsapi_app.Projector.Messages.Typed.{project_message-IsTyped, project_history_sync-IsTyped}
use wsapi_app.Projector.Receipts.{project_receipt, project_message_delete_for_me, project_star}
use wsapi_app.Projector.Sessions.{
  project_pair_success, project_pair_error, project_logged_out, project_newsletter_join,
  project_newsletter_leave, project_newsletter_mute_change, project_contact,
}
use wsapi_app.Projector.Dispatch.{
  WaEvent, message_event, history_sync_event, projected, project_event, envelope, project_all,
  receipt_event, delete_for_me, star, pair_success, pair_error, device_logged_out, mute_event,
  pin_event, archive_event, mark_chat_as_read, chat_presence_event, push_name, business_name,
  picture, presence_event, user_about, group_info, joined_group_event, newsletter_join,
  newsletter_leave, newsletter_mute_change, contact_event, call_offer_event, call_terminate_event,
  call_accept_event, unknown_event,
}

module _ (wt : WaTypes) (t : Texts) (c : Codec) (rfc3339 : ℕ → String) where
  project_group_info-IsTyped :
      (e : GroupInfo) (pctx : ProjectorContext) → IsTyped (project_group_info wt e pctx)
  unfolding project_group_info project_group_ephemeral type_of
  project_group_info-IsTyped e pctx = ground arith

  project_call_offer-IsTyped :
      (e : CallOffer) (pctx : ProjectorContext) → IsTyped (project_call_offer wt e pctx)
  unfolding project_call_offer type_of
  project_call_offer-IsTyped e pctx = ground arith

  project_event-IsTyped :
      (e : WaEvent) (pctx : ProjectorContext) → IsTyped (project_event wt t c rfc3339 e pctx)
  unfolding project_event type_of project_receipt project_message_delete_for_me project_star
      project_pair_success project_pair_error project_logged_out project_mute project_pin
      project_archive project_mark_chat_as_read project_chat_presence project_push_name
      project_picture project_presence project_user_about project_joined_group
      project_newsletter_join project_newsletter_leave project_newsletter_mute_change
      project_contact project_call_terminated project_call_accepted
  project_event-IsTyped (message_event e) pctx = project_message-IsTyped wt t c rfc3339 e pctx
  project_event-IsTyped (history_sync_event e) pctx =
      project_history_sync-IsTyped wt t c rfc3339 e pctx
  project_event-IsTyped (receipt_event e) pctx = ground arith
  project_event-IsTyped (delete_for_me e) pctx = refl
  project_event-IsTyped (star e) pctx = refl
  project_event-IsTyped (pair_success id) pctx = refl
  project_event-IsTyped (pair_error e) pctx = refl
  project_event-IsTyped (device_logged_out reason) pctx = refl
  project_event-IsTyped (mute_event e) pctx = ground arith
  project_event-IsTyped (pin_event e) pctx = ground arith
  project_event-IsTyped (archive_event e) pctx = ground arith
  project_event-IsTyped (mark_chat_as_read e) pctx = ground arith
  project_event-IsTyped (chat_presence_event e) pctx = refl
  project_event-IsTyped (push_name e) pctx = ground arith
  project_event-IsTyped business_name pctx = tt
  project_event-IsTyped (picture e) pctx = ground arith
  project_event-IsTyped (presence_event e) pctx = refl
  project_event-IsTyped (user_about e) pctx = ground arith
  project_event-IsTyped (group_info e) pctx = project_group_info-IsTyped e pctx
  project_event-IsTyped (joined_group_event e) pctx = ground arith
  project_event-IsTyped (newsletter_join e) pctx = refl
  project_event-IsTyped (newsletter_leave id role) pctx = refl
  project_event-IsTyped (newsletter_mute_change id mute) pctx = refl
  project_event-IsTyped (contact_event e) pctx = ground arith
  project_event-IsTyped (call_offer_event e) pctx = project_call_offer-IsTyped e pctx
  project_event-IsTyped (call_terminate_event e) pctx = refl
  project_event-IsTyped (call_accept_event e) pctx = refl
  project_event-IsTyped unknown_event pctx = tt

typed_envelope :
    (event_id : String) (now : Time) (instance_id : String) (p : Projection) (evt : Event)
    → IsTyped p
    → envelope event_id now instance_id p ≡ projected evt
    → (evt.event_type ≡ type_of evt.event_data) × (evt.instance_id ≡ instance_id)
unfolding envelope new_event
typed_envelope event_id now instance_id discard evt t h = absurd (cc)
typed_envelope event_id now instance_id panics evt t h = absurd (cc)
typed_envelope event_id now instance_id (project event_type payload) evt t h = ground (arith, t)

-- Every event that `Project` makes has the event type that belongs to its payload, so that filters
-- and subscribers can go by the type, and the ID of the instance of the projector.
pub projected_is_typed :
    (wt : WaTypes) (t : Texts) (c : Codec) (rfc3339 : ℕ → String) (event_id : String) (now : Time)
    (e : WaEvent) (pctx : ProjectorContext) (evt : Event)
    → project_all wt t c rfc3339 event_id now e pctx ≡ projected evt
    → (evt.event_type ≡ type_of evt.event_data) × (evt.instance_id ≡ pctx.instance_id)
unfolding project_all
projected_is_typed wt t c rfc3339 event_id now e pctx evt h =
    typed_envelope event_id now pctx.instance_id (project_event wt t c rfc3339 e pctx) evt
      (project_event-IsTyped wt t c rfc3339 e pctx) h
