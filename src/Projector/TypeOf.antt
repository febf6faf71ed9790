-- ===== src/Projector/TypeOf.antt =====
-- The event type of each payload.
use wsapi_app.Common.{◌≡◌, String}
use wsapi_app.Event.Types.{
  EventData, message, receipt, message_delete, message_star, history_sync, chat_setting,
  chat_presence, chat_push_name, chat_status, chat_picture, newsletter, contact, presence, group,
  call_offer, call_terminate, call_accept, session_logged_in, session_logged_out,
  session_login_error, initial_sync_finished,
}
use wsapi_app.Event.Constants.{
  type_logged_out, type_logged_in, type_login_error, type_initial_sync_finished, type_chat_setting,
  type_chat_presence, type_chat_push_name, type_chat_status, type_chat_picture, type_message,
  type_message_read, type_message_delete, type_message_star, type_message_history_sync,
  type_contact, type_group, type_newsletter, type_call_offer, type_call_terminate, type_call_accept,
  type_user_presence,
}
use wsapi_app.Projector.{Projection, discard, project, panics}

-- The event type that belongs to a payload.
unfoldable pub type_of : EventData → String
type_of (message _) = type_message
type_of (receipt _) = type_message_read
type_of (message_delete _) = type_message_delete
type_of (message_star _) = type_message_star
type_of (history_sync _) = type_message_history_sync
type_of (chat_setting _) = type_chat_setting
type_of (chat_presence _) = type_chat_presence
type_of (chat_push_name _) = type_chat_push_name
type_of (chat_status _) = type_chat_status
type_of (chat_picture _) = type_chat_picture
type_of (newsletter _) = type_newsletter
type_of (contact _) = type_contact
type_of (presence _) = type_user_presence
type_of (group _) = type_group
type_of (call_offer _) = type_call_offer
type_of (call_terminate _) = type_call_terminate
type_of (call_accept _) = type_call_accept
type_of (session_logged_in _) = type_logged_in
type_of (session_logged_out _) = type_logged_out
type_of (session_login_error _) = type_login_error
type_of (initial_sync_finished _) = type_initial_sync_finished

-- A projection whose type fits its payload.
abbrev pub IsTyped : Projection → Type 0
IsTyped discard = Unit
IsTyped panics = Unit
IsTyped (project event_type payload) = event_type ≡ type_of payload
