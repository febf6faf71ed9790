-- ===== src/Event/Constants.antt =====
-- internal/event/constants.go: the event types, and the system events.
use wsapi_app.Common.{Bool, not, ◌||◌, String, ◌==◌, List, keep}

abbrev pub type_logged_out : String
type_logged_out = "logged_out"

abbrev pub type_logged_in : String
type_logged_in = "logged_in"

abbrev pub type_login_error : String
type_login_error = "login_error"

abbrev pub type_initial_sync_finished : String
type_initial_sync_finished = "initial_sync_finished"

abbrev pub type_chat_setting : String
type_chat_setting = "chat_setting"

abbrev pub type_chat_presence : String
type_chat_presence = "chat_presence"

abbrev pub type_chat_push_name : String
type_chat_push_name = "chat_push_name"

abbrev pub type_chat_status : String
type_chat_status = "chat_status"

abbrev pub type_chat_picture : String
type_chat_picture = "chat_picture"

abbrev pub type_message : String
type_message = "message"

abbrev pub type_message_read : String
type_message_read = "message_read"

abbrev pub type_message_delete : String
type_message_delete = "message_delete"

abbrev pub type_message_star : String
type_message_star = "message_star"

abbrev pub type_message_history_sync : String
type_message_history_sync = "message_history_sync"

abbrev pub type_contact : String
type_contact = "contact"

abbrev pub type_group : String
type_group = "group"

abbrev pub type_newsletter : String
type_newsletter = "newsletter"

abbrev pub type_call_offer : String
type_call_offer = "call_offer"

abbrev pub type_call_terminate : String
type_call_terminate = "call_terminate"

abbrev pub type_call_accept : String
type_call_accept = "call_accept"

abbrev pub type_user_presence : String
type_user_presence = "user_presence"

-- The map `systemEvents`, which has `true` at these keys and nothing else; `IsSystemEvent`.
unfoldable pub is_system_event : String → Bool
is_system_event event_type =
    event_type == type_logged_in
    || (event_type == type_logged_out
        || (event_type == type_login_error || event_type == type_initial_sync_finished))

-- `StripSystemEvents`
unfoldable pub strip_system_events : List String → List String
strip_system_events filters = keep (λ f. not (is_system_event f)) filters
