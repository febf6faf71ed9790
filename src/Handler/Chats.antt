-- ===== src/Handler/Chats.antt =====
-- internal/handler/chat.go: the handlers of the routes under /chats; that of business profiles is in
-- Handler.Business.
use wsapi_app.Common.{
  ℕ, ℤ, pos, negsuc, Bool, true, false, not, eqb, leb, ◌&&◌, ◌||◌, String, ◌==◌, Option, none, some,
  List, [], ◌∷◌, contains, if◌then◌else◌, Result, ok, err,
}
use wsapi_app.Whatsmeow.{WaTypes}
use wsapi_app.Event.Types.{Time}
use wsapi_app.Store.Chats.{ChatTable}
use wsapi_app.Server.Status.{Sentinel, err_not_found, service_status}
use wsapi_app.ChatService.{
  ChatListItem, DeviceStore, ChatError, not_paired, list_failed, not_found, list_chats,
  get_chat_info,
}
use wsapi_app.ChatService.Actions.{
  ChatPictureResponse, Call, Client, ActionError, invalid_jid, invalid_state, invalid_expiration,
  invalid_duration, picture_failed, client_error, request_failed, nil_device, Outcome,
  get_chat_picture, send_chat_presence, subscribe_chat_presence, set_ephemeral_expiration,
  mute_chat, pin_chat, archive_chat, mark_chat_as_read, clear_chat, delete_chat, request_messages,
}

-- The answer: 200 with a body, 204, 202, an error with its status, and a panic.
pub data ChatAnswer : Type 0 where
  chats : List ChatListItem → ChatAnswer
  chat : ChatListItem → ChatAnswer
  picture : ChatPictureResponse → ChatAnswer
  no_content accepted panicked : ChatAnswer
  failure : ℕ → ChatAnswer

pub record ChatHandled : Type 0 where
  pub calls : List Call
  pub answer : ChatAnswer

pub record RequestMessagesRequest : Type 0 where
  pub last_message_id : String
  pub last_message_sender_id : String
  pub count : ℤ

-- The routes, with what the handler reads of the JSON body, if it is such.
pub data ChatRequest : Type 0 where
  list_all get_info get_picture subscribe clear delete : ChatRequest
  set_presence set_ephemeral mute : Option String → ChatRequest
  pin archive mark_as_read : Option Bool → ChatRequest
  messages : Option RequestMessagesRequest → ChatRequest

-- The rules of the requests. `required` refuses the empty text, which is none of the options.
unfoldable pub valid_state : String → Bool
valid_state s = contains s ("typing" ∷ "paused" ∷ "recording" ∷ [])

unfoldable pub valid_expiration : String → Bool
valid_expiration s = contains s ("off" ∷ "24h" ∷ "7d" ∷ "90d" ∷ [])

unfoldable pub valid_duration : String → Bool
valid_duration s = contains s ("8h" ∷ "1w" ∷ "always" ∷ "off" ∷ [])

-- What the handlers depend on, besides the client: the store, the table of chats, whether the database
-- answers, the sentinels in an error of the client, and the clock.
pub record ChatWorld : Type 0 where
  pub store : DeviceStore
  pub rows : ChatTable
  pub db_ok : Bool
  pub client_sentinels : String → List Sentinel
  pub now : Time

-- `count == 0`, and `min=1,max=500`
unfoldable pub is_zero_count : ℤ → Bool
is_zero_count (pos n) = eqb n 0
is_zero_count (negsuc _) = false

unfoldable pub in_range : ℤ → Bool
in_range (pos n) = leb 1 n && leb n 500
in_range (negsuc _) = false

unfoldable pub valid_messages : RequestMessagesRequest → Bool
valid_messages r =
    not (r.last_message_id == "")
    && (not (r.last_message_sender_id == "") && (is_zero_count r.count || in_range r.count))

-- The count that is passed on.
unfoldable pub count_of : RequestMessagesRequest → ℤ
count_of r = if is_zero_count r.count then pos 50 else r.count

abbrev refuse : ℕ → ChatHandled
refuse status = record { calls = []; answer = failure status }

-- `Decode`, and what follows it.
unfoldable pub decode_chat : {A : Type 0} → Option A → (A → Bool) → (A → ChatHandled) → ChatHandled
decode_chat none is_valid next = refuse 400
decode_chat (some req) is_valid next = if is_valid req then next req else refuse 400

-- The sentinels that the errors of the service wrap. The error of the database wraps none.
unfoldable pub chat_sentinels : ChatError → List Sentinel
chat_sentinels not_paired = []
chat_sentinels (list_failed _) = []
chat_sentinels (not_found _) = err_not_found ∷ []

unfoldable pub action_sentinels : (String → List Sentinel) → ActionError → List Sentinel
action_sentinels client_sentinels (client_error e) = client_sentinels e
action_sentinels client_sentinels (picture_failed e) = client_sentinels e
action_sentinels client_sentinels (request_failed e) = client_sentinels e
action_sentinels client_sentinels (invalid_jid _) = []
action_sentinels client_sentinels (invalid_state _) = []
action_sentinels client_sentinels (invalid_expiration _) = []
action_sentinels client_sentinels (invalid_duration _) = []
action_sentinels client_sentinels nil_device = []

-- `ServiceError`, and the panic of a device that is not paired.
unfoldable pub action_error : (String → List Sentinel) → ActionError → ChatAnswer
action_error client_sentinels nil_device = panicked
action_error client_sentinels e = failure (service_status (action_sentinels client_sentinels e))

-- The end of a handler.
unfoldable pub respond_chat :
    {A : Type 0} → (String → List Sentinel) → (A → ChatAnswer) → Outcome A → ChatHandled
respond_chat client_sentinels success o = record {
  calls = o.calls;
  answer = elim o.result [ err e ↦ action_error client_sentinels e | ok a ↦ success a ];
}

unfoldable pub respond_read : {A : Type 0} → (A → ChatAnswer) → Result ChatError A → ChatHandled
respond_read success (err e) = refuse (service_status (chat_sentinels e))
respond_read success (ok a) = record { calls = []; answer = success a }

module _ (wt : WaTypes) (client : Client) (w : ChatWorld) (chat_id : String) where
  abbrev done : Outcome (Unit {0}) → ChatHandled
  done = respond_chat w.client_sentinels (λ _. no_content)

  abbrev anything : {A : Type 0} → A → Bool
  anything _ = true

  unfoldable pub handle_chat : ChatRequest → ChatHandled
  handle_chat list_all = respond_read chats (list_chats wt w.store w.db_ok w.now w.rows)
  handle_chat get_info = respond_read chat (get_chat_info wt w.store w.db_ok w.now chat_id w.rows)
  handle_chat get_picture =
      respond_chat w.client_sentinels picture (get_chat_picture wt client chat_id)
  handle_chat subscribe = done (subscribe_chat_presence wt client chat_id)
  handle_chat clear = done (clear_chat wt client w.now chat_id)
  handle_chat delete = done (delete_chat wt client w.now chat_id)
  handle_chat (set_presence body) =
      decode_chat body valid_state λ state. done (send_chat_presence wt client chat_id state)
  handle_chat (set_ephemeral body) =
      decode_chat body valid_expiration
        λ expiration. done (set_ephemeral_expiration wt client w.now chat_id expiration)
  handle_chat (mute body) =
      decode_chat body valid_duration λ duration. done (mute_chat wt client chat_id duration)
  handle_chat (pin body) =
      decode_chat body anything λ pinned. done (pin_chat wt client chat_id pinned)
  handle_chat (archive body) =
      decode_chat body anything λ archived. done (archive_chat wt client w.now chat_id archived)
  handle_chat (mark_as_read body) =
      decode_chat body anything λ is_read. done (mark_chat_as_read wt client w.now chat_id is_read)
  handle_chat (messages body) = decode_chat body valid_messages λ req.
      respond_chat w.client_sentinels (λ _. accepted)
        (request_messages wt client chat_id req.last_message_id req.last_message_sender_id
          (count_of req))
