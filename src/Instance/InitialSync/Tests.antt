-- ===== src/Instance/InitialSync/Tests.antt =====
-- Parts of a history, and a sync of one conversation with one message.
use wsapi_app.Common.{
  ◌≤◌, ◌≡◌, refl, true, false, String, Option, none, some, List, [], ◌∷◌, map, arith,
}
use wsapi_app.Whatsmeow.{Jid}
use wsapi_app.Whatsmeow.Proto.{recent, Message, empty_message}
use wsapi_app.Whatsmeow.Samples.{sample_types}
use wsapi_app.Event.Types.{MessageEvent}
use wsapi_app.Event.Samples.{codec}
use wsapi_app.Projector.Messages.Samples.{sample_texts, context, report}
use wsapi_app.History.{Flusher, chunk_event, chunk_messages, parse_arrays, flush_chat}
use wsapi_app.Instance.InitialSync.{
  Attempt, cached_chat, cache_conversations, SyncEvent, SyncState, SyncStep, history, paired,
  on_sync_steps,
}
use wsapi_app.Instance.InitialSync.Once.{announced_once}
use wsapi_app.Instance.InitialSync.Flush.{synced_is_flushed}
use wsapi_app.Instance.Tracking.{resolve_lid, skip_chat}
use wsapi_app.Projector.Messages.{
  base_event, has_content, publish_content, project_content, project_message,
}
use wsapi_app.Projector.History.{SyncConversation, gather, gather_messages}

abbrev no_alternative : Jid → Option Jid
no_alternative jid = none

abbrev ids : List MessageEvent → Option String
ids msgs = some ""

abbrev last_part : SyncEvent
last_part = record { sync_type = some recent; conversations = []; progress = 100 }

abbrev start : SyncState
start = record { cache = []; published = false }

abbrev steps : List SyncStep
steps = history 5 "me" last_part ∷ history 6 "me" last_part ∷ paired ∷ history 7 "me" last_part ∷ []

announced_once_example :
    (on_sync_steps sample_types no_alternative sample_texts codec
      (λ n. "")
      ids
      context
      true
      steps
      start).0
    ≤ 2
announced_once_example =
    announced_once sample_types no_alternative sample_texts codec (λ n. "") ids context true steps
      start refl

abbrev greeting : Message
greeting = record empty_message { conversation = some "hi" }

abbrev greeting_event : MessageEvent
greeting_event = record (base_event sample_types sample_texts codec (λ n. "") report context) {
  text = "hi";
  type = "text";
}

abbrev conversations : List (Attempt × Option SyncConversation)
conversations =
    (
      record { clean_ok = true; insert_ok = true; now = 5 },
      some (record {
        id = "234567@s.whatsapp.net";
        messages = (λ chat. some (record { info = report; content = some greeting })) ∷ [];
      }),
    )
    ∷ []

abbrev flusher : Flusher
flusher = record {
  unmarshal = λ json. some (greeting_event ∷ []);
  event_id = λ e. "ev_1";
  now = 9;
  order = λ chats. chats;
  list_ok = true;
  get_ok = λ chat. true;
  delete_ok = true;
}

abbrev chat : String
chat = "234567@s.whatsapp.net"

synced_is_flushed_example :
    flush_chat flusher "a" "me"
      (cache_conversations sample_types no_alternative sample_texts codec
        (λ n. "")
        ids
        context
        100
        "me"
        conversations
        []).1
      chat
    ≡ map (chunk_event flusher "a" chat) ((greeting_event ∷ []) ∷ [])
unfolding cache_conversations cached_chat gather_messages gather project_message project_content
    publish_content has_content base_event resolve_lid skip_chat chunk_messages parse_arrays
synced_is_flushed_example =
    synced_is_flushed sample_types no_alternative sample_texts codec (λ n. "") ids context flusher
      "me" chat conversations 100 [] "a" ((λ jid msgs e g. ("", refl, g)), tt) (omega arith) refl
      ((refl, omega arith), tt) refl
