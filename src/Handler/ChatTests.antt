-- ===== src/Handler/ChatTests.antt =====
-- A request that mutes the sample chat.
use wsapi_app.Common.{refl, some, true, []}
use wsapi_app.Whatsmeow.{jid_of}
use wsapi_app.Whatsmeow.Samples.{sample_types}
use wsapi_app.Validate.{has_at}
use wsapi_app.Jid.{parse_jid}
use wsapi_app.ChatService.Samples.{store, rows, client}
use wsapi_app.Handler.Chats.{ChatRequest, ChatWorld, handle_chat, valid_duration}
use wsapi_app.Handler.ChatsSent.{IsSent, accepted-IsSent}

abbrev chat_world : ChatWorld
chat_world = record {
  store = store;
  rows = rows;
  db_ok = true;
  client_sentinels = λ e. [];
  now = 60;
}

accepted-IsSent_example :
    IsSent
      (handle_chat sample_types client chat_world "234567@s.whatsapp.net"
        (ChatRequest.mute (some "1w"))).calls
unfolding parse_jid has_at valid_duration
accepted-IsSent_example =
    accepted-IsSent sample_types client chat_world "234567@s.whatsapp.net"
      (jid_of "234567" "s.whatsapp.net") "1" (ChatRequest.mute (some "1w")) refl refl
      ("1w", refl, refl)
