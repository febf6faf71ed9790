-- ===== src/Messaging/Tests.antt =====
-- What a client that is paired as 234567 sends to a group, and what its members receive.
use wsapi_app.Common.{◌≡◌, ◌≤◌, ◌*◌, ◌/◌, ◌^◌, refl, true, String, some, [], ◌∷◌, eq_iff, arith, ok}
use wsapi_app.Whatsmeow.{jid_of}
use wsapi_app.Whatsmeow.Samples.{sample_types}
use wsapi_app.Whatsmeow.Proto.{Message}
use wsapi_app.Event.MediaId.{MediaDownloadInfo, write_body, decode_media_id}
use wsapi_app.Event.MediaId.RoundTrip.{IsEncodable}
use wsapi_app.Event.Samples.{codec, codec-IsCodec}
use wsapi_app.Event.Types.{Time, MessageEvent, MediaInfo, message}
use wsapi_app.Validate.{has_at, trim_plus}
use wsapi_app.Jid.{parse_jid, format_recipient}
use wsapi_app.Projector.{project}
use wsapi_app.Projector.Messages.{project_message}
use wsapi_app.Projector.Messages.Samples.{
  sample_texts, read_from, read_from-spelled, context, report,
}
use wsapi_app.Messaging.{SendOptions, MediaSendOptions, media_image, sent, uploaded}
use wsapi_app.Messaging.Samples.{response, client}
use wsapi_app.Messaging.Send.{send_text, send_image}
use wsapi_app.Messaging.Actions.{edit_message, pin_message}
use wsapi_app.Messaging.Received.{expiration_of, replied_to, mentioned_chats, sent_text_is_received}
use wsapi_app.Messaging.ReceivedMedia.{uploaded_image, sent_image_is_downloadable}
use wsapi_app.Messaging.ReceivedActions.{pin_of, sent_pin_is_received, sent_edit_is_received}

abbrev options : SendOptions
options = record {
  mentions = "234567@s.whatsapp.net" ∷ "" ∷ [];
  reply_to = "M0";
  reply_to_sender_id = "";
  is_forwarded = true;
  ephemeral_expiration = "7d";
}

abbrev group : String
group = "234567@s.whatsapp.net"

sent_text_is_received_example :
    (msg : Message) × (evt : MessageEvent) × ((send_text sample_types client group "hi"
        options).calls
      ≡ sent (format_recipient sample_types group) msg ∷ [])
    × (project_message sample_types sample_texts codec
          (λ n. "")
          (record { info = report; content = some msg })
          context
        ≡ project "message" (message evt))
    × (evt.text ≡ "hi")
    × (evt.type ≡ "text")
    × (evt.is_forwarded ≡ true)
    × (evt.mentions ≡ mentioned_chats sample_types context.lids options.mentions)
    × (replied_to evt.reply_to ≡ "M0")
    × (evt.ephemeral_expiration ≡ expiration_of "7d")
unfolding format_recipient trim_plus has_at
sent_text_is_received_example =
    sent_text_is_received sample_types sample_texts codec (λ n. "") client group "hi" options report
      context (λ e. ground (arith, eq_iff "hi" "")) refl ((λ e. (refl, refl)), ((λ e. cc), tt))

abbrev media_options : MediaSendOptions
media_options = record { send_options = options; caption = "look"; view_once = true }

abbrev file : MediaDownloadInfo
file = uploaded_image sample_texts response (7 ∷ 8 ∷ []) "image/png"

file-IsEncodable : IsEncodable file
unfolding read_from
file-IsEncodable = record {
  url = omega arith;
  direct_path = omega arith;
  media_key = omega arith;
  file_sha256 = omega arith;
  file_enc_sha256 = omega arith;
  mime_type = omega arith;
  file_name = omega arith;
  media_type = omega arith;
}

sent_image_is_downloadable_example :
    (msg : Message) × (evt : MessageEvent) × (media : MediaInfo) × ((send_image sample_types client
        group
        (7 ∷ 8 ∷ [])
        "image/png"
        media_options).calls
      ≡ uploaded (7 ∷ 8 ∷ []) media_image ∷ sent (format_recipient sample_types group) msg ∷ [])
    × (project_message sample_types sample_texts codec
          (λ n. "")
          (record { info = report; content = some msg })
          context
        ≡ project "message" (message evt))
    × (evt.media ≡ some media)
    × (evt.view_once ≡ true)
    × (media.caption ≡ "look")
    × (decode_media_id codec (sample_texts.bytes_of media.id) ≡ ok file)
sent_image_is_downloadable_example =
    sent_image_is_downloadable sample_types sample_texts codec (λ n. "") client group (7 ∷ 8 ∷ [])
      "image/png" media_options report context response (31 ∷ write_body file) codec-IsCodec
      (λ b. read_from-spelled (64 ∷ b)) refl refl file-IsEncodable (omega arith) refl

sent_pin_is_received_example :
    (msg : Message) × (evt : MessageEvent) × ((pin_message sample_types client 9 group "" "M0" true
        "7d").calls
      ≡ sent (jid_of "234567" "s.whatsapp.net") msg ∷ [])
    × (project_message sample_types sample_texts codec
          (λ n. "")
          (record { info = report; content = some msg })
          context
        ≡ project "message" (message evt))
    × (evt.pin ≡ some (record { pinned = true; message_id = "M0"; expiration = pin_of "7d" }))
unfolding parse_jid has_at
sent_pin_is_received_example =
    sent_pin_is_received sample_types sample_texts codec (λ n. "") client 9 group "" "M0" true "7d"
      (jid_of "234567" "s.whatsapp.net") report context (λ a b id. refl) refl refl

-- A day of November 2023.
abbrev edited_at : Time
edited_at = 1700000000 * 10 ^ 9

sent_edit_is_received_example :
    (msg : Message) × (evt : MessageEvent) × ((edit_message sample_types client edited_at group "M0"
        "hi" options).calls
      ≡ sent (format_recipient sample_types group) msg ∷ [])
    × (project_message sample_types sample_texts codec
          (λ n. "1970-01-01T00:00:00Z")
          (record { info = report; content = some msg })
          context
        ≡ project "message" (message evt))
    × (evt.is_edit ≡ true)
    × (evt.text ≡ "hi")
    × (evt.edit
        ≡ some
            (record { original_message_time = "1970-01-01T00:00:00Z"; original_message_id = "M0" }))
    × (◌≤◌ (edited_at / 10 ^ 9 * 10 ^ 6 * 1000) edited_at)
sent_edit_is_received_example =
    sent_edit_is_received sample_types sample_texts codec (λ n. "1970-01-01T00:00:00Z") client
      edited_at group "M0" "hi" options report context (λ e. ground (arith, eq_iff "hi" "")) refl
