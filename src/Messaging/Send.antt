-- ===== src/Messaging/Send.antt =====
-- The operations that send a new message.
use wsapi_app.Common.{
  Bool, true, false, not, ◌||◌, String, ◌==◌, Option, none, some, [], length, if◌then◌else◌,
}
use wsapi_app.Whatsmeow.{empty_jid, WaTypes}
use wsapi_app.Whatsmeow.Proto.{ContextInfo, MediaFile, Message, empty_message, Coordinates}
use wsapi_app.Event.MediaId.Reader.{Bytes}
use wsapi_app.Jid.{format_recipient}
use wsapi_app.Messaging.{
  SendOptions, MediaSendOptions, media_image, media_video, media_audio, media_document,
  UploadResponse, Client, Outcome, fail, invalid_coordinates, build_context_info, send, upload_then,
}

-- A text, with its context if there is one.
unfoldable pub text_message : String → Option ContextInfo → Message
text_message text none = record empty_message { conversation = some text }
text_message text (some ctx) = record empty_message {
  extended_text_message = some (record {
    text = some text;
    matched_text = none;
    title = none;
    description = none;
    jpeg_thumbnail = [];
    context_info = some ctx;
  });
}

-- The fields of an uploaded file.
unfoldable pub uploaded_file : UploadResponse → Bytes → String → MediaFile
uploaded_file u content mime_type = record {
  url = some u.url;
  direct_path = some u.direct_path;
  mimetype = some mime_type;
  media_key = u.media_key;
  file_sha256 = u.file_sha256;
  file_enc_sha256 = u.file_enc_sha256;
  file_length = some (length content);
}

abbrev pub no_options : SendOptions
no_options = record {
  mentions = [];
  reply_to = "";
  reply_to_sender_id = "";
  is_forwarded = false;
  ephemeral_expiration = "";
}

module _ (wt : WaTypes) (client : Client) where
  -- `SendText`
  unfoldable pub send_text : String → String → SendOptions → Outcome
  send_text to text opts =
      send client (format_recipient wt to)
        (text_message text (build_context_info wt (format_recipient wt to) opts))

  -- `SendLink`
  unfoldable pub send_link :
      String → String → String → String → String → Bytes → SendOptions → Outcome
  send_link to text url title description thumbnail opts =
      let ctx = build_context_info wt (format_recipient wt to) opts in
      send client (format_recipient wt to) (record empty_message {
        extended_text_message = some (record {
          text = some text;
          matched_text = some url;
          title = some title;
          description = some description;
          jpeg_thumbnail = thumbnail;
          context_info = ctx;
        });
      })

  -- `SendImage`
  unfoldable pub send_image : String → Bytes → String → MediaSendOptions → Outcome
  send_image to content mime_type opts =
      let ctx = build_context_info wt (format_recipient wt to) opts.send_options in
      upload_then client content media_image λ u.
        send client (format_recipient wt to) (record empty_message {
          image_message = some (record {
            file = uploaded_file u content mime_type;
            caption = some opts.caption;
            height = none;
            width = none;
            jpeg_thumbnail = [];
            context_info = ctx;
            view_once = some opts.view_once;
          });
        })

  -- `SendVideo`
  unfoldable pub send_video : String → Bytes → String → MediaSendOptions → Outcome
  send_video to content mime_type opts =
      let ctx = build_context_info wt (format_recipient wt to) opts.send_options in
      upload_then client content media_video λ u.
        send client (format_recipient wt to) (record empty_message {
          video_message = some (record {
            file = uploaded_file u content mime_type;
            caption = some opts.caption;
            height = none;
            width = none;
            seconds = none;
            jpeg_thumbnail = [];
            context_info = ctx;
            view_once = some opts.view_once;
          });
        })

  -- `SendAudio`
  unfoldable pub send_audio : String → Bytes → String → MediaSendOptions → Outcome
  send_audio to content mime_type opts =
      let ctx = build_context_info wt (format_recipient wt to) opts.send_options in
      upload_then client content media_audio λ u.
        send client (format_recipient wt to) (record empty_message {
          audio_message = some (record {
            file = uploaded_file u content mime_type;
            seconds = none;
            ptt = none;
            context_info = ctx;
            view_once = some opts.view_once;
          });
        })

  -- `SendVoice`
  unfoldable pub send_voice : String → Bytes → MediaSendOptions → Outcome
  send_voice to content opts =
      let ctx = build_context_info wt (format_recipient wt to) opts.send_options in
      upload_then client content media_audio λ u.
        send client (format_recipient wt to) (record empty_message {
          audio_message = some (record {
            file = uploaded_file u content "audio/ogg; codecs=opus";
            seconds = none;
            ptt = some true;
            context_info = ctx;
            view_once = some opts.view_once;
          });
        })

  -- `SendDocument`
  unfoldable pub send_document : String → Bytes → String → MediaSendOptions → Outcome
  send_document to content filename opts =
      let ctx = build_context_info wt (format_recipient wt to) opts.send_options in
      upload_then client content media_document λ u.
        send client (format_recipient wt to) (record empty_message {
          document_message = some (record {
            file = uploaded_file u content (client.mime_of_file filename);
            title = some filename;
            file_name = some filename;
            page_count = none;
            caption = some opts.caption;
            jpeg_thumbnail = [];
            context_info = ctx;
          });
        })

  -- `SendSticker`
  unfoldable pub send_sticker : String → Bytes → Bool → SendOptions → Outcome
  send_sticker to content is_animated opts =
      let ctx = build_context_info wt (format_recipient wt to) opts in
      upload_then client content media_image λ u.
        send client (format_recipient wt to) (record empty_message {
          sticker_message = some (record {
            file = uploaded_file u content "image/webp";
            height = none;
            width = none;
            is_animated = some is_animated;
            context_info = ctx;
          });
        })

  -- `SendContact`
  unfoldable pub send_contact : String → String → String → SendOptions → Outcome
  send_contact to display_name vcard opts =
      let ctx = build_context_info wt (format_recipient wt to) opts in
      send client (format_recipient wt to) (record empty_message {
        contact_message =
            some
              (record { display_name = some display_name; vcard = some vcard; context_info = ctx });
      })

  -- `SendReaction`
  unfoldable pub send_reaction : String → String → String → String → Outcome
  send_reaction to sender_id message_id reaction =
      let chat = format_recipient wt to in
      let sender = if not (sender_id == "") then format_recipient wt sender_id else empty_jid in
      send client chat (client.build_reaction chat sender message_id reaction)

  -- `lat < -90 || lat > 90 || lng < -180 || lng > 180`
  unfoldable pub out_of_range : Coordinates → Bool
  out_of_range c =
      client.float_lt c.degrees_latitude "-90"
      || (client.float_lt "90" c.degrees_latitude
          || (client.float_lt c.degrees_longitude "-180"
              || client.float_lt "180" c.degrees_longitude))

  -- `SendLocation`
  unfoldable pub send_location : String → Coordinates → String → String → String → String → Outcome
  send_location to coordinates name address url expiration =
      let opts = record no_options { ephemeral_expiration = expiration } in
      let ctx = build_context_info wt (format_recipient wt to) opts in
      if out_of_range coordinates
      then fail invalid_coordinates
      else send client (format_recipient wt to) (record empty_message {
        location_message = some (record {
          coordinates = coordinates;
          name = some name;
          address = some address;
          url = some url;
          context_info = ctx;
        });
      })
