-- ===== src/Messaging/ReceivedMedia.antt =====
-- Images that the service sends, as the recipient's projector reports them and its download finds them.
use wsapi_app.Common.{
  ℕ, ◌≡◌, ◌<◌, ◌^◌, refl, false, ◌||◌, String, ◌==◌, Option, none, some, [], ◌∷◌, length, arith, ok,
}
use wsapi_app.Whatsmeow.{Jid, WaTypes}
use wsapi_app.Whatsmeow.Proto.{get_number, ContextInfo, MediaFile, Message, empty_message}
use wsapi_app.Event.MediaId.{
  MediaDownloadInfo, Codec, IsCodec, write_body, encode_media_id, decode_media_id, create_media_id,
}
use wsapi_app.Event.MediaId.Reader.{Bytes}
use wsapi_app.Event.MediaId.RoundTrip.{IsEncodable, IsEncodable-check_lengths, decode-encode}
use wsapi_app.Event.Types.{MessageEvent, MediaInfo, message}
use wsapi_app.Event.Constants.{type_message}
use wsapi_app.Jid.{format_recipient}
use wsapi_app.Projector.{ProjectorContext, project}
use wsapi_app.Projector.Messages.{
  MessageInfo, base_event, has_content, publish_content, project_content, project_message,
}
use wsapi_app.Projector.Messages.Context.{project_context_info}
use wsapi_app.Projector.Messages.Media.{
  Texts, download_info, media_info, set_media, set_view_once, project_image_message,
}
use wsapi_app.Messaging.{
  MediaSendOptions, MediaType, media_image, UploadResponse, Client, Outcome, uploaded, sent,
  build_context_info, send, upload_then,
}
use wsapi_app.Messaging.Send.{uploaded_file, send_image}

-- base64 is ASCII: the text of an encoding has its bytes.
abbrev pub IsAscii : Texts → Codec → Type 0
IsAscii t c = (b : Bytes) → t.bytes_of (t.text_of (c.base64_encode b)) ≡ c.base64_encode b

module _ (t : Texts) (c : Codec) (laws : IsCodec c) (ascii : IsAscii t c) where
  encoded :
      (info : MediaDownloadInfo) (z : Bytes)
      → IsEncodable info
      → c.gzip (write_body info) ≡ some z
      → encode_media_id c info ≡ ok (c.base64_encode z)
  unfolding encode_media_id
  encoded info z e g = rw (IsEncodable-check_lengths info e, g) refl

  created :
      (info : MediaDownloadInfo) (z : Bytes)
      → IsEncodable info
      → c.gzip (write_body info) ≡ some z
      → create_media_id c info ≡ c.base64_encode z
  unfolding create_media_id
  created info z e g = rw (encoded info z e g, create_media_id) refl

  -- The media ID of an event decodes to the file of the message.
  pub media_id_decodes :
      (file : MediaFile) (file_name media_type : String) (z : Bytes)
      → let info = download_info t file file_name media_type in
        IsEncodable info
        → get_number file.file_length < 2 ^ 64
        → c.gzip (write_body info) ≡ some z
        → decode_media_id c (t.bytes_of (media_info t c file file_name media_type).id) ≡ ok info
  unfolding media_info download_info
  media_id_decodes file file_name media_type z e fits g =
      let info = download_info t file file_name media_type in
      rw (created info z e g, ascii z)
        (decode-encode c info (c.base64_encode z) laws fits (encoded info z e g))

view_once-project_context_info :
    (wt : WaTypes) (ctx : Option ContextInfo) (result : MessageEvent) (pctx : ProjectorContext)
    → (project_context_info wt ctx result pctx).view_once ≡ result.view_once
unfolding project_context_info
view_once-project_context_info wt none result pctx = refl
view_once-project_context_info wt (some ctx) result pctx = refl

calls-upload_then :
    (client : Client) (content : Bytes) (kind : MediaType) (u : UploadResponse)
    (next : UploadResponse → Outcome)
    → client.upload content kind ≡ ok u
    → (upload_then client content kind next).calls ≡ uploaded content kind ∷ (next u).calls
unfolding upload_then
calls-upload_then client content kind u next e = rw (e, upload_then) refl

publish_content-media :
    (evt : MessageEvent) (media : MediaInfo)
    → evt.media ≡ some media
    → publish_content evt ≡ project type_message (message evt)
unfolding publish_content has_content
publish_content-media evt media h = ground arith

-- The message that carries an image.
image_message_of : UploadResponse → Bytes → String → MediaSendOptions → Option ContextInfo → Message
image_message_of u content mime_type opts ctx = record empty_message {
  image_message = some (record {
    file = uploaded_file u content mime_type;
    caption = some opts.caption;
    height = none;
    width = none;
    jpeg_thumbnail = [];
    context_info = ctx;
    view_once = some opts.view_once;
  });
}

-- The event of an image without anything else.
image_event :
    WaTypes
    → Texts
    → Codec
    → Jid
    → UploadResponse
    → Bytes
    → String
    → MediaSendOptions
    → MessageEvent
    → ProjectorContext
    → MessageEvent
image_event wt t c chat u content mime_type opts result pctx =
    set_media
      (record (media_info t c (uploaded_file u content mime_type) "" "image") {
        caption = opts.caption;
      })
      (set_view_once (some opts.view_once)
        (project_context_info wt (build_context_info wt chat opts.send_options) result pctx))

-- The file of an upload, as a download needs it: field by field what the client answered to the upload,
-- and the length of the content.
abbrev pub uploaded_image : Texts → UploadResponse → Bytes → String → MediaDownloadInfo
uploaded_image t u content mime_type = record {
  url = t.bytes_of u.url;
  direct_path = t.bytes_of u.direct_path;
  media_key = u.media_key;
  file_sha256 = u.file_sha256;
  file_enc_sha256 = u.file_enc_sha256;
  mime_type = t.bytes_of mime_type;
  file_name = t.bytes_of "";
  media_type = t.bytes_of "image";
  file_length = length content;
}

-- An image whose upload succeeds: the client is asked to upload it and then to send one message to the
-- recipient. `ProjectMessage` reports that message, for any sender, chat and ID that it takes, as an
-- event with the caption and the mark of an image that is viewed once, and with a media ID that decodes
-- to the URL, the path, the key and the two hashes that the client answered to the upload, with the
-- MIME type and the length of the image: if gzip compresses them, their lengths have room in the
-- format, and the codec reads back what it wrote as ASCII text.
pub sent_image_is_downloadable :
    (wt : WaTypes) (t : Texts) (c : Codec) (rfc3339 : ℕ → String) (client : Client) (to : String)
    (content : Bytes) (mime_type : String) (opts : MediaSendOptions) (info : MessageInfo)
    (pctx : ProjectorContext) (u : UploadResponse) (z : Bytes)
    → IsCodec c
    → IsAscii t c
    → (info.category == "peer" || info.id == "") ≡ false
    → client.upload content media_image ≡ ok u
    → let file = uploaded_image t u content mime_type in
      IsEncodable file
      → length content < 2 ^ 64
      → c.gzip (write_body file) ≡ some z
      → (msg : Message) × (evt : MessageEvent) × (media : MediaInfo) × ((send_image wt client to
            content mime_type opts).calls
          ≡ uploaded content media_image ∷ sent (format_recipient wt to) msg ∷ [])
        × (project_message wt t c rfc3339 (record { info = info; content = some msg }) pctx
            ≡ project type_message (message evt))
        × (evt.media ≡ some media)
        × (evt.view_once ≡ opts.view_once)
        × (media.caption ≡ opts.caption)
        × (decode_media_id c (t.bytes_of media.id) ≡ ok file)
unfolding send_image send project_message project_content project_image_message image_event
    media_info image_message_of base_event uploaded_file download_info
sent_image_is_downloadable wt t c rfc3339 client to content mime_type opts info pctx u z laws ascii
      taken works room fits zipped =
    let file = uploaded_file u content mime_type in
    let ctx = build_context_info wt (format_recipient wt to) opts.send_options in
    let result = base_event wt t c rfc3339 info pctx in
    (
      image_message_of u content mime_type opts ctx,
      image_event wt t c (format_recipient wt to) u content mime_type opts
          (base_event wt t c rfc3339 info pctx) pctx,
      record (media_info t c file "" "image") { caption = opts.caption },
      calls-upload_then client content media_image u _ works,
      rw taken (publish_content-media _ _ refl),
      refl,
      ground (arith, view_once-project_context_info wt ctx result pctx),
      refl,
      media_id_decodes t c laws ascii file "" "image" z room fits zipped,
    )
