-- ===== src/Handler/Messages.antt =====
-- internal/handler/message.go: the handlers of the routes under /messages.
use wsapi_app.Common.{String, ◌==◌, Option, none, some, List, [], if◌then◌else◌, Result, ok, err}
use wsapi_app.Whatsmeow.{WaTypes}
use wsapi_app.Event.Types.{Time, is_zero}
use wsapi_app.Event.MediaId.Reader.{Bytes}
use wsapi_app.Server.Status.{Sentinel, service_status}
use wsapi_app.Messaging.{Client}
use wsapi_app.Messaging.Send.{
  send_text, send_link, send_image, send_video, send_audio, send_voice, send_document, send_sticker,
  send_contact, send_reaction, send_location,
}
use wsapi_app.Messaging.Actions.{
  edit_message, delete_message, delete_message_for_self, mark_as_read, pin_message, star_message,
}
use wsapi_app.Handler.{created, ok_id, no_content, Handled, refuse, decode, respond}
use wsapi_app.Handler.MediaUrl.{HttpResponse, download_media_from_url}
use wsapi_app.Handler.Requests.{
  MediaData, SendTextRequest, SendMediaRequest, SendDocumentRequest, SendStickerRequest,
  SendContactRequest, SendLocationRequest, SendLinkRequest, SendReactionRequest, EditMessageRequest,
  MarkAsReadRequest, StarMessageRequest, DeleteMessageRequest, DeleteMessageForMeRequest,
  PinMessageRequest, to_send_options, to_media_send_options, edit_send_options, Rules, valid_text,
  valid_media_request, valid_document, valid_sticker, valid_contact, valid_location, valid_link,
  valid_reaction, valid_edit, valid_read, valid_star, valid_delete, valid_delete_for_me, valid_pin,
  resolve_data,
}

-- The routes, with the JSON of the body, if it is such, and the message ID of the path.
pub data MessageRequest : Type 0 where
  text : Option SendTextRequest → MessageRequest
  image video audio voice : Option SendMediaRequest → MessageRequest
  document : Option SendDocumentRequest → MessageRequest
  sticker : Option SendStickerRequest → MessageRequest
  contact : Option SendContactRequest → MessageRequest
  location : Option SendLocationRequest → MessageRequest
  link : Option SendLinkRequest → MessageRequest
  reaction : String → Option SendReactionRequest → MessageRequest
  edit : String → Option EditMessageRequest → MessageRequest
  read : String → Option MarkAsReadRequest → MessageRequest
  star : String → Option StarMessageRequest → MessageRequest
  pin : String → Option PinMessageRequest → MessageRequest
  delete : String → Option DeleteMessageRequest → MessageRequest
  delete_for_me : String → Option DeleteMessageForMeRequest → MessageRequest

-- What the handlers depend on, besides the client. The clock is in nanoseconds.
pub record World : Type 0 where
  pub rules : Rules
  pub decode_string : String → Option Bytes
  pub get : String → Result (List Sentinel) HttpResponse
  pub client_sentinels : String → List Sentinel
  pub now : Time

module _ (wt : WaTypes) (client : Client) (w : World) where
  -- The data of a media request, or its error.
  unfoldable pub with_data : MediaData → (Bytes → Handled) → Handled
  with_data m next = elim (resolve_data w.decode_string (download_media_from_url w.get) m) [
    | err e ↦ refuse (service_status e)
    | ok content ↦ next content
  ]

  -- `SendLink`, whose thumbnail is decoded first.
  unfoldable pub handle_link : SendLinkRequest → Handled
  handle_link req =
      let finish : Bytes → Handled = λ thumbnail. respond w.client_sentinels created (
        send_link wt client req.to req.text req.url req.title req.description thumbnail
          (to_send_options req.options)) in
      if req.jpeg_thumbnail == "" then finish [] else elim (w.decode_string req.jpeg_thumbnail) [
        | none ↦ refuse 400
        | some thumbnail ↦ finish thumbnail
      ]

  unfoldable pub handle : MessageRequest → Handled
  handle (text body) = decode body (valid_text w.rules) λ req.
      respond w.client_sentinels created
        (send_text wt client req.to req.text (to_send_options req.options))
  handle (image body) = decode body (valid_media_request w.rules) λ req.
      with_data req.media λ content.
        respond w.client_sentinels created
          (send_image wt client req.to content req.mime_type (to_media_send_options req))
  handle (video body) = decode body (valid_media_request w.rules) λ req.
      with_data req.media λ content.
        respond w.client_sentinels created
          (send_video wt client req.to content req.mime_type (to_media_send_options req))
  handle (audio body) = decode body (valid_media_request w.rules) λ req.
      with_data req.media λ content.
        respond w.client_sentinels created
          (send_audio wt client req.to content req.mime_type (to_media_send_options req))
  handle (voice body) = decode body (valid_media_request w.rules) λ req.
      with_data req.media λ content.
        respond w.client_sentinels created
          (send_voice wt client req.to content (to_media_send_options req))
  handle (document body) = decode body (valid_document w.rules) λ req.
      with_data req.media_request.media λ content. respond w.client_sentinels created (
        send_document wt client req.media_request.to content req.filename
          (to_media_send_options req.media_request))
  handle (sticker body) = decode body (valid_sticker w.rules) λ req. with_data req.media λ content.
      respond w.client_sentinels created
        (send_sticker wt client req.to content req.is_animated (to_send_options req.options))
  handle (contact body) = decode body (valid_contact w.rules) λ req.
      respond w.client_sentinels created
        (send_contact wt client req.to req.display_name req.vcard (to_send_options req.options))
  handle (location body) = decode body (valid_location w.rules) λ req.
      respond w.client_sentinels created (
        send_location wt client req.to req.coordinates req.name req.address req.url
          req.ephemeral_expiration)
  handle (link body) = decode body (valid_link w.rules) handle_link
  handle (reaction message_id body) = decode body valid_reaction λ req.
      respond w.client_sentinels ok_id
        (send_reaction wt client req.to req.sender_id message_id req.reaction)
  handle (edit message_id body) = decode body valid_edit λ req.
      respond w.client_sentinels ok_id
        (edit_message wt client w.now req.to message_id req.text (edit_send_options req))
  handle (read message_id body) = decode body valid_read λ req.
      respond w.client_sentinels (λ _. no_content)
        (mark_as_read wt client w.now req.chat_id req.sender_id message_id req.receipt_type)
  handle (star message_id body) = decode body valid_star λ req.
      respond w.client_sentinels (λ _. no_content)
        (star_message wt client req.chat_id req.sender_id message_id req.starred)
  handle (pin message_id body) = decode body valid_pin λ req.
      respond w.client_sentinels (λ _. no_content)
        (pin_message wt client w.now req.chat_id req.sender_id message_id req.pinned
          req.pin_expiration)
  handle (delete message_id body) = decode body valid_delete λ req.
      respond w.client_sentinels (λ _. no_content)
        (delete_message wt client req.chat_id req.sender_id message_id)
  handle (delete_for_me message_id body) = decode body valid_delete_for_me λ req.
      respond w.client_sentinels (λ _. no_content)
        (delete_message_for_self wt client req.chat_id req.sender_id req.is_from_me message_id
          (if is_zero req.timestamp then w.now else req.timestamp))
