-- ===== src/Handler/Routed.antt =====
-- Whom the handlers of messages address.
use wsapi_app.Common.{
  ◌≡◌, refl, Bool, true, ◌&&◌, not, String, ◌==◌, Option, none, some, All, Bool-cases, Option-cases,
  inl, inr, ◌⊎◌, Result-cases, ok, arith,
}
use wsapi_app.Whatsmeow.{Jid, WaTypes}
use wsapi_app.Whatsmeow.Proto.{Message}
use wsapi_app.Event.MediaId.Reader.{Bytes}
use wsapi_app.Validate.{recipient}
use wsapi_app.Jid.{parse_jid, is_group, format_recipient}
use wsapi_app.Messaging.{
  Call, uploaded, sent, patched, marked_read, MediaType, UploadResponse, Client, Outcome, send,
  upload_then,
}
use wsapi_app.Messaging.Send.{
  send_text, send_link, send_image, send_video, send_audio, send_voice, send_document, send_sticker,
  send_contact, send_reaction, send_location, out_of_range,
}
use wsapi_app.Messaging.Actions.{
  with_chat, edit_message, delete_message, delete_message_for_self, mark_as_read, pin_message,
  star_message, send_deletion, send_star, build_star,
}
use wsapi_app.Handler.{Handled, decode, respond}
use wsapi_app.Handler.Requests.{
  MediaData, SendLocationRequest, SendLinkRequest, resolve_data, valid_text, valid_media_request,
  valid_document, valid_sticker, valid_contact, valid_location, valid_link, valid_reaction,
  valid_edit, valid_read, valid_star, valid_delete, valid_delete_for_me, valid_pin,
}
use wsapi_app.Handler.MediaUrl.{download_media_from_url}
use wsapi_app.Handler.Messages.{MessageRequest, World, with_data, handle_link, handle}

module _ (wt : WaTypes) where
  -- A JID that a valid recipient stands for.
  abbrev pub IsRouted : Jid → Type 0
  IsRouted jid =
      (s : String) × (recipient s ≡ true)
      × ((jid ≡ format_recipient wt s) ⊎ (parse_jid wt s ≡ ok jid))

  -- A message goes to such a JID; so do a receipt and the sender in it.
  abbrev pub IsAddressed : Call → Type 0
  IsAddressed (sent jid msg) = IsRouted jid
  IsAddressed (marked_read ids now chat sender kind) = IsRouted chat × IsRouted sender
  IsAddressed (uploaded content kind) = Unit
  IsAddressed (patched patch) = Unit

  decode-IsAddressed :
      {A : Type 0} (body : Option A) (is_valid : A → Bool) (next : A → Handled)
      → ((req : A) → is_valid req ≡ true → All IsAddressed (next req).calls)
      → All IsAddressed (decode body is_valid next).calls
  unfolding decode
  decode-IsAddressed none is_valid next h = tt
  decode-IsAddressed (some req) is_valid next h = elim (Bool-cases (is_valid req)) [
    | inl e ↦ rw e (h req e)
    | inr e ↦ rw e tt
  ]

  with_data-IsAddressed :
      (client : Client) (w : World) (m : MediaData) (next : Bytes → Handled)
      → ((content : Bytes) → All IsAddressed (next content).calls)
      → All IsAddressed (with_data wt client w m next).calls
  unfolding with_data
  with_data-IsAddressed client w m next h =
      elim (Result-cases (resolve_data w.decode_string (download_media_from_url w.get) m)) [
        | inl (e, failed) ↦ rw (failed, with_data) tt
        | inr (content, found) ↦ rw (found, with_data) (h content)
      ]

  send-IsAddressed :
      (client : Client) (jid : Jid) (msg : Message)
      → IsRouted jid
      → All IsAddressed (send client jid msg).calls
  unfolding send
  send-IsAddressed client jid msg h = (h, tt)

  upload_then-IsAddressed :
      (client : Client) (content : Bytes) (kind : MediaType) (next : UploadResponse → Outcome)
      → ((u : UploadResponse) → All IsAddressed (next u).calls)
      → All IsAddressed (upload_then client content kind next).calls
  unfolding upload_then
  upload_then-IsAddressed client content kind next h =
      elim (Result-cases (client.upload content kind)) [
        | inl (_, e) ↦ rw (e, upload_then) (tt, tt)
        | inr (u, e) ↦ rw (e, upload_then) (tt, h u)
      ]

  with_chat-IsAddressed :
      (chat_id : String) (next : Jid → Outcome)
      → recipient chat_id ≡ true
      → ((jid : Jid) → IsRouted jid → All IsAddressed (next jid).calls)
      → All IsAddressed (with_chat wt chat_id next).calls
  unfolding with_chat
  with_chat-IsAddressed chat_id next valid h = elim (Result-cases (parse_jid wt chat_id)) [
    | inl (e, failed) ↦ rw (failed, with_chat) tt
    | inr (jid, parsed) ↦ rw (parsed, with_chat) (h jid (chat_id, valid, inr parsed))
  ]

  formatted-IsRouted : (s : String) → recipient s ≡ true → IsRouted (format_recipient wt s)
  formatted-IsRouted s valid = (s, valid, inl refl)

module _ (wt : WaTypes) (client : Client) (w : World) where
  addressed :
      (s : String) (msg : Message)
      → recipient s ≡ true
      → All (IsAddressed wt) (send client (format_recipient wt s) msg).calls
  addressed s msg valid =
      send-IsAddressed wt client (format_recipient wt s) msg (formatted-IsRouted wt s valid)

  location-IsAddressed :
      (req : SendLocationRequest)
      → recipient req.to ≡ true
      → All
          (IsAddressed wt)
          (send_location wt client req.to req.coordinates req.name req.address req.url
            req.ephemeral_expiration).calls
  unfolding send_location
  location-IsAddressed req valid = elim (Bool-cases (out_of_range wt client req.coordinates)) [
    | inl e ↦ rw (e, send_location) tt
    | inr e ↦ rw (e, send_location) (addressed req.to _ valid)
  ]

  link-IsAddressed :
      (req : SendLinkRequest)
      → recipient req.to ≡ true
      → All (IsAddressed wt) (handle_link wt client w req).calls
  unfolding handle_link send_link respond
  link-IsAddressed req valid = elim (Bool-cases (req.jpeg_thumbnail == "")) [
    | inl e ↦ rw (e, handle_link) (addressed req.to _ valid)
    | inr e ↦ elim (Option-cases (w.decode_string req.jpeg_thumbnail)) [
      | inl d ↦ rw (e, handle_link, d) tt
      | inr (thumbnail, d) ↦ rw (e, handle_link, d) (addressed req.to _ valid)
    ]
  ]

  -- Whatever request arrives, and whatever the client and the network answer: a message, a pin, an edit
  -- or a deletion for all goes only to a JID that a recipient stands for which passes the
  -- validation, and so do the chat and the sender of a receipt.
  pub handled_is_addressed :
      (r : MessageRequest) → All (IsAddressed wt) (handle wt client w r).calls
  unfolding handle send_text send_image send_video send_audio send_voice send_document send_sticker
      send_contact send_location send_link send_reaction edit_message mark_as_read star_message
      pin_message delete_message delete_message_for_self send_deletion send_star handle_link
      valid_text valid_media_request valid_document valid_sticker valid_contact valid_location
      valid_link valid_reaction valid_edit valid_read valid_star valid_delete valid_delete_for_me
      valid_pin respond build_star
  handled_is_addressed (MessageRequest.text body) =
      decode-IsAddressed wt body _ _ λ req valid. addressed req.to _ (ground arith)
  handled_is_addressed (MessageRequest.image body) = decode-IsAddressed wt body _ _ λ req valid.
      with_data-IsAddressed wt client w _ _ λ content.
        upload_then-IsAddressed wt client content _ _ λ u. addressed req.to _ (ground arith)
  handled_is_addressed (MessageRequest.video body) = decode-IsAddressed wt body _ _ λ req valid.
      with_data-IsAddressed wt client w _ _ λ content.
        upload_then-IsAddressed wt client content _ _ λ u. addressed req.to _ (ground arith)
  handled_is_addressed (MessageRequest.audio body) = decode-IsAddressed wt body _ _ λ req valid.
      with_data-IsAddressed wt client w _ _ λ content.
        upload_then-IsAddressed wt client content _ _ λ u. addressed req.to _ (ground arith)
  handled_is_addressed (MessageRequest.voice body) = decode-IsAddressed wt body _ _ λ req valid.
      with_data-IsAddressed wt client w _ _ λ content.
        upload_then-IsAddressed wt client content _ _ λ u. addressed req.to _ (ground arith)
  handled_is_addressed (MessageRequest.document body) = decode-IsAddressed wt body _ _ λ req valid.
      with_data-IsAddressed wt client w _ _ λ content.
        upload_then-IsAddressed wt client content _ _
          λ u. addressed req.media_request.to _ (ground arith)
  handled_is_addressed (MessageRequest.sticker body) = decode-IsAddressed wt body _ _ λ req valid.
      with_data-IsAddressed wt client w _ _ λ content.
        upload_then-IsAddressed wt client content _ _ λ u. addressed req.to _ (ground arith)
  handled_is_addressed (MessageRequest.contact body) =
      decode-IsAddressed wt body _ _ λ req valid. addressed req.to _ (ground arith)
  handled_is_addressed (MessageRequest.location body) =
      decode-IsAddressed wt body _ _ λ req valid. location-IsAddressed req (ground arith)
  handled_is_addressed (MessageRequest.link body) =
      decode-IsAddressed wt body _ _ λ req valid. link-IsAddressed req (ground arith)
  handled_is_addressed (MessageRequest.reaction message_id body) =
      decode-IsAddressed wt body _ _ λ req valid. addressed req.to _ (ground arith)
  handled_is_addressed (MessageRequest.edit message_id body) =
      decode-IsAddressed wt body _ _ λ req valid. addressed req.to _ (ground arith)
  handled_is_addressed (MessageRequest.read message_id body) =
      decode-IsAddressed wt body _ _ λ req valid.
        with_chat-IsAddressed wt req.chat_id _ (ground arith)
          λ jid routed. ((routed, formatted-IsRouted wt req.sender_id (ground arith)), tt)
  handled_is_addressed (MessageRequest.star message_id body) =
      decode-IsAddressed wt body _ _ λ req valid.
        with_chat-IsAddressed wt req.chat_id _ (ground arith) λ jid routed.
          elim (Option-cases client.own_user) [ inl e ↦ rw e tt | inr (me, e) ↦ rw e (tt, tt) ]
  handled_is_addressed (MessageRequest.pin message_id body) =
      decode-IsAddressed wt body _ _ λ req valid.
        with_chat-IsAddressed wt req.chat_id _ (ground arith)
          λ jid routed. send-IsAddressed wt client jid _ routed
  handled_is_addressed (MessageRequest.delete message_id body) =
      decode-IsAddressed wt body _ _ λ req valid.
        with_chat-IsAddressed wt req.chat_id _ (ground arith)
          λ jid routed. send-IsAddressed wt client jid _ routed
  handled_is_addressed (MessageRequest.delete_for_me message_id body) =
      decode-IsAddressed wt body _ _ λ req valid.
        with_chat-IsAddressed wt req.chat_id _ (ground arith) λ jid routed.
          elim (Bool-cases (is_group wt jid && not req.is_from_me)) [
            | inr e ↦ rw e (tt, tt)
            | inl e ↦ elim (Bool-cases (req.sender_id == "")) [
              | inl e' ↦ rw (e, e') tt
              | inr e' ↦ rw (e, e') (tt, tt)
            ]
          ]
