-- ===== src/Handler/Failures.antt =====
-- What the handlers answer when a file cannot be uploaded.
use wsapi_app.Common.{◌≡◌, refl, ◌∙◌, true, String, none, some, [], ◌∷◌, ok, err}
use wsapi_app.Whatsmeow.{WaTypes}
use wsapi_app.Event.MediaId.Reader.{Bytes}
use wsapi_app.Server.Status.{service_status, is, is_upstream_timeout}
use wsapi_app.Messaging.{
  media_image, media_video, media_audio, media_document, MediaType, uploaded, UploadResponse,
  Client, Outcome, upload_then,
}
use wsapi_app.Messaging.Send.{
  send_image, send_video, send_audio, send_voice, send_document, send_sticker,
}
use wsapi_app.Handler.{Handled, created, failure, decode, respond, service_error, sentinels}
use wsapi_app.Handler.MediaUrl.{download_media_from_url}
use wsapi_app.Handler.Requests.{
  MediaData, valid_media_request, valid_document, valid_sticker, resolve_data,
}
use wsapi_app.Handler.Messages.{
  MessageRequest, text, image, video, audio, voice, document, sticker, contact, location, link,
  reaction, edit, read, star, pin, delete, delete_for_me, World, with_data, handle,
}

-- The upload was tried, and the answer is 400.
abbrev pub refused_upload : Bytes → MediaType → Handled
refused_upload content kind = record { calls = uploaded content kind ∷ []; answer = failure 400 }

module _ (wt : WaTypes) (client : Client) (w : World) where
  failed_upload_lem :
      (content : Bytes) (kind : MediaType) (next : UploadResponse → Outcome) (e : String)
      → client.upload content kind ≡ err e
      → respond w.client_sentinels created (upload_then client content kind next)
        ≡ refused_upload content kind
  unfolding respond upload_then service_error sentinels service_status is is_upstream_timeout
  failed_upload_lem content kind next e failed = rw (failed, upload_then) refl

  with_data_lem :
      (m : MediaData) (content : Bytes) (next : Bytes → Handled)
      → resolve_data w.decode_string (download_media_from_url w.get) m ≡ ok content
      → with_data wt client w m next ≡ next content
  unfolding with_data
  with_data_lem m content next found = rw (found, with_data) refl

  refused_lem :
      (m : MediaData) (content : Bytes) (kind : MediaType) (next : Bytes → UploadResponse → Outcome)
      (e : String)
      → resolve_data w.decode_string (download_media_from_url w.get) m ≡ ok content
      → client.upload content kind ≡ err e
      → with_data wt client w m
          (λ bytes. respond w.client_sentinels created (upload_then client bytes kind (next bytes)))
        ≡ refused_upload content kind
  refused_lem m content kind next e found failed =
      with_data_lem m content _ found ∙ failed_upload_lem content kind (next content) e failed

  -- The data of a request is found.
  abbrev pub Found : MediaData → Bytes → Type 0
  Found m content = resolve_data w.decode_string (download_media_from_url w.get) m ≡ ok content

  -- A valid request to send a file of a kind, whose data is found.
  abbrev pub SendsFile : MessageRequest → Bytes → MediaType → Type 0
  SendsFile (image (some req)) content kind =
      (valid_media_request w.rules req ≡ true) × Found req.media content × (kind ≡ media_image)
  SendsFile (video (some req)) content kind =
      (valid_media_request w.rules req ≡ true) × Found req.media content × (kind ≡ media_video)
  SendsFile (audio (some req)) content kind =
      (valid_media_request w.rules req ≡ true) × Found req.media content × (kind ≡ media_audio)
  SendsFile (voice (some req)) content kind =
      (valid_media_request w.rules req ≡ true) × Found req.media content × (kind ≡ media_audio)
  SendsFile (document (some req)) content kind =
      (valid_document w.rules req ≡ true)
      × Found req.media_request.media content
      × (kind ≡ media_document)
  SendsFile (sticker (some req)) content kind =
      (valid_sticker w.rules req ≡ true) × Found req.media content × (kind ≡ media_image)
  SendsFile _ content kind = ⊥

  -- A valid request to send an image, a video, an audio or voice message, a document or a sticker, whose
  -- data is found, but which cannot be uploaded, is answered by 400 and sends no message, whatever the
  -- error of the client is and whichever sentinels, such as those of a timeout, it wraps.
  pub upload_failure_is_400 :
      (r : MessageRequest) (content : Bytes) (kind : MediaType) (e : String)
      → SendsFile r content kind
      → client.upload content kind ≡ err e
      → handle wt client w r ≡ refused_upload content kind
  unfolding handle decode send_image send_video send_audio send_voice send_document send_sticker
  upload_failure_is_400 (image (some req)) content kind e (v, f, k) failed =
      rw (v, k) (refused_lem req.media content media_image _ e f (rw k at failed))
  upload_failure_is_400 (video (some req)) content kind e (v, f, k) failed =
      rw (v, k) (refused_lem req.media content media_video _ e f (rw k at failed))
  upload_failure_is_400 (audio (some req)) content kind e (v, f, k) failed =
      rw (v, k) (refused_lem req.media content media_audio _ e f (rw k at failed))
  upload_failure_is_400 (voice (some req)) content kind e (v, f, k) failed =
      rw (v, k) (refused_lem req.media content media_audio _ e f (rw k at failed))
  upload_failure_is_400 (document (some req)) content kind e (v, f, k) failed =
      rw (v, k) (refused_lem req.media_request.media content media_document _ e f (rw k at failed))
  upload_failure_is_400 (sticker (some req)) content kind e (v, f, k) failed =
      rw (v, k) (refused_lem req.media content media_image _ e f (rw k at failed))
  upload_failure_is_400 (image none) content kind e h failed = absurd h
  upload_failure_is_400 (video none) content kind e h failed = absurd h
  upload_failure_is_400 (audio none) content kind e h failed = absurd h
  upload_failure_is_400 (voice none) content kind e h failed = absurd h
  upload_failure_is_400 (document none) content kind e h failed = absurd h
  upload_failure_is_400 (sticker none) content kind e h failed = absurd h
  upload_failure_is_400 (text body) content kind e h failed = absurd h
  upload_failure_is_400 (contact body) content kind e h failed = absurd h
  upload_failure_is_400 (location body) content kind e h failed = absurd h
  upload_failure_is_400 (link body) content kind e h failed = absurd h
  upload_failure_is_400 (reaction id body) content kind e h failed = absurd h
  upload_failure_is_400 (edit id body) content kind e h failed = absurd h
  upload_failure_is_400 (read id body) content kind e h failed = absurd h
  upload_failure_is_400 (star id body) content kind e h failed = absurd h
  upload_failure_is_400 (pin id body) content kind e h failed = absurd h
  upload_failure_is_400 (delete id body) content kind e h failed = absurd h
  upload_failure_is_400 (delete_for_me id body) content kind e h failed = absurd h
