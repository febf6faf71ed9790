-- ===== src/Handler/Tests.antt =====
-- Requests to a client that can upload nothing.
use wsapi_app.Common.{
  ◌≡◌, refl, true, false, some, List, [], ◌∷◌, All, length, ◌≤◌, String, ok, err, Result,
}
use wsapi_app.Whatsmeow.Samples.{sample_types}
use wsapi_app.Event.MediaId.Reader.{Bytes}
use wsapi_app.Validate.{recipient, is_jid_user, jid_user_rest, cut_at, trim_plus, has_at}
use wsapi_app.Server.Status.{Sentinel, err_message_timed_out}
use wsapi_app.Messaging.{Client, media_image}
use wsapi_app.Messaging.Samples.{client}
use wsapi_app.Handler.MediaUrl.{
  HttpResponse, download_media_from_url, accept, read_limited, max_download_size,
  downloaded_within_limit,
}
use wsapi_app.Handler.Requests.{
  SendMediaRequest, SendTextRequest, CommonSendOptions, valid_media_request, resolve_data,
}
use wsapi_app.Handler.Messages.{MessageRequest, World, handle}
use wsapi_app.Handler.Routed.{IsAddressed, handled_is_addressed}
use wsapi_app.Handler.Failures.{refused_upload, upload_failure_is_400}

abbrev no_uploads : Client
no_uploads = record client { upload = λ content kind. err "timed out" }

abbrev bytes : Bytes
bytes = 1 ∷ 2 ∷ 3 ∷ []

abbrev response : HttpResponse
response = record { content_length = 3; body = bytes; read_ok = true; status_code = 200 }

abbrev get_one : String → Result (List Sentinel) HttpResponse
get_one url = ok response

abbrev world : World
world = record {
  rules = record { is_url = λ s. true; in_range = λ c. true };
  decode_string = λ s. some (7 ∷ []);
  get = get_one;
  client_sentinels = λ e. [];
  now = 100;
}

-- The errors of the client are timeouts.
abbrev slow_world : World
slow_world = record world { client_sentinels = λ e. err_message_timed_out ∷ [] }

abbrev no_options : CommonSendOptions
no_options = record {
  mentions = [];
  reply_to = "";
  reply_to_sender_id = "";
  is_forwarded = false;
  ephemeral_expiration = "";
}

abbrev greeting : SendTextRequest
greeting = record { options = no_options; to = "234567@s.whatsapp.net"; text = "hi" }

handled_is_addressed_example :
    All
      (IsAddressed sample_types)
      (handle sample_types client world (MessageRequest.text (some greeting))).calls
handled_is_addressed_example =
    handled_is_addressed sample_types client world (MessageRequest.text (some greeting))

abbrev picture : SendMediaRequest
picture = record {
  options = no_options;
  media = record { content = "Bw=="; url = "" };
  to = "234567@s.whatsapp.net";
  mime_type = "image/png";
  caption = "";
  view_once = false;
}

upload_failure_is_400_example :
    handle sample_types no_uploads slow_world (MessageRequest.image (some picture))
    ≡ refused_upload (7 ∷ []) media_image
unfolding valid_media_request recipient is_jid_user jid_user_rest cut_at trim_plus has_at
    resolve_data
upload_failure_is_400_example =
    upload_failure_is_400 sample_types no_uploads slow_world (MessageRequest.image (some picture))
      (7 ∷ []) media_image "timed out" (refl, refl, refl) refl

downloaded_within_limit_example :
    (resp : HttpResponse) × (get_one "https://a" ≡ ok resp)
    × (bytes ≡ resp.body)
    × (resp.status_code ≡ 200)
    × (length bytes ≤ max_download_size)
    × (resp.content_length ≤ max_download_size)
unfolding download_media_from_url accept read_limited
downloaded_within_limit_example = downloaded_within_limit get_one "https://a" bytes refl
