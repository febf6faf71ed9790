-- ===== src/Event/Samples.antt =====
-- A text message with a given ID, an event that carries it, a picture and a codec, for tests.
use wsapi_app.Common.{
  ℕ, String, true, false, Option, none, some, [], ◌∷◌, refl, eqb, arith, if◌then◌else◌,
}
use wsapi_app.Event.Types.{Event, MessageEvent, message}
use wsapi_app.Event.MediaId.{MediaDownloadInfo, Codec, IsCodec}
use wsapi_app.Event.MediaId.Reader.{Bytes}

abbrev pub message_of : String → MessageEvent
message_of id = record {
  id = id;
  chat_id = "c";
  sender = record {
    identity = record { id = "s"; lid = ""; phone = "s"; device = 0 };
    is_me = false;
  };
  is_group = false;
  time = 100;
  type = "text";
  text = "hello";
  media = none;
  reaction = none;
  reply_to = none;
  ad_referral = none;
  contact = "";
  contact_array = [];
  extended_text = none;
  pin = none;
  edit = none;
  mentions = [];
  is_edit = false;
  is_forwarded = false;
  view_once = false;
  is_status = false;
  ephemeral_expiration = "";
}

abbrev pub message_event : String → Event
message_event id = record {
  event_id = "ev_2";
  instance_id = "a";
  event_type = "message";
  received_at = 100;
  event_data = message (message_of id);
}

-- Both encodings put one byte in front.
abbrev unmark : ℕ → Bytes → Option Bytes
unmark b [] = none
unmark b (c ∷ bs) = if eqb b c then some bs else none

abbrev pub codec : Codec
codec = record {
  gzip = λ b. some (31 ∷ b);
  gunzip_header = λ z. true;
  gunzip = unmark 31;
  base64_encode = λ b. 64 ∷ b;
  base64_decode = unmark 64;
}

pub codec-IsCodec : IsCodec codec
codec-IsCodec = record {
  gzip_header = λ b z h. refl;
  gzip_body = λ b z h. ground arith;
  base64 = λ b. refl;
}

abbrev pub picture : MediaDownloadInfo
picture = record {
  url = 104 ∷ 116 ∷ 116 ∷ 112 ∷ [];
  direct_path = 47 ∷ 120 ∷ [];
  media_key = 1 ∷ 2 ∷ 3 ∷ [];
  file_sha256 = [];
  file_enc_sha256 = 9 ∷ [];
  mime_type = 105 ∷ [];
  file_name = [];
  media_type = 105 ∷ 109 ∷ [];
  file_length = 70000;
}
