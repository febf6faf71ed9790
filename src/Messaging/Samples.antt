-- ===== src/Messaging/Samples.antt =====
-- A client that is paired as 234567 and succeeds in everything, for tests.
use wsapi_app.Common.{false, none, some, [], ◌∷◌, ok}
use wsapi_app.Whatsmeow.Proto.{empty_message}
use wsapi_app.Messaging.{UploadResponse, Client}

abbrev pub response : UploadResponse
response = record {
  url = "u";
  direct_path = "d";
  media_key = 1 ∷ 2 ∷ [];
  file_enc_sha256 = 3 ∷ [];
  file_sha256 = 4 ∷ [];
}

abbrev pub client : Client
client = record {
  upload = λ content kind. ok response;
  send_message = λ chat msg. ok "M1";
  send_app_state = λ patch. none;
  mark_read = λ ids chat sender kind. none;
  build_reaction = λ chat sender id reaction. empty_message;
  build_revoke = λ chat sender id. empty_message;
  build_message_key = λ chat sender id. record { remote_jid = none; from_me = none; id = some id };
  own_user = some "234567";
  index_delete_message_for_me = "deleteMessageForMe";
  index_star = "star";
  mime_of_file = λ name. "";
  float_lt = λ x y. false;
  contains = λ s part. false;
}
