-- ===== src/Handler.antt =====
-- internal/handler/handler.go: what the handlers of the API share. A handler yields the calls of the
-- WhatsApp client that it made, and its answer.
pub mod MediaDownload
pub mod MediaUrl
pub mod Requests
pub mod Messages
pub mod Routed
pub mod Failures
pub mod Business
pub mod ChatsSent
pub mod Chats
mod ChatTests
mod Tests
use wsapi_app.Common.{ℕ, Bool, String, Option, none, some, List, [], if◌then◌else◌, Result, ok, err}
use wsapi_app.Server.Status.{Sentinel, service_status}
use wsapi_app.Messaging.{
  Call, SendError, verb_v, verb_w, upload_failed, invalid_coordinates, sender_required,
  delete_conflict, delete_failed, star_not_built, nil_device, invalid_jid, client_error,
  star_failed, Outcome,
}

-- The answer: 201 and 200 with an ID, 204, an error with its status, and a panic.
pub data Answer : Type 0 where
  created ok_id : String → Answer
  no_content panicked : Answer
  failure : ℕ → Answer

pub record Handled : Type 0 where
  pub calls : List Call
  pub answer : Answer

abbrev pub refuse : ℕ → Handled
refuse status = record { calls = []; answer = failure status }

-- `Decode`, and what follows it; `none` is a body that is no such JSON.
unfoldable pub decode : {A : Type 0} → Option A → (A → Bool) → (A → Handled) → Handled
decode none is_valid next = refuse 400
decode (some req) is_valid next = if is_valid req then next req else refuse 400

-- The sentinels that an error of the services wraps, given those that the client's errors wrap. The
-- errors without an error of the client in them are made by `fmt.Errorf` without `%w`.
unfoldable pub sentinels : (String → List Sentinel) → SendError → List Sentinel
sentinels client_sentinels (client_error e) = client_sentinels e
sentinels client_sentinels (upload_failed verb_v e) = []
sentinels client_sentinels (upload_failed verb_w e) = client_sentinels e
sentinels client_sentinels invalid_coordinates = []
sentinels client_sentinels sender_required = []
sentinels client_sentinels delete_conflict = []
sentinels client_sentinels delete_failed = []
sentinels client_sentinels star_not_built = []
sentinels client_sentinels nil_device = []
sentinels client_sentinels (invalid_jid _) = []
sentinels client_sentinels (star_failed _) = []

-- `ServiceError`, and the panic of a device that is not paired.
unfoldable pub service_error : (String → List Sentinel) → SendError → Answer
service_error client_sentinels nil_device = panicked
service_error client_sentinels e = failure (service_status (sentinels client_sentinels e))

-- The end of a handler: the error, or what is answered with the ID.
unfoldable pub respond : (String → List Sentinel) → (String → Answer) → Outcome → Handled
respond client_sentinels success o = record {
  calls = o.calls;
  answer = elim o.result [ err e ↦ service_error client_sentinels e | ok id ↦ success id ];
}
