-- ===== src/Lib.antt =====
-- wsapi-app: a REST service in front of WhatsApp. It keeps instances, each a WhatsApp account with
-- its own configuration, turns what the WhatsApp client reports into events, and publishes these to
-- a webhook or to Redis.
--
-- The parts, and the files that model them:
--   internal/instance/manager.go
--     Instance: the manager as a record with its map of pointers, the heap of instances that these
--     point into, the table of stored instances, and a log of the calls that leave it. `lookup` is
--     `visible`. Instance.Lifecycle has one function for each of CreateInstance,
--     UpdateInstanceConfig, RestartInstance, HandleLogout, buildInstance, initService and
--     rebuildInstanceService, Instance.Startup for RestoreInstances, EnsureSingleInstance and
--     Shutdown. Instance.Deletion has DeleteInstance, in the three parts between which the lock is
--     not held.
--     Instance.Concurrent has the steps of several goroutines: every other operation is one step
--     under the lock, a deletion is three, and any number of deletions may be under way.
--     Of the event handler, Instance.Tracking has the recording of chats and contacts,
--     Instance.InitialSync the cache of the messages of a history sync and the event that ends the
--     initial sync, Instance.Login the logins and logouts of the device, Instance.AppState the
--     recovery of the app state, and Instance.Pipeline the way of a projected event through filters
--     and deduplication.
--   internal/whatsapp/instancestore.go: Store.Instances (Text has the text functions that it uses).
--   internal/whatsapp/chatstore.go, contactstore.go: Store.Chats and Store.Contacts.
--   internal/whatsapp/historysyncstore.go, historysync.go: History.
--   internal/publisher: Publisher, with one constructor for each implementation of the interface.
--   internal/event/constants.go, types.go, dedup.go, media_id.go: Event.Constants, Event.Types (and
--     its children), Event.Dedup, Event.MediaId.
--   internal/identity/identity.go: Identity.
--   internal/validate/validate.go: Validate; internal/whatsapp/jid.go: Jid.
--   internal/logging/redact.go: Redact and Redact.Attributes.
--   internal/server/middleware, the routes of cmd/server/main.go, serviceStatus of
--     internal/handler/handler.go: Server and Server.Status.
--   internal/config/config.go: Config has the records and the defaults, Config.Env `applyEnv`,
--     Config.Load `Load` and `validate`, Config.Limits the size limit of downloads.
--   internal/whatsapp/media.go: Media; internal/handler/media.go: Handler.MediaDownload.
--   internal/event/projector*.go, resolve.go, utils.go: Projector has what all projectors share,
--     Projector.Calls, Chats, Groups, Receipts and Sessions a function for each projector,
--     Projector.Messages the projectors of messages (with the media in Media, the context of a
--     message in Context and the other kinds in Kinds), Projector.History that of history syncs, and
--     Projector.Dispatch the switch of `Project`.
--   internal/whatsapp/message.go: Messaging has the options, the client and buildContextInfo,
--     Messaging.Send the operations that send a new message, Messaging.Actions those on a message that
--     exists.
--   internal/whatsapp/chat.go: ChatService has the list of chats and their details,
--     ChatService.Actions the operations on a chat, ChatService.Business the business profile;
--     internal/handler/chat.go: Handler.Chats and Handler.Business.
--   internal/handler/handler.go, message.go, internal/whatsapp/mediaurl.go: Handler has the decoding of
--     requests and the answers, Handler.Requests the requests and their validation, Handler.Messages
--     the handlers, Handler.MediaUrl the download of a URL.
--
-- How they interact: Server finds instances through `get_instance` of Instance; the manager makes
-- publishers by `create` of Publisher, writes rows by Store.Instances, and its event handler uses
-- Event.Dedup. What Messaging sends is a `Message` of Whatsmeow.Proto, and so is what
-- Projector.Messages reports: Messaging.Received and its neighbours run the one after the other, and
-- the media ID of the report through Event.MediaId. Common has what all share: Go's maps as association
-- lists in Common.Dict, and results with an error in Common.Errors.
--
-- Conventions: a Go error is a constructor of the component's error type, or `none` where only its
-- presence counts. A time is a number of nanoseconds, and the clock an argument. A pointer into the
-- manager's heap is a number. Texts are native strings, except in Event.MediaId, where they are lists of
-- byte values, since lengths are counted there in bytes. Integer conversions to uint16 and byte are
-- written out as remainders. All functions are structurally recursive, so that there is no fuel.
--
-- Parameters, since their code is not in this repository: whatsmeow (Whatsmeow, `Client` of Messaging
-- and of ChatService.Actions, `DeviceStore` of ChatService, `Nodes` of ChatService.Business), the bytes of
-- a Go string (`Texts` of Projector.Messages.Media), gzip and base64 (`Codec` of Event.MediaId), the
-- rules of the validator and the decoding of requests (`World` of Handler.Messages), encoding/json,
-- the format of a time (`rfc3339`), HTTP, Redis and HMAC (`World` of Publisher, `JsonCodec` of
-- Redact.Attributes, `Flusher` of History), the file system and YAML (the arguments of `load`), and
-- the answers of the environment to one call of the manager (`Answers`).
-- The database is a table of rows whose statements succeed or fail as a whole.
--
-- Not modelled: the WhatsApp client and the other services of internal/whatsapp that only call it, the
-- HTTP handlers other than those of messages, chats and media, pairing, process startup, logging
-- setup and the migrations.
pub mod Common
pub mod Whatsmeow
pub mod Identity
pub mod Text
pub mod Config
pub mod Event
pub mod Publisher
pub mod Store
pub mod Instance
pub mod Validate
pub mod History
pub mod Server
pub mod Media
pub mod Messaging
pub mod ChatService
pub mod Handler
pub mod Projector
pub mod Redact
pub mod Jid
