-- ===== src/Messaging.antt =====
-- internal/whatsapp/message.go: the service that sends messages. Each operation yields the calls of the
-- WhatsApp client that it made, in order, and its result. The client is a parameter.
pub mod Send
pub mod Actions
pub mod Received
pub mod ReceivedMedia
pub mod ReceivedActions
pub mod Samples
mod Tests
use wsapi_app.Common.{
  ℕ, ◌*◌, Bool, true, false, not, ◌&&◌, String, ◌==◌, Option, none, some, List, [], ◌∷◌, ltb,
  if◌then◌else◌, Result, ok, err,
}
use wsapi_app.Whatsmeow.{Jid, WaTypes}
use wsapi_app.Whatsmeow.Proto.{ContextInfo, Message, MessageKey, QuotedMessage, empty_context}
use wsapi_app.Event.MediaId.Reader.{Bytes}
use wsapi_app.Jid.{JidError, format_recipient}

-- `SendOptions`
pub record SendOptions : Type 0 where
  pub mentions : List String
  pub reply_to : String
  pub reply_to_sender_id : String
  pub is_forwarded : Bool
  pub ephemeral_expiration : String

-- `MediaSendOptions`
pub record MediaSendOptions : Type 0 where
  pub send_options : SendOptions
  pub caption : String
  pub view_once : Bool

-- `whatsmeow.MediaType` and `whatsmeow.UploadResponse`
pub data MediaType : Type 0 where
  media_image media_video media_audio media_document : MediaType

pub record UploadResponse : Type 0 where
  pub url : String
  pub direct_path : String
  pub media_key : Bytes
  pub file_enc_sha256 : Bytes
  pub file_sha256 : Bytes

-- The constants of `waTypes.ReceiptType` that the code names, and its zero value.
pub data ReceiptKind : Type 0 where
  delivered sender read played zero_receipt : ReceiptKind

-- `appstate.MutationInfo` with the two actions that are built, and `appstate.PatchInfo` of the
-- collection `regular_high`.
pub data SyncAction : Type 0 where
  delete_message_for_me : Bool → ℕ → SyncAction
  star : Bool → SyncAction

pub record MutationInfo : Type 0 where
  pub index : List String
  pub version : ℕ
  pub value : SyncAction

pub record PatchInfo : Type 0 where
  pub mutations : List MutationInfo

-- The calls of the client.
pub data Call : Type 0 where
  uploaded : Bytes → MediaType → Call
  sent : Jid → Message → Call
  patched : PatchInfo → Call
  marked_read : List String → ℕ → Jid → Jid → ReceiptKind → Call

-- `*whatsmeow.Client`. `upload` and `send_message` have an error, or the response and its ID;
-- `none` is no error of the others. `own_user` is the user of the device, if it is
-- paired. The two index names, the MIME type of a file name and the order of floats are parameters
-- too.
pub record Client : Type 0 where
  pub upload : Bytes → MediaType → Result String UploadResponse
  pub send_message : Jid → Message → Result String String
  pub send_app_state : PatchInfo → Option String
  pub mark_read : List String → Jid → Jid → ReceiptKind → Option String
  pub build_reaction : Jid → Jid → String → String → Message
  pub build_revoke : Jid → Jid → String → Message
  pub build_message_key : Jid → Jid → String → MessageKey
  pub own_user : Option String
  pub index_delete_message_for_me : String
  pub index_star : String
  pub mime_of_file : String → String
  pub float_lt : String → String → Bool
  pub contains : String → String → Bool

-- How `fmt.Errorf` formats an error that it is given: `%v` only prints it, `%w` wraps it.
pub data Verb : Type 0 where
  verb_v verb_w : Verb

-- The errors of the operations; `nil_device` is the panic at a device that is not paired.
pub data SendError : Type 0 where
  upload_failed : Verb → String → SendError
  invalid_coordinates sender_required : SendError
  delete_conflict delete_failed star_not_built nil_device : SendError
  invalid_jid : JidError → SendError
  client_error star_failed : String → SendError

pub record Outcome : Type 0 where
  pub calls : List Call
  pub result : Result SendError String

abbrev pub fail : SendError → Outcome
fail e = record { calls = []; result = err e }

-- `parseEphemeralExpiration`
unfoldable pub parse_ephemeral_expiration : String → ℕ
parse_ephemeral_expiration expiration =
    if expiration == "24h"
    then 24 * 60 * 60
    else if expiration == "7d"
    then 7 * 24 * 60 * 60
    else if expiration == "90d"
    then 90 * 24 * 60 * 60
    else 0

-- The parts of the context and whether any of them is set.
abbrev pub Draft : Type 0
Draft = ContextInfo × Bool

unfoldable pub set_forwarded : SendOptions → Draft → Draft
set_forwarded opts (ctx, is_set) =
    if opts.is_forwarded then (record ctx { is_forwarded = some true }, true) else (ctx, is_set)

unfoldable pub set_expiration : SendOptions → Draft → Draft
set_expiration opts (ctx, is_set) =
    let seconds = parse_ephemeral_expiration opts.ephemeral_expiration in
    if not (opts.ephemeral_expiration == "")
      && (not (opts.ephemeral_expiration == "off") && ltb 0 seconds)
    then (record ctx { expiration = some seconds }, true)
    else (ctx, is_set)

module _ (wt : WaTypes) where
  -- The loop over the mentions.
  unfoldable pub mentioned : List String → List String
  mentioned [] = []
  mentioned (m ∷ ms) =
      let rest = mentioned ms in
      if m == "" then rest else wt.to_string (format_recipient wt m) ∷ rest

  unfoldable pub set_reply : Jid → SendOptions → Draft → Draft
  set_reply chat opts (ctx, is_set) =
      if not (opts.reply_to == "")
      then (
        record ctx {
          stanza_id = some opts.reply_to;
          participant = some (
              if not (opts.reply_to_sender_id == "")
              then opts.reply_to_sender_id
              else wt.to_string chat);
          quoted_message = some (record { conversation = ""; extended_text = "" });
        },
        true,
      )
      else (ctx, is_set)

  unfoldable pub set_mentions : SendOptions → Draft → Draft
  set_mentions opts (ctx, is_set) =
      let jids = mentioned opts.mentions in
      (record ctx { mentioned_jid = jids }, elim jids [ [] ↦ is_set | _ ∷ _ ↦ true ])

  -- `buildContextInfo`
  unfoldable pub build_context_info : Jid → SendOptions → Option ContextInfo
  build_context_info chat opts =
      let (ctx, is_set) =
        set_expiration opts
          (set_forwarded opts (set_mentions opts (set_reply chat opts (empty_context, false)))) in
      if is_set then some ctx else none

module _ (client : Client) where
  -- `m.client.SendMessage(ctx, chatJID, msg)`, and its result.
  unfoldable pub send : Jid → Message → Outcome
  send chat msg = record {
    calls = sent chat msg ∷ [];
    result = elim (client.send_message chat msg) [ err e ↦ err (client_error e) | ok id ↦ ok id ];
  }

  -- `uploadMedia`, and what follows it.
  unfoldable pub upload_then : Bytes → MediaType → (UploadResponse → Outcome) → Outcome
  upload_then content media_type next = elim (client.upload content media_type) [
    | err e ↦ record {
      calls = uploaded content media_type ∷ [];
      result = err (upload_failed verb_v e);
    }
    | ok response ↦
        let o = next response in
        record { calls = uploaded content media_type ∷ o.calls; result = o.result }
  ]
