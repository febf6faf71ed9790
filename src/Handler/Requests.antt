-- ===== src/Handler/Requests.antt =====
-- internal/handler/message.go: the requests about messages, and their validation. The rules `url`,
-- `min` and `max` of the validator are parameters, and so are base64 and the download of a URL.
use wsapi_app.Common.{
  Bool, false, not, ◌&&◌, ◌||◌, String, ◌==◌, Option, none, some, List, [], ◌∷◌, contains,
  if◌then◌else◌, Result, ok, err,
}
use wsapi_app.Event.Types.{Time}
use wsapi_app.Event.MediaId.Reader.{Bytes}
use wsapi_app.Validate.{recipient}
use wsapi_app.Server.Status.{Sentinel}
use wsapi_app.Whatsmeow.Proto.{Coordinates}
use wsapi_app.Messaging.{SendOptions, MediaSendOptions}

pub record MediaData : Type 0 where
  pub content : String
  pub url : String

pub record CommonSendOptions : Type 0 where
  pub mentions : List String
  pub reply_to : String
  pub reply_to_sender_id : String
  pub is_forwarded : Bool
  pub ephemeral_expiration : String

-- `toSendOptions`
unfoldable pub to_send_options : CommonSendOptions → SendOptions
to_send_options o = record {
  mentions = o.mentions;
  reply_to = o.reply_to;
  reply_to_sender_id = o.reply_to_sender_id;
  is_forwarded = o.is_forwarded;
  ephemeral_expiration = o.ephemeral_expiration;
}

pub record SendTextRequest : Type 0 where
  pub options : CommonSendOptions
  pub to : String
  pub text : String

pub record SendMediaRequest : Type 0 where
  pub options : CommonSendOptions
  pub media : MediaData
  pub to : String
  pub mime_type : String
  pub caption : String
  pub view_once : Bool

-- `toMediaSendOptions`
unfoldable pub to_media_send_options : SendMediaRequest → MediaSendOptions
to_media_send_options r = record {
  send_options = to_send_options r.options;
  caption = r.caption;
  view_once = r.view_once;
}

pub record SendDocumentRequest : Type 0 where
  pub media_request : SendMediaRequest
  pub filename : String

pub record SendStickerRequest : Type 0 where
  pub options : CommonSendOptions
  pub media : MediaData
  pub to : String
  pub is_animated : Bool

pub record SendContactRequest : Type 0 where
  pub options : CommonSendOptions
  pub to : String
  pub display_name : String
  pub vcard : String

pub record SendLocationRequest : Type 0 where
  pub to : String
  pub coordinates : Coordinates
  pub name : String
  pub address : String
  pub url : String
  pub ephemeral_expiration : String

pub record SendLinkRequest : Type 0 where
  pub options : CommonSendOptions
  pub to : String
  pub text : String
  pub url : String
  pub title : String
  pub description : String
  pub jpeg_thumbnail : String

pub record SendReactionRequest : Type 0 where
  pub to : String
  pub sender_id : String
  pub reaction : String

pub record EditMessageRequest : Type 0 where
  pub to : String
  pub text : String
  pub mentions : List String
  pub ephemeral_expiration : String

-- `toSendOptions` of an edit
unfoldable pub edit_send_options : EditMessageRequest → SendOptions
edit_send_options r = record {
  mentions = r.mentions;
  reply_to = "";
  reply_to_sender_id = "";
  is_forwarded = false;
  ephemeral_expiration = r.ephemeral_expiration;
}

pub record MarkAsReadRequest : Type 0 where
  pub chat_id : String
  pub sender_id : String
  pub receipt_type : String

pub record StarMessageRequest : Type 0 where
  pub chat_id : String
  pub sender_id : String
  pub starred : Bool

pub record DeleteMessageRequest : Type 0 where
  pub chat_id : String
  pub sender_id : String

pub record DeleteMessageForMeRequest : Type 0 where
  pub chat_id : String
  pub sender_id : String
  pub is_from_me : Bool
  pub timestamp : Time

pub record PinMessageRequest : Type 0 where
  pub chat_id : String
  pub sender_id : String
  pub pinned : Bool
  pub pin_expiration : String

-- `required,recipient` and `omitempty,recipient`: the rule for recipients refuses the empty text.
abbrev pub optional_recipient : String → Bool
optional_recipient s = s == "" || recipient s

-- `omitempty,oneof=off 24h 7d 90d`
abbrev pub optional_expiration : String → Bool
optional_expiration s = s == "" || contains s ("off" ∷ "24h" ∷ "7d" ∷ "90d" ∷ [])

abbrev pub is_given : String → Bool
is_given s = not (s == "")

-- The rules of the validator.
pub record Rules : Type 0 where
  pub is_url : String → Bool
  pub in_range : Coordinates → Bool

module _ (rules : Rules) where
  abbrev pub valid_options : CommonSendOptions → Bool
  valid_options o =
      optional_recipient o.reply_to_sender_id && optional_expiration o.ephemeral_expiration

  abbrev pub valid_media : MediaData → Bool
  valid_media m = m.url == "" || rules.is_url m.url

  unfoldable pub valid_text : SendTextRequest → Bool
  valid_text r = recipient r.to && (is_given r.text && valid_options r.options)

  unfoldable pub valid_media_request : SendMediaRequest → Bool
  valid_media_request r = recipient r.to && (valid_options r.options && valid_media r.media)

  unfoldable pub valid_document : SendDocumentRequest → Bool
  valid_document r = valid_media_request r.media_request && is_given r.filename

  unfoldable pub valid_sticker : SendStickerRequest → Bool
  valid_sticker r = recipient r.to && (valid_options r.options && valid_media r.media)

  unfoldable pub valid_contact : SendContactRequest → Bool
  valid_contact r =
      recipient r.to && ((is_given r.display_name || is_given r.vcard) && valid_options r.options)

  unfoldable pub valid_location : SendLocationRequest → Bool
  valid_location r =
      recipient r.to && (rules.in_range r.coordinates && optional_expiration r.ephemeral_expiration)

  unfoldable pub valid_link : SendLinkRequest → Bool
  valid_link r =
      recipient r.to
      && (is_given r.text && (is_given r.url && (rules.is_url r.url && valid_options r.options)))

unfoldable pub valid_reaction : SendReactionRequest → Bool
valid_reaction r = recipient r.to && optional_recipient r.sender_id

unfoldable pub valid_edit : EditMessageRequest → Bool
valid_edit r = recipient r.to && (is_given r.text && optional_expiration r.ephemeral_expiration)

unfoldable pub valid_read : MarkAsReadRequest → Bool
valid_read r =
    recipient r.chat_id
    && (recipient r.sender_id
        && contains r.receipt_type ("delivered" ∷ "sender" ∷ "read" ∷ "played" ∷ []))

unfoldable pub valid_star : StarMessageRequest → Bool
valid_star r = recipient r.chat_id && recipient r.sender_id

unfoldable pub valid_delete : DeleteMessageRequest → Bool
valid_delete r = recipient r.chat_id && recipient r.sender_id

unfoldable pub valid_delete_for_me : DeleteMessageForMeRequest → Bool
valid_delete_for_me r = recipient r.chat_id && optional_recipient r.sender_id

unfoldable pub valid_pin : PinMessageRequest → Bool
valid_pin r = recipient r.chat_id && recipient r.sender_id

-- `resolveData`; `decode_string` is `base64.StdEncoding.DecodeString`.
unfoldable pub resolve_data :
    (String → Option Bytes)
    → (String → Result (List Sentinel) Bytes)
    → MediaData
    → Result (List Sentinel) Bytes
resolve_data decode_string download m =
    if is_given m.content && is_given m.url
    then err []
    else if is_given m.content
    then elim (decode_string m.content) [ none ↦ err [] | some bytes ↦ ok bytes ]
    else if is_given m.url
    then download m.url
    else err []
