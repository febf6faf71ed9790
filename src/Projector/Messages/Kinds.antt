-- ===== src/Projector/Messages/Kinds.antt =====
-- The sub-projectors of the other kinds of messages.
use wsapi_app.Common.{
  ℕ, Bool, true, false, not, ◌||◌, String, ◌==◌, Option, none, some, List, [], ◌∷◌, eqb, ◌*◌,
  if◌then◌else◌,
}
use wsapi_app.Whatsmeow.{WaTypes}
use wsapi_app.Whatsmeow.Proto.{
  get_text, MessageKey, ReactionMessage, ContactMessage, ExtendedTextMessage, PinType, unknown_pin,
  pin_for_all, unpin_for_all, PinInChatMessage, MessageContextInfo, EditedMessage, ProtocolMessage,
}
use wsapi_app.Event.Types.{Time, MessageEvent, ExtendedText, EditInfo}
use wsapi_app.Projector.{ProjectorContext, unix_to_rfc3339}
use wsapi_app.Projector.Messages.Context.{project_context_info}

-- `key.ID` of a key that may be nil.
unfoldable pub key_id : Option MessageKey → String
key_id none = ""
key_id (some key) = get_text key.id

-- `projectReactionMessage`
unfoldable pub project_reaction_message : ReactionMessage → MessageEvent → MessageEvent
project_reaction_message m result = record result {
  reaction = some (record { message_id = key_id m.key; emoji = get_text m.text });
  type = "reaction";
}

-- `projectContactMessage`
unfoldable pub project_contact_message : ContactMessage → MessageEvent → MessageEvent
project_contact_message m result = record result {
  contact = elim m.vcard [ none ↦ result.contact | some vcard ↦ vcard ];
  type = "contact";
}

-- The loop over the contacts.
unfoldable pub vcards : List ContactMessage → List String
vcards [] = []
vcards (m ∷ ms) = let rest = vcards ms in elim m.vcard [ none ↦ rest | some vcard ↦ vcard ∷ rest ]

-- `projectContactArrayMessage`
unfoldable pub project_contact_array_message : List ContactMessage → MessageEvent → MessageEvent
project_contact_array_message contacts result = record result {
  contact_array = vcards contacts;
  type = "contactArray";
}

-- A text takes the place of the event's, if it is not empty.
unfoldable pub set_text : Option String → MessageEvent → MessageEvent
set_text text result =
    if not (get_text text == "")
    then record result { text = get_text text; type = "text" }
    else result

-- `result.ExtendedText`
unfoldable pub extended_text_of : ExtendedTextMessage → Option ExtendedText
extended_text_of m =
    let has_thumbnail : Bool = elim m.jpeg_thumbnail [ [] ↦ false | _ ∷ _ ↦ true ] in
    if not (get_text m.description == "") || (not (get_text m.title == "") || has_thumbnail)
    then some (record {
      matched_text = get_text m.matched_text;
      description = get_text m.description;
      title = get_text m.title;
      jpeg_thumbnail = m.jpeg_thumbnail;
    })
    else none

-- `edit.OriginalMessageTime`
unfoldable pub edit_info : (Time → String) → ProtocolMessage → EditInfo
edit_info rfc3339 m = record {
  original_message_time = elim m.timestamp_ms [ none ↦ "" | some ms ↦ unix_to_rfc3339 rfc3339 ms ];
  original_message_id = key_id m.key;
}

-- The text of an edited message.
unfoldable pub edited_text : Option EditedMessage → Option String
edited_text none = none
edited_text (some m) =
    if not (get_text m.conversation == "")
    then m.conversation
    else elim m.extended_text [ none ↦ none | some ext ↦ ext.text ]

-- `projectEditMessage`
unfoldable pub project_edit_message :
    (Time → String) → ProtocolMessage → MessageEvent → MessageEvent
project_edit_message rfc3339 m result = record (set_text (edited_text m.edited_message) result) {
  is_edit = true;
  edit = some (edit_info rfc3339 m);
}

-- The switch over the duration of a pin.
unfoldable pub pin_duration : Option ℕ → String
pin_duration none = "off"
pin_duration (some seconds) =
    if eqb seconds (24 * 60 * 60)
    then "24h"
    else if eqb seconds (7 * 24 * 60 * 60)
    then "7d"
    else if eqb seconds (30 * 24 * 60 * 60)
    then "30d"
    else "off"

unfoldable pub is_pinned : PinType → Bool
is_pinned unknown_pin = false
is_pinned pin_for_all = true
is_pinned unpin_for_all = false

-- `projectPinInChatMessage`
unfoldable pub project_pin_in_chat_message :
    PinInChatMessage → Option MessageContextInfo → MessageEvent → MessageEvent
project_pin_in_chat_message m info result = elim m.key [
  | none ↦ result
  | some key ↦ record result {
    pin = some (record {
      pinned = is_pinned m.type;
      message_id = get_text key.id;
      expiration = elim info [ none ↦ "off" | some i ↦ pin_duration i.add_on_duration_in_secs ];
    });
    type = "pinInChat";
  }
]

module _ (wt : WaTypes) where
  -- `projectExtendedTextMessage`
  unfoldable pub project_extended_text_message :
      ExtendedTextMessage → MessageEvent → ProjectorContext → MessageEvent
  project_extended_text_message m result pctx =
      let result' = set_text m.text result in
      project_context_info wt m.context_info
        (record result' {
          extended_text = elim (extended_text_of m) [
            | none ↦ result'.extended_text
            | some ext ↦ some ext
          ];
        })
        pctx
