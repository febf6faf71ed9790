-- ===== src/Projector/Messages.antt =====
-- internal/event/projector_message.go: `ProjectMessage`. The event under construction is passed from
-- one sub-projector to the next.
pub mod Media
pub mod Context
pub mod Kinds
pub mod Outcome
pub mod Samples
mod Tests
pub mod Typed
use Media.{
  Texts, project_image_message, project_video_message, project_audio_message,
  project_document_message, project_sticker_message,
}
use Kinds.{
  project_reaction_message, project_contact_message, project_contact_array_message,
  project_extended_text_message, project_edit_message, project_pin_in_chat_message,
}
use wsapi_app.Common.{
  ℕ, Bool, true, false, not, ◌||◌, String, ◌==◌, Option, none, some, List, [], ◌∷◌, if◌then◌else◌,
}
use wsapi_app.Whatsmeow.{Jid, jid_eq, WaTypes}
use wsapi_app.Whatsmeow.Proto.{
  get_text, get_number, Message, ProtocolMessage, ProtocolType, message_edit, revoke,
  ephemeral_setting, other_protocol,
}
use wsapi_app.Event.MediaId.{Codec}
use wsapi_app.Event.Types.{Time, MessageEvent, message, message_delete, chat_setting}
use wsapi_app.Event.Constants.{type_message, type_message_delete, type_chat_setting}
use wsapi_app.Projector.{
  ProjectorContext, Projection, discard, project, panics, ephemeral_expiration_string,
  project_chat_id, resolve_sender,
}

-- `types.MessageInfo`
pub record MessageInfo : Type 0 where
  pub id : String
  pub type : String
  pub category : String
  pub chat : Jid
  pub sender : Jid
  pub sender_alt : Jid
  pub is_from_me : Bool
  pub is_group : Bool
  pub timestamp : Time

-- `events.Message`
pub record WaMessage : Type 0 where
  pub info : MessageInfo
  pub content : Option Message

abbrev is_some : {A : Type 0} → Option A → Bool
is_some none = false
is_some (some a) = true

-- `hasContent`
unfoldable pub has_content : MessageEvent → Bool
has_content m =
    not (m.text == "")
    || (is_some m.media
        || (is_some m.reaction
            || (not (m.contact == "")
                || (elim m.contact_array [ [] ↦ false | _ ∷ _ ↦ true ]
                    || (is_some m.extended_text || (is_some m.pin || is_some m.edit))))))

-- The end of `ProjectMessage`.
unfoldable pub publish_content : MessageEvent → Projection
publish_content result =
    if has_content result then project type_message (message result) else discard

-- `if x := m.GetX(); x != nil { … } else …`
abbrev pub first : {A : Type 0} → Option A → (A → Projection) → Projection → Projection
first none then_ rest = rest
first (some a) then_ rest = then_ a

module _ (wt : WaTypes) (t : Texts) (c : Codec) (rfc3339 : ℕ → String) where
  -- The event before the content is looked at.
  unfoldable pub base_event : MessageInfo → ProjectorContext → MessageEvent
  base_event info pctx = record {
    id = info.id;
    chat_id = project_chat_id wt info.chat pctx.lids;
    sender = resolve_sender wt info.sender info.is_from_me info.sender_alt pctx;
    is_group = info.is_group;
    time = info.timestamp;
    type = if not (info.type == "") then info.type else "unknown";
    text = "";
    media = none;
    reaction = none;
    reply_to = none;
    ad_referral = none;
    contact = "";
    contact_array = [];
    extended_text = none;
    pin = none;
    edit = none;
    mentions = [];
    is_edit = false;
    is_forwarded = false;
    view_once = false;
    is_status = jid_eq info.chat wt.status_broadcast_jid;
    ephemeral_expiration = "";
  }

  -- `projectMessageDeleteForAll` for the key of the protocol message.
  unfoldable pub project_message_delete_for_all :
      MessageInfo → ProtocolMessage → ProjectorContext → Projection
  project_message_delete_for_all info p pctx = elim p.key [
    | none ↦ panics
    | some key ↦ elim key.id [
      | none ↦ panics
      | some id ↦ project type_message_delete (
          message_delete (record {
            id = id;
            chat_id = project_chat_id wt info.chat pctx.lids;
            sender = resolve_sender wt info.sender info.is_from_me info.sender_alt pctx;
            time = info.timestamp;
            is_deleted_for_all = true;
            is_deleted_for_me = false;
            is_status = jid_eq info.chat wt.status_broadcast_jid;
          }))
    ]
  ]

  -- `projectMessageEphemeralSetting`
  unfoldable pub project_message_ephemeral_setting :
      MessageInfo → ProtocolMessage → ProjectorContext → Projection
  project_message_ephemeral_setting info p pctx = project type_chat_setting (
      chat_setting (record {
        id = project_chat_id wt info.chat pctx.lids;
        setting_type = "ephemeral";
        mute = none;
        pin = none;
        archive = none;
        read = none;
        ephemeral = some (record {
          expiration = ephemeral_expiration_string (get_number p.ephemeral_expiration);
          sender = resolve_sender wt info.sender info.is_from_me info.sender_alt pctx;
        });
      }))

  -- The branch of a protocol message; a type that is nil or not named leaves the event as it is.
  unfoldable pub project_protocol_message :
      MessageInfo → ProtocolMessage → MessageEvent → ProjectorContext → Projection
  project_protocol_message info p result pctx = elim p.type [
    | none ↦ publish_content result
    | some kind ↦ elim kind [
      | message_edit ↦ publish_content (project_edit_message rfc3339 p result)
      | revoke ↦ project_message_delete_for_all info p pctx
      | ephemeral_setting ↦ project_message_ephemeral_setting info p pctx
      | other_protocol ↦ publish_content result
    ]
  ]

  -- The chain of branches over the content.
  unfoldable pub project_content :
      MessageInfo → Message → MessageEvent → ProjectorContext → Projection
  project_content info m result pctx =
      if not (get_text m.conversation == "")
      then publish_content (record result { text = get_text m.conversation; type = "text" })
      else first m.image_message (λ x. publish_content (project_image_message wt t c x result pctx))
          (first m.video_message (λ x. publish_content (project_video_message wt t c x result pctx))
            (first m.audio_message
              (λ x. publish_content (project_audio_message wt t c x result pctx))
              (first m.document_message
                (λ x. publish_content (project_document_message wt t c x result pctx))
                (first m.sticker_message
                  (λ x. publish_content (project_sticker_message wt t c x result pctx))
                  (first m.reaction_message
                    (λ x. publish_content (project_reaction_message x result))
                    (first m.contact_message
                      (λ x. publish_content (project_contact_message x result))
                      (first m.contacts_array_message
                        (λ x. publish_content (project_contact_array_message x result))
                        (first m.extended_text_message
                          (λ x. publish_content (project_extended_text_message wt x result pctx))
                          (first m.pin_in_chat_message
                            (λ x.
                              publish_content
                                (project_pin_in_chat_message x m.message_context_info result))
                            (first m.protocol_message
                              (λ x. project_protocol_message info x result pctx)
                              (if m.sender_key_distribution
                                then discard
                                else publish_content result)))))))))))

  -- `ProjectMessage`
  unfoldable pub project_message : WaMessage → ProjectorContext → Projection
  project_message msg pctx =
      let info = msg.info in
      let result = base_event info pctx in
      if info.category == "peer" || info.id == "" then discard else elim msg.content [
        | none ↦ publish_content result
        | some m ↦ project_content info m result pctx
      ]
