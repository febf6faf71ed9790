-- ===== src/Messaging/ReceivedActions.antt =====
-- Edits and pins that the service sends, as the projector of the recipient reports them.
use wsapi_app.Common.{
  ◌*◌, ◌/◌, ◌^◌, ◌≤◌, ◌≡◌, ◌≢◌, refl, ap, ◌∙◌, Bool, true, false, ◌||◌, String, ◌==◌, Option, none,
  some, [], ◌∷◌, Bool-cases, inl, inr, eq_iff, eq_false, arith, if◌then◌else◌, ok,
}
use wsapi_app.Whatsmeow.{Jid, WaTypes}
use wsapi_app.Whatsmeow.Proto.{
  get_text, ContextInfo, MessageKey, Message, EditedMessage, message_edit, empty_message,
  pin_for_all, unpin_for_all, static,
}
use wsapi_app.Event.MediaId.{Codec}
use wsapi_app.Event.Types.{Time, MessageEvent, EditInfo, PinInfo, message}
use wsapi_app.Event.Constants.{type_message}
use wsapi_app.Jid.{parse_jid, format_recipient}
use wsapi_app.Projector.{ProjectorContext, project, unix_to_rfc3339}
use wsapi_app.Projector.Messages.{
  MessageInfo, base_event, has_content, publish_content, project_protocol_message, project_content,
  project_message,
}
use wsapi_app.Projector.Messages.Media.{Texts}
use wsapi_app.Projector.Messages.Kinds.{
  key_id, set_text, edited_text, edit_info, project_edit_message, pin_duration, is_pinned,
  project_pin_in_chat_message,
}
use wsapi_app.Messaging.{SendOptions, Client, sent, build_context_info, send}
use wsapi_app.Messaging.Send.{text_message}
use wsapi_app.Messaging.Actions.{edit_message, pin_expiration, pin_message, with_chat}
use wsapi_app.Messaging.Received.{set_text-filled, publish_content-text}

-- The pins that WhatsApp has; any other text is a pin without end.
abbrev pub pin_of : String → String
pin_of e = if e == "24h" || (e == "7d" || e == "30d") then e else "off"

pin_duration-pin_expiration : (e : String) → pin_duration (some (pin_expiration e)) ≡ pin_of e
unfolding pin_duration pin_expiration
pin_duration-pin_expiration e = elim (Bool-cases (e == "24h")) [
  | inl h ↦ let same = (eq_iff e "24h").0 h in rw same refl
  | inr h ↦ elim (Bool-cases (e == "7d")) [
    | inl h' ↦ let same = (eq_iff e "7d").0 h' in rw same refl
    | inr h' ↦ elim (Bool-cases (e == "30d")) [
      | inl k ↦ let same = (eq_iff e "30d").0 k in rw same refl
      | inr k ↦ rw (h, h', k) (ground arith)
    ]
  ]
]

pin_lem :
    (pinned : Bool) (message_id expiration : String) (key : MessageKey)
    → key.id ≡ some message_id
    → ◌≡◌ {A = PinInfo}
        (record {
          pinned = is_pinned (if pinned then pin_for_all else unpin_for_all);
          message_id = get_text key.id;
          expiration = pin_duration (some (if pinned then pin_expiration expiration else 0));
        })
        (record {
          pinned = pinned;
          message_id = message_id;
          expiration = if pinned then pin_of expiration else "off";
        })
unfolding is_pinned
pin_lem true message_id expiration key h = rw (h, pin_duration-pin_expiration expiration) refl
pin_lem false message_id expiration key h = rw h (unfold pin_duration in refl)

module _ (wt : WaTypes) (t : Texts) (c : Codec) (rfc3339 : Time → String) where
  pin_message_of : Client → Time → Jid → String → String → Bool → String → Message
  pin_message_of client now chat sender_id message_id pinned expiration = record empty_message {
    pin_in_chat_message = some (record {
      key = some (client.build_message_key chat (format_recipient wt sender_id) message_id);
      type = if pinned then pin_for_all else unpin_for_all;
      sender_timestamp_ms = some (now / 10 ^ 9);
    });
    message_context_info = some (record {
      add_on_duration_in_secs = some (if pinned then pin_expiration expiration else 0);
      add_on_expiry_type = some static;
    });
  }

  -- A pin or an unpin with a chat that parses is sent as one message to the chat, which `ProjectMessage`
  -- reports, for any sender, chat and ID that it takes, as the same action on the same message, with
  -- the duration that was asked for if it is one that WhatsApp has, and none for an unpin.
  pub sent_pin_is_received :
      (client : Client) (now : Time) (chat_id sender_id message_id : String) (pinned : Bool)
      (expiration : String) (chat : Jid) (info : MessageInfo) (pctx : ProjectorContext)
      → ((a b : Jid) (id : String) → (client.build_message_key a b id).id ≡ some id)
      → parse_jid wt chat_id ≡ ok chat
      → (info.category == "peer" || info.id == "") ≡ false
      → (msg : Message) × (evt : MessageEvent) × ((pin_message wt client now chat_id sender_id
            message_id pinned expiration).calls
          ≡ sent chat msg ∷ [])
        × (project_message wt t c rfc3339 (record { info = info; content = some msg }) pctx
            ≡ project type_message (message evt))
        × (evt.pin
            ≡ some (record {
              pinned = pinned;
              message_id = message_id;
              expiration = if pinned then pin_of expiration else "off";
            }))
  unfolding pin_message with_chat format_recipient pin_expiration send project_message
      project_content publish_content has_content project_pin_in_chat_message is_pinned base_event
      pin_message_of
  sent_pin_is_received client now chat_id sender_id message_id pinned expiration chat info pctx keys
        parsed taken =
      (
        pin_message_of client now chat sender_id message_id pinned expiration,
        record (base_event wt t c rfc3339 info pctx) {
          pin = some (record {
            pinned = pinned;
            message_id = message_id;
            expiration = if pinned then pin_of expiration else "off";
          });
          type = "pinInChat";
        },
        rw (parsed, pin_message, with_chat) refl,
        rw taken (
            ap
              (λ (pin : PinInfo). project type_message (
                message (record (base_event wt t c rfc3339 info pctx) {
                  pin = some pin;
                  type = "pinInChat";
                })))
              (pin_lem pinned message_id expiration
                (client.build_message_key chat (format_recipient wt sender_id) message_id)
                (keys chat (format_recipient wt sender_id) message_id))),
        refl,
      )

  edited : String → Option ContextInfo → Option EditedMessage
  edited text ctx = some (record {
    conversation = (text_message text ctx).conversation;
    extended_text = (text_message text ctx).extended_text_message;
  })

  edited_text-edited :
      (text : String) (ctx : Option ContextInfo)
      → text ≢ ""
      → edited_text (edited text ctx) ≡ some text
  unfolding edited_text edited text_message
  edited_text-edited text none h = rw (eq_false text "" h) refl
  edited_text-edited text (some ctx) h = refl

  edit_message_of : Time → String → String → String → Option ContextInfo → Message
  edit_message_of now to message_id text ctx = record empty_message {
    protocol_message = some (record {
      type = some message_edit;
      key = some (record { remote_jid = some to; from_me = some true; id = some message_id });
      edited_message = edited text ctx;
      timestamp_ms = some (now / 10 ^ 9);
      ephemeral_expiration = none;
    });
  }

  -- An edit with a text that is not empty is sent as one message to the recipient, which
  -- `ProjectMessage` reports, for any sender, chat and ID that it takes, as an edit of the same message
  -- with the new text. The time of the original message that the event shows is wrong: it is the
  -- instant whose milliseconds since 1970 are the seconds of the time `now` of the edit, and so at most
  -- a thousandth of that time.
  pub sent_edit_is_received :
      (client : Client) (now : Time) (to message_id text : String) (opts : SendOptions)
      (info : MessageInfo) (pctx : ProjectorContext)
      → text ≢ ""
      → (info.category == "peer" || info.id == "") ≡ false
      → (msg : Message) × (evt : MessageEvent) × ((edit_message wt client now to message_id text
            opts).calls
          ≡ sent (format_recipient wt to) msg ∷ [])
        × (project_message wt t c rfc3339 (record { info = info; content = some msg }) pctx
            ≡ project type_message (message evt))
        × (evt.is_edit ≡ true)
        × (evt.text ≡ text)
        × (evt.edit
            ≡ some (record {
              original_message_time = rfc3339 (now / 10 ^ 9 * 10 ^ 6);
              original_message_id = message_id;
            }))
        × (now / 10 ^ 9 * 10 ^ 6 * 1000 ≤ now)
  unfolding edit_message send edit_message_of edited project_message project_content
      project_protocol_message project_edit_message edit_info unix_to_rfc3339 key_id
  sent_edit_is_received client now to message_id text opts info pctx filled taken =
      let ctx = build_context_info wt (format_recipient wt to) opts in
      let base = base_event wt t c rfc3339 info pctx in
      let renewed : EditInfo = record {
        original_message_time = rfc3339 (now / 10 ^ 9 * 10 ^ 6);
        original_message_id = message_id;
      } in
      (
        edit_message_of now to message_id text ctx,
        record base {
          text = text;
          type = "text";
          is_edit = true;
          edit = some (record {
            original_message_time = rfc3339 (now / 10 ^ 9 * 10 ^ 6);
            original_message_id = message_id;
          });
        },
        refl,
        rw taken (
            ap
              (λ (r : MessageEvent).
                publish_content (record r { is_edit = true; edit = some renewed }))
              (ap (λ o. set_text o base) (edited_text-edited text ctx filled)
                ∙ set_text-filled text base filled)
            ∙ publish_content-text
                (record base { text = text; type = "text"; is_edit = true; edit = some renewed })
                filled),
        refl,
        refl,
        refl,
        omega arith,
      )
