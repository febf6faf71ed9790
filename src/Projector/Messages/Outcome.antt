-- ===== src/Projector/Messages/Outcome.antt =====
-- What `ProjectMessage` can make of a message.
use wsapi_app.Common.{
  ℕ, ◌≡◌, refl, true, false, ◌||◌, String, ◌==◌, Option, none, some, if◌then◌else◌, Bool-cases,
  Option-cases, inl, inr,
}
use wsapi_app.Whatsmeow.{jid_eq, WaTypes}
use wsapi_app.Whatsmeow.Proto.{
  get_text, ContextInfo, Message, ProtocolMessage, message_edit, revoke, ephemeral_setting,
  other_protocol, PinInChatMessage, MessageContextInfo, ExtendedTextMessage,
}
use wsapi_app.Event.MediaId.{Codec}
use wsapi_app.Event.Types.{EventData, MessageEvent, message, message_delete, chat_setting}
use wsapi_app.Event.Constants.{type_message, type_message_delete, type_chat_setting}
use wsapi_app.Projector.{
  ProjectorContext, Projection, discard, project, panics, project_chat_id, resolve_sender,
}
use wsapi_app.Projector.Messages.{
  MessageInfo, WaMessage, has_content, publish_content, first, base_event,
  project_message_delete_for_all, project_message_ephemeral_setting, project_protocol_message,
  project_content, project_message,
}
use wsapi_app.Projector.Messages.Context.{project_context_info}
use wsapi_app.Projector.Messages.Media.{
  Texts, project_image_message, project_video_message, project_audio_message,
  project_document_message, project_sticker_message,
}
use wsapi_app.Projector.Messages.Kinds.{
  project_reaction_message, project_contact_message, project_contact_array_message, set_text,
  edited_text, project_extended_text_message, project_edit_message, project_pin_in_chat_message,
}

module _ (wt : WaTypes) (info : MessageInfo) (pctx : ProjectorContext) where
  -- The envelope of the message is that of the report of the client.
  abbrev pub HasHeader : MessageEvent → Type 0
  HasHeader evt =
      (evt.id ≡ info.id)
      × (evt.chat_id ≡ project_chat_id wt info.chat pctx.lids)
      × (evt.sender ≡ resolve_sender wt info.sender info.is_from_me info.sender_alt pctx)
      × (evt.is_group ≡ info.is_group)
      × (evt.time ≡ info.timestamp)
      × (evt.is_status ≡ jid_eq info.chat wt.status_broadcast_jid)

  abbrev pub OutcomeOf : String → EventData → Type 0
  OutcomeOf event_type (message evt) =
      (event_type ≡ type_message) × (has_content evt ≡ true) × (HasHeader evt)
  OutcomeOf event_type (message_delete d) =
      (event_type ≡ type_message_delete)
      × (d.is_deleted_for_all ≡ true)
      × (d.chat_id ≡ project_chat_id wt info.chat pctx.lids)
      × (d.sender ≡ resolve_sender wt info.sender info.is_from_me info.sender_alt pctx)
  OutcomeOf event_type (chat_setting s) =
      (event_type ≡ type_chat_setting) × (s.id ≡ project_chat_id wt info.chat pctx.lids)
  OutcomeOf event_type _ = ⊥

  -- A message with content and the header of the report, a deletion, a setting, or nothing.
  abbrev pub Outcome : Projection → Type 0
  Outcome discard = Unit
  Outcome panics = Unit
  Outcome (project event_type payload) = OutcomeOf event_type payload

  publish_content-Outcome : (evt : MessageEvent) → HasHeader evt → Outcome (publish_content evt)
  unfolding publish_content
  publish_content-Outcome evt h = elim (Bool-cases (has_content evt)) [
    | inl e ↦ rw e (refl, e, h)
    | inr e ↦ rw e tt
  ]

  first-Outcome :
      {A : Type 0} (o : Option A) (f : A → Projection) (rest : Projection)
      → ((a : A) → Outcome (f a))
      → Outcome rest
      → Outcome (first o f rest)
  first-Outcome none f rest h k = k
  first-Outcome (some a) f rest h k = h a

  project_context_info-HasHeader :
      (ctx : Option ContextInfo) (evt : MessageEvent)
      → HasHeader evt
      → HasHeader (project_context_info wt ctx evt pctx)
  unfolding project_context_info
  project_context_info-HasHeader none evt h = h
  project_context_info-HasHeader (some ctx) evt h = h

  set_text-HasHeader :
      (text : Option String) (evt : MessageEvent) → HasHeader evt → HasHeader (set_text text evt)
  unfolding set_text
  set_text-HasHeader text evt h = elim (Bool-cases (get_text text == "")) [
    | inl e ↦ rw e h
    | inr e ↦ rw e h
  ]

  pin-HasHeader :
      (m : PinInChatMessage) (i : Option MessageContextInfo) (evt : MessageEvent)
      → HasHeader evt
      → HasHeader (project_pin_in_chat_message m i evt)
  unfolding project_pin_in_chat_message
  pin-HasHeader m i evt h = elim (Option-cases m.key) [
    | inl e ↦ rw (e, project_pin_in_chat_message) h
    | inr (key, e) ↦ rw (e, project_pin_in_chat_message) h
  ]

  extended_text-HasHeader :
      (m : ExtendedTextMessage) (evt : MessageEvent)
      → HasHeader evt
      → HasHeader (project_extended_text_message wt m evt pctx)
  unfolding project_extended_text_message
  extended_text-HasHeader m evt h =
      project_context_info-HasHeader m.context_info _ (set_text-HasHeader m.text evt h)

module _ (wt : WaTypes) (t : Texts) (c : Codec) (rfc3339 : ℕ → String) (info : MessageInfo)
    (pctx : ProjectorContext) where
  base_event-HasHeader : HasHeader wt info pctx (base_event wt t c rfc3339 info pctx)
  unfolding base_event
  base_event-HasHeader = (refl, refl, refl, refl, refl, refl)

  delete-Outcome :
      (p : ProtocolMessage)
      → Outcome wt info pctx (project_message_delete_for_all wt t c rfc3339 info p pctx)
  unfolding project_message_delete_for_all
  delete-Outcome p = elim (Option-cases p.key) [
    | inl e ↦ rw (e, project_message_delete_for_all) tt
    | inr (key, e) ↦ elim (Option-cases key.id) [
      | inl e' ↦ rw (e, project_message_delete_for_all, e') tt
      | inr (id, e') ↦ rw (e, project_message_delete_for_all, e') (refl, refl, refl, refl)
    ]
  ]

  protocol-Outcome :
      (p : ProtocolMessage) (evt : MessageEvent)
      → HasHeader wt info pctx evt
      → Outcome wt info pctx (project_protocol_message wt t c rfc3339 info p evt pctx)
  unfolding project_protocol_message project_message_delete_for_all project_edit_message
      project_message_ephemeral_setting
  protocol-Outcome p evt h =
      let finish = publish_content-Outcome wt info pctx in
      elim (Option-cases p.type) [
        | inl e ↦ rw (e, project_protocol_message) (finish evt h)
        | inr (message_edit, e) ↦
            rw (e, project_protocol_message)
              (finish _ (set_text-HasHeader wt info pctx (edited_text p.edited_message) evt h))
        | inr (revoke, e) ↦ rw (e, project_protocol_message) (delete-Outcome p)
        | inr (ephemeral_setting, e) ↦ rw (e, project_protocol_message) (refl, refl)
        | inr (other_protocol, e) ↦ rw (e, project_protocol_message) (finish evt h)
      ]

  rest-Outcome :
      (m : Message) (evt : MessageEvent)
      → HasHeader wt info pctx evt
      → Outcome wt info pctx (if m.sender_key_distribution then discard else publish_content evt)
  rest-Outcome m evt h = elim (Bool-cases m.sender_key_distribution) [
    | inl e ↦ rw e tt
    | inr e ↦ rw e (publish_content-Outcome wt info pctx evt h)
  ]

  content-Outcome :
      (m : Message) (evt : MessageEvent)
      → HasHeader wt info pctx evt
      → Outcome wt info pctx (project_content wt t c rfc3339 info m evt pctx)
  unfolding project_content project_image_message project_video_message project_audio_message
      project_document_message project_sticker_message project_reaction_message
      project_contact_message project_contact_array_message
  content-Outcome m evt h =
      let finish = publish_content-Outcome wt info pctx in
      let context = project_context_info-HasHeader wt info pctx in
      elim (Bool-cases (get_text m.conversation == "")) [
        | inr e ↦ rw e (finish _ h)
        | inl e ↦ rw e (
            first-Outcome wt info pctx m.image_message _ _
              (λ x. finish _ (context x.context_info evt h))
              (first-Outcome wt info pctx m.video_message _ _
                (λ x. finish _ (context x.context_info evt h))
                (first-Outcome wt info pctx m.audio_message _ _
                  (λ x. finish _ (context x.context_info evt h))
                  (first-Outcome wt info pctx m.document_message _ _
                    (λ x. finish _ (context x.context_info evt h))
                    (first-Outcome wt info pctx m.sticker_message _ _
                      (λ x. finish _ (context x.context_info evt h))
                      (first-Outcome wt info pctx m.reaction_message _ _ (λ x. finish _ h)
                        (first-Outcome wt info pctx m.contact_message _ _ (λ x. finish _ h)
                          (first-Outcome wt info pctx m.contacts_array_message _ _ (λ x. finish _ h)
                            (first-Outcome wt info pctx m.extended_text_message _ _
                              (λ x. finish _ (extended_text-HasHeader wt info pctx x evt h))
                              (first-Outcome wt info pctx m.pin_in_chat_message _ _
                                (λ x.
                                  finish _
                                    (pin-HasHeader wt info pctx x m.message_context_info evt h))
                                (first-Outcome wt info pctx m.protocol_message _ _
                                  (λ x. protocol-Outcome x evt h) (rest-Outcome m evt h))))))))))))
      ]

-- What the sub-projectors make of a message, whichever applies.
pub project_message-Outcome :
    (wt : WaTypes) (t : Texts) (c : Codec) (rfc3339 : ℕ → String) (msg : WaMessage)
    (pctx : ProjectorContext)
    → Outcome wt msg.info pctx (project_message wt t c rfc3339 msg pctx)
unfolding project_message
project_message-Outcome wt t c rfc3339 msg pctx =
    let info = msg.info in
    let header = base_event-HasHeader wt t c rfc3339 info pctx in
    elim (Bool-cases (info.category == "peer" || info.id == "")) [
      | inl e ↦ rw e tt
      | inr e ↦ elim (Option-cases msg.content) [
        | inl e' ↦ rw (e, e', project_message) (publish_content-Outcome wt info pctx _ header)
        | inr (m, e') ↦
            rw (e, e', project_message) (content-Outcome wt t c rfc3339 info pctx m _ header)
      ]
    ]

discarded_is_none :
    (event_type : String) (payload : EventData) → discard ≡ project event_type payload → ⊥
discarded_is_none event_type payload h = cc

ignored :
    (wt : WaTypes) (t : Texts) (c : Codec) (rfc3339 : ℕ → String) (msg : WaMessage)
    (pctx : ProjectorContext) (event_type : String) (payload : EventData)
    → project_message wt t c rfc3339 msg pctx ≡ project event_type payload
    → (msg.info.category == "peer" || msg.info.id == "") ≡ false
unfolding project_message
ignored wt t c rfc3339 msg pctx event_type payload h =
    elim (Bool-cases (msg.info.category == "peer" || msg.info.id == "")) [
      | inl e ↦ absurd (discarded_is_none event_type payload (rw e at h))
      | inr e ↦ e
    ]

-- A message that `ProjectMessage` publishes is no peer message and has an ID, and it becomes one of
-- three events, with the event type that belongs to it and with the chat and, for a message and a
-- deletion, the sender of the report: an event of a message, which has content and keeps the ID, the
-- group mark, the time and the status mark of the report; a deletion for all; or a chat setting.
pub projected_message_has_content :
    (wt : WaTypes) (t : Texts) (c : Codec) (rfc3339 : ℕ → String) (msg : WaMessage)
    (pctx : ProjectorContext) (event_type : String) (payload : EventData)
    → project_message wt t c rfc3339 msg pctx ≡ project event_type payload
    → ((msg.info.category == "peer" || msg.info.id == "") ≡ false)
      × OutcomeOf wt msg.info pctx event_type payload
projected_message_has_content wt t c rfc3339 msg pctx event_type payload h = (
  ignored wt t c rfc3339 msg pctx event_type payload h,
  rw h at (project_message-Outcome wt t c rfc3339 msg pctx),
)
