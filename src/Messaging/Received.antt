-- ===== src/Messaging/Received.antt =====
-- Messages that the service sends, as the projector of the recipient reports them.
use wsapi_app.Common.{
  ℕ, ◌≡◌, ◌≢◌, refl, ap, ◌∙◌, sym, Bool, true, false, not, ◌&&◌, ◌||◌, String, ◌==◌, Option, none,
  some, List, [], ◌∷◌, map, All, ltb, arith, eq_iff, eq_false, if◌then◌else◌, Bool-cases,
  Option-cases, inl, inr,
}
use wsapi_app.Whatsmeow.{Jid, WaTypes, LidStore}
use wsapi_app.Whatsmeow.Proto.{ContextInfo, Message}
use wsapi_app.Event.MediaId.{Codec}
use wsapi_app.Event.Types.{MessageEvent, ReplyInfo, message}
use wsapi_app.Event.Constants.{type_message}
use wsapi_app.Jid.{format_recipient}
use wsapi_app.Projector.{
  ProjectorContext, project, resolve_mention, resolve_mentions, project_chat_id,
  ephemeral_expiration_string,
}
use wsapi_app.Projector.Messages.{
  MessageInfo, base_event, has_content, publish_content, project_content, project_message,
}
use wsapi_app.Projector.Messages.Context.{project_context_info, reply_info}
use wsapi_app.Projector.Messages.Media.{Texts}
use wsapi_app.Projector.Messages.Kinds.{set_text, extended_text_of, project_extended_text_message}
use wsapi_app.Messaging.{
  SendOptions, Client, sent, mentioned, set_reply, set_mentions, set_forwarded, set_expiration,
  parse_ephemeral_expiration, build_context_info, send,
}
use wsapi_app.Messaging.Send.{text_message, send_text}

-- The expirations that WhatsApp has, and nothing for every other text.
abbrev pub expiration_of : String → String
expiration_of e = if e == "24h" || (e == "7d" || e == "90d") then e else ""

-- The expiration that the context has for a text.
abbrev seconds_for : String → Option ℕ
seconds_for e =
    if not (e == "") && (not (e == "off") && ltb 0 (parse_ephemeral_expiration e))
    then some (parse_ephemeral_expiration e)
    else none

abbrev reported : Option ℕ → String
reported none = ""
reported (some seconds) = ephemeral_expiration_string seconds

expiration_lem : (e : String) → reported (seconds_for e) ≡ expiration_of e
unfolding parse_ephemeral_expiration ephemeral_expiration_string
expiration_lem e = elim (Bool-cases (e == "24h")) [
  | inl h ↦ let same = (eq_iff e "24h").0 h in rw same refl
  | inr h ↦ elim (Bool-cases (e == "7d")) [
    | inl h' ↦ let same = (eq_iff e "7d").0 h' in rw same refl
    | inr h' ↦ elim (Bool-cases (e == "90d")) [
      | inl k ↦ let same = (eq_iff e "90d").0 k in rw same refl
      | inr k ↦ rw (h, h', k) (ground arith)
    ]
  ]
]

-- What `buildContextInfo` sets.
abbrev drafted : WaTypes → Jid → SendOptions → ContextInfo
drafted wt chat opts = record {
  stanza_id = if not (opts.reply_to == "") then some opts.reply_to else none;
  participant =
      if not (opts.reply_to == "")
      then some (
          if not (opts.reply_to_sender_id == "")
          then opts.reply_to_sender_id
          else wt.to_string chat)
      else none;
  quoted_message =
      if not (opts.reply_to == "")
      then some (record { conversation = ""; extended_text = "" })
      else none;
  mentioned_jid = mentioned wt opts.mentions;
  is_forwarded = if opts.is_forwarded then some true else none;
  expiration = seconds_for opts.ephemeral_expiration;
  external_ad_reply = none;
  entry_point_conversion_source = none;
  conversion_source = none;
}

abbrev has_options : WaTypes → SendOptions → Bool
has_options wt opts =
    (not (opts.ephemeral_expiration == "")
      && (not (opts.ephemeral_expiration == "off")
          && ltb 0 (parse_ephemeral_expiration opts.ephemeral_expiration)))
    || (opts.is_forwarded
        || (elim (mentioned wt opts.mentions) [ [] ↦ false | _ ∷ _ ↦ true ]
            || not (opts.reply_to == "")))

build_context_info_lem :
    (wt : WaTypes) (chat : Jid) (opts : SendOptions)
    → build_context_info wt chat opts
      ≡ (if has_options wt opts then some (drafted wt chat opts) else none)
unfolding build_context_info set_expiration set_forwarded set_mentions set_reply
build_context_info_lem wt chat opts = ground arith

-- A text and its context, in either of the two forms that the service sends.
with_text : WaTypes → String → Option ContextInfo → MessageEvent → ProjectorContext → MessageEvent
with_text wt text ctx result pctx = record (project_context_info wt ctx result pctx) {
  text = text;
  type = "text";
}

pub publish_content-text :
    (evt : MessageEvent) → evt.text ≢ "" → publish_content evt ≡ project type_message (message evt)
unfolding publish_content has_content
publish_content-text evt h = rw (eq_false evt.text "" h) refl

pub set_text-filled :
    (text : String) (evt : MessageEvent)
    → text ≢ ""
    → set_text (some text) evt ≡ record evt { text = text; type = "text" }
unfolding set_text
set_text-filled text evt h = rw (eq_false text "" h) refl

module _ (wt : WaTypes) (t : Texts) (c : Codec) (rfc3339 : ℕ → String) where
  project_content-text_message :
      (info : MessageInfo) (text : String) (ctx : Option ContextInfo) (result : MessageEvent)
      (pctx : ProjectorContext)
      → text ≢ ""
      → project_content wt t c rfc3339 info (text_message text ctx) result pctx
        ≡ project type_message (message (with_text wt text ctx result pctx))
  unfolding project_content text_message with_text project_context_info
      project_extended_text_message extended_text_of
  project_content-text_message info text none result pctx h =
      rw (eq_false text "" h)
        (publish_content-text (record result { text = text; type = "text" }) h)
  project_content-text_message info text (some ctx) result pctx h =
      ap (λ (r : MessageEvent). publish_content (project_context_info wt (some ctx) r pctx))
        (set_text-filled text result h)
      ∙ publish_content-text (with_text wt text (some ctx) result pctx) h

-- The ID of the message that an event replies to.
abbrev pub replied_to : Option ReplyInfo → String
replied_to none = ""
replied_to (some reply) = reply.id

mentions_lem :
    (wt : WaTypes) (jids : List String) (pctx : ProjectorContext)
    → elim jids as (λ _. List String) [ [] ↦ [] | j ∷ js ↦ resolve_mentions wt (j ∷ js) pctx ]
      ≡ resolve_mentions wt jids pctx
unfolding resolve_mentions
mentions_lem wt [] pctx = elim (Option-cases pctx.lids) [
  | inl e ↦ rw (e, resolve_mentions) refl
  | inr (store, e) ↦ rw (e, resolve_mentions) refl
]
mentions_lem wt (j ∷ js) pctx = refl

reply_lem :
    (wt : WaTypes) (chat : Jid) (opts : SendOptions) (pctx : ProjectorContext)
    → replied_to (elim (reply_info wt (drafted wt chat opts) pctx) as (λ _. Option ReplyInfo) [
      | none ↦ none
      | some reply ↦ some reply
    ])
      ≡ opts.reply_to
unfolding reply_info
reply_lem wt chat opts pctx = elim (Bool-cases (opts.reply_to == "")) [
  | inl e ↦ rw e (sym ((eq_iff opts.reply_to "").0 e))
  | inr e ↦ rw (e, e) refl
]

nobody :
    (wt : WaTypes) (jids : List String) (pctx : ProjectorContext)
    → elim jids as (λ _. Bool) [ [] ↦ false | _ ∷ _ ↦ true ] ≡ false
    → [] ≡ resolve_mentions wt jids pctx
nobody wt [] pctx h = mentions_lem wt [] pctx
nobody wt (j ∷ js) pctx h = cc

-- Nothing is set where there is no context.
no_options_lem :
    (wt : WaTypes) (opts : SendOptions) (pctx : ProjectorContext)
    → has_options wt opts ≡ false
    → (false ≡ opts.is_forwarded)
      × ([] ≡ resolve_mentions wt (mentioned wt opts.mentions) pctx)
      × ("" ≡ opts.reply_to)
      × ("" ≡ expiration_of opts.ephemeral_expiration)
no_options_lem wt opts pctx h = (
  ground arith,
  nobody wt (mentioned wt opts.mentions) pctx (ground arith),
  ground (arith, eq_iff opts.reply_to ""),
  ground (arith, expiration_lem opts.ephemeral_expiration),
)

-- The chats of those who are mentioned: the JID of a recipient, as the events of its chat name it.
unfoldable pub mentioned_chats : WaTypes → Option LidStore → List String → List String
mentioned_chats wt lids [] = []
mentioned_chats wt lids (m ∷ ms) =
    let rest = mentioned_chats wt lids ms in
    if m == "" then rest else project_chat_id wt (format_recipient wt m) lids ∷ rest

-- The JID of a recipient names no device and is read back from its text.
abbrev pub IsReadable : WaTypes → String → Type 0
IsReadable wt m =
    let jid = format_recipient wt m in
    (m == "") ≡ false → (jid.device ≡ 0) × (wt.parse_jid (wt.to_string jid) ≡ some jid)

mention_lem :
    (wt : WaTypes) (jid : Jid) (store : LidStore)
    → jid.device ≡ 0
    → wt.parse_jid (wt.to_string jid) ≡ some jid
    → resolve_mention wt store (wt.to_string jid) ≡ project_chat_id wt jid (some store)
unfolding resolve_mention project_chat_id
mention_lem wt jid store d r = elim (Bool-cases (jid.server == wt.hidden_user_server)) [
  | inl e ↦ rw (r, resolve_mention, d, e) refl
  | inr e ↦ rw (r, resolve_mention, d, e) refl
]

plain_lem :
    (wt : WaTypes) (jid : Jid) → jid.device ≡ 0 → wt.to_string jid ≡ project_chat_id wt jid none
unfolding project_chat_id
plain_lem wt jid d = ground arith

mentioned_plain :
    (wt : WaTypes) (ms : List String)
    → All (IsReadable wt) ms
    → mentioned wt ms ≡ mentioned_chats wt none ms
unfolding mentioned mentioned_chats
mentioned_plain wt [] h = refl
mentioned_plain wt (m ∷ ms) (h, hs) = elim (Bool-cases (m == "")) [
  | inl e ↦ rw e (mentioned_plain wt ms hs)
  | inr e ↦ rw (e, plain_lem wt (format_recipient wt m) (h e).0, mentioned_plain wt ms hs) refl
]

mentioned_resolved :
    (wt : WaTypes) (store : LidStore) (ms : List String)
    → All (IsReadable wt) ms
    → map (resolve_mention wt store) (mentioned wt ms) ≡ mentioned_chats wt (some store) ms
unfolding mentioned mentioned_chats
mentioned_resolved wt store [] h = refl
mentioned_resolved wt store (m ∷ ms) (h, hs) = elim (Bool-cases (m == "")) [
  | inl e ↦ rw e (mentioned_resolved wt store ms hs)
  | inr e ↦ rw e (λ i.
      mention_lem wt (format_recipient wt m) store (h e).0 (h e).1 i
      ∷ mentioned_resolved wt store ms hs i)
]

resolved_lem :
    (wt : WaTypes) (ms : List String) (pctx : ProjectorContext)
    → All (IsReadable wt) ms
    → resolve_mentions wt (mentioned wt ms) pctx ≡ mentioned_chats wt pctx.lids ms
unfolding resolve_mentions
resolved_lem wt ms pctx h = elim (Option-cases pctx.lids) [
  | inl e ↦ rw (e, resolve_mentions) (mentioned_plain wt ms h)
  | inr (store, e) ↦ rw (e, resolve_mentions) (mentioned_resolved wt store ms h)
]

module _ (wt : WaTypes) (t : Texts) (c : Codec) (rfc3339 : ℕ → String) where
  -- What the context reports, whether the service sent one or not.
  context_lem :
      (chat : Jid) (opts : SendOptions) (info : MessageInfo) (pctx : ProjectorContext)
      → let result = base_event wt t c rfc3339 info pctx in
        let evt = project_context_info wt (build_context_info wt chat opts) result pctx in
        (evt.is_forwarded ≡ opts.is_forwarded)
        × (evt.mentions ≡ resolve_mentions wt (mentioned wt opts.mentions) pctx)
        × (replied_to evt.reply_to ≡ opts.reply_to)
        × (evt.ephemeral_expiration ≡ expiration_of opts.ephemeral_expiration)
  unfolding project_context_info base_event
  context_lem chat opts info pctx = elim (Bool-cases (has_options wt opts)) [
    | inl h ↦
        rw (build_context_info_lem wt chat opts, h)
          (
            ground arith,
            mentions_lem wt (mentioned wt opts.mentions) pctx,
            reply_lem wt chat opts pctx,
            expiration_lem opts.ephemeral_expiration,
          )
    | inr h ↦ rw (build_context_info_lem wt chat opts, h) (no_options_lem wt opts pctx h)
  ]

  -- A text that is not empty, sent with any options: the client is called once, with the JID of the
  -- recipient and a message that `ProjectMessage` reports, for any sender, chat and ID that it takes, as
  -- an event with that text. The event is marked as forwarded exactly if the options say so, mentions the
  -- chat of the recipient that each mention stands for which is not empty, in order, and has the ID of
  -- the message that is replied to, and the expiration, where it is one that WhatsApp has. The JIDs of
  -- the mentions must name no device and be read back from their texts.
  pub sent_text_is_received :
      (client : Client) (to text : String) (opts : SendOptions) (info : MessageInfo)
      (pctx : ProjectorContext)
      → text ≢ ""
      → (info.category == "peer" || info.id == "") ≡ false
      → All (IsReadable wt) opts.mentions
      → (msg : Message) × (evt : MessageEvent) × ((send_text wt client to text opts).calls
          ≡ sent (format_recipient wt to) msg ∷ [])
        × (project_message wt t c rfc3339 (record { info = info; content = some msg }) pctx
            ≡ project type_message (message evt))
        × (evt.text ≡ text)
        × (evt.type ≡ "text")
        × (evt.is_forwarded ≡ opts.is_forwarded)
        × (evt.mentions ≡ mentioned_chats wt pctx.lids opts.mentions)
        × (replied_to evt.reply_to ≡ opts.reply_to)
        × (evt.ephemeral_expiration ≡ expiration_of opts.ephemeral_expiration)
  unfolding send_text send project_message with_text
  sent_text_is_received client to text opts info pctx filled taken readable =
      let ctx = build_context_info wt (format_recipient wt to) opts in
      let (forwarded, mentions, reply, expiration) =
        context_lem (format_recipient wt to) opts info pctx in
      (
        text_message text ctx,
        with_text wt text ctx (base_event wt t c rfc3339 info pctx) pctx,
        refl,
        rw taken (project_content-text_message wt t c rfc3339 info text ctx _ pctx filled),
        refl,
        refl,
        forwarded,
        mentions ∙ resolved_lem wt opts.mentions pctx readable,
        reply,
        expiration,
      )
