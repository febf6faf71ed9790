-- ===== src/Projector/Messages/Context.antt =====
-- `projectContextInfo` and `projectAdReferral`
use wsapi_app.Common.{
  Bool, true, false, not, ◌&&◌, ◌||◌, String, ◌==◌, Option, none, some, [], ◌∷◌, if◌then◌else◌,
}
use wsapi_app.Whatsmeow.{empty_jid, WaTypes}
use wsapi_app.Whatsmeow.Proto.{
  get_text, get_bool, QuotedMessage, AdMediaType, ad_none, ad_image, ad_video, ExternalAdReply,
  ContextInfo,
}
use wsapi_app.Identity.{Sender}
use wsapi_app.Event.Types.{MessageEvent, ReplyInfo, AdReferral}
use wsapi_app.Projector.{
  ProjectorContext, ephemeral_expiration_string, resolve_sender, resolve_mentions,
}

-- The switch over `ad.GetMediaType()`.
unfoldable pub ad_media_type : AdMediaType → String
ad_media_type ad_none = ""
ad_media_type ad_image = "image"
ad_media_type ad_video = "video"

-- The test for attribution data.
unfoldable pub is_attributed : ExternalAdReply → Bool
is_attributed ad = not (
    ad.ctwa_clid == ""
    && (ad.source_id == ""
        && (ad.source_url == "" && (ad.source_type == "" && not ad.show_ad_attribution))))

-- `projectAdReferral`
unfoldable pub project_ad_referral : ContextInfo → Option AdReferral
project_ad_referral ctx = elim ctx.external_ad_reply [
  | none ↦ none
  | some ad ↦
      if is_attributed ad
      then some (record {
        ctwa_clid = ad.ctwa_clid;
        source_type = ad.source_type;
        source_id = ad.source_id;
        source_url = ad.source_url;
        source_app = ad.source_app;
        title = ad.title;
        body = ad.body;
        media_type = ad_media_type ad.media_type;
        thumbnail_url = ad.thumbnail_url;
        conversion_source =
            if not (get_text ctx.entry_point_conversion_source == "")
            then get_text ctx.entry_point_conversion_source
            else get_text ctx.conversion_source;
        show_ad_attribution = ad.show_ad_attribution;
      })
      else none
]

-- The text of a quoted message.
unfoldable pub quoted_text : Option QuotedMessage → String
quoted_text none = ""
quoted_text (some quoted) =
    if not (quoted.conversation == "") then quoted.conversation else quoted.extended_text

module _ (wt : WaTypes) where
  -- The sender of the message that is replied to.
  unfoldable pub reply_sender : String → ProjectorContext → Option Sender
  reply_sender participant pctx = elim (wt.parse_jid participant) [
    | none ↦ none
    | some jid ↦ some (resolve_sender wt jid false empty_jid pctx)
  ]

  -- `result.ReplyTo`
  unfoldable pub reply_info : ContextInfo → ProjectorContext → Option ReplyInfo
  reply_info ctx pctx =
      let stanza_id = get_text ctx.stanza_id in
      let participant = get_text ctx.participant in
      if not (stanza_id == "") || not (participant == "")
      then some (record {
        id = stanza_id;
        sender = if not (participant == "") then reply_sender participant pctx else none;
        text = quoted_text ctx.quoted_message;
        is_forwarded = get_bool ctx.is_forwarded;
      })
      else none

  -- `projectContextInfo`: what is absent leaves the event as it was.
  unfoldable pub project_context_info :
      Option ContextInfo → MessageEvent → ProjectorContext → MessageEvent
  project_context_info none result pctx = result
  project_context_info (some ctx) result pctx = record result {
    is_forwarded = if get_bool ctx.is_forwarded then true else result.is_forwarded;
    mentions = elim ctx.mentioned_jid [
      | [] ↦ result.mentions
      | jid ∷ jids ↦ resolve_mentions wt (jid ∷ jids) pctx
    ];
    reply_to = elim (reply_info ctx pctx) [ none ↦ result.reply_to | some reply ↦ some reply ];
    ephemeral_expiration = elim ctx.expiration [
      | none ↦ result.ephemeral_expiration
      | some seconds ↦ ephemeral_expiration_string seconds
    ];
    ad_referral = elim (project_ad_referral ctx) [
      | none ↦ result.ad_referral
      | some referral ↦ some referral
    ];
  }
